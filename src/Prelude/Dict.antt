-- ===== src/Prelude/Dict.antt =====
-- A Go map as the list of its entries. The order of the list is the order in which one `range`
-- loop visits the entries; it is arbitrary in Go, and the theorems hold for every order.
use mathlib.Core.Path.{◌≡◌, refl}
use mathlib.Core.Bool.{Bool, true, false, ◌||◌}
use mathlib.Core.Option.{Option, none, some}
use mathlib.Core.List.{List, [], ◌∷◌, ◌++◌}
use native.Mathlib.Omega.{arith}
use f4kvs_ffi.Prelude.Tests.{Eq, ◌==◌, if◌then◌else◌}

abbrev pub Assoc {ℓ} : Type ℓ → Type ℓ → Type ℓ
Assoc K V = List (K × V)

module _ {ℓ} {K V : Type ℓ} ⦃e : Eq K⦄ where
  -- `m[k]`
  abbrev pub lookup : K → Assoc K V → Option V
  lookup k [] = none
  lookup k ((j, v) ∷ m) = if j == k then some v else lookup k m

  -- `m[k] = v`
  abbrev pub insert : K → V → Assoc K V → Assoc K V
  insert k v [] = (k, v) ∷ []
  insert k v ((j, w) ∷ m) = if j == k then (j, v) ∷ m else (j, w) ∷ insert k v m

  -- No key stands twice, as in every Go map.
  abbrev pub Distinct : Assoc K V → Type ℓ
  Distinct [] = Unit
  Distinct ((k, v) ∷ m) = (lookup k m ≡ none) × Distinct m

  pub lookup-insert :
      (k j : K) (v : V) (m : Assoc K V)
      → lookup j (insert k v m) ≡ (if k == j then some v else lookup j m)
  lookup-insert k j v [] = refl
  lookup-insert k j v ((i, w) ∷ m) =
      ground (arith, e.beq_iff k j, e.beq_iff i k, e.beq_iff i j, lookup-insert k j v m)

  pub insert-Distinct : (k : K) (v : V) (m : Assoc K V) → Distinct m → Distinct (insert k v m)
  insert-Distinct k v [] h = (refl, tt)
  insert-Distinct k v ((i, w) ∷ m) h =
      ground (arith, insert-Distinct k v m h.1, lookup-insert k i v m, e.beq_iff i k, e.beq_iff k i)

  -- `delete(m, k)`
  abbrev pub erase : K → Assoc K V → Assoc K V
  erase k [] = []
  erase k ((j, w) ∷ m) = if j == k then erase k m else (j, w) ∷ erase k m

  pub lookup-erase :
      (k j : K) (m : Assoc K V) → lookup j (erase k m) ≡ (if k == j then none else lookup j m)
  lookup-erase k j [] = ground arith
  lookup-erase k j ((i, w) ∷ m) =
      ground (arith, e.beq_iff k j, e.beq_iff i k, e.beq_iff i j, lookup-erase k j m)

-- Whether a list holds a key.
abbrev pub contains {ℓ} : {K : Type ℓ} ⦃e : Eq K⦄ → List K → K → Bool
contains [] k = false
contains (j ∷ ks) k = if j == k then true else contains ks k

pub contains-append {ℓ} :
    {K : Type ℓ} ⦃e : Eq K⦄ (xs ys : List K) (j : K)
    → contains (xs ++ ys) j ≡ (contains xs j || contains ys j)
contains-append [] ys j = refl
contains-append (x ∷ xs) ys j = ground (arith, contains-append xs ys j)
