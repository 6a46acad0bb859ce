-- ===== src/Prelude/Members.antt =====
-- Lists in which nothing stands twice, and what they hold.
use Prim.Native.Nat.{suc, ◌≤◌}
use mathlib.Core.Path.{◌≡◌, refl, sym, ◌∙◌, subst}
use mathlib.Core.Logic.{inl, inr}
use mathlib.Core.Bool.{true, false}
use mathlib.Core.List.{List, [], ◌∷◌}
use native.Mathlib.Omega.{arith}
use f4kvs_ffi.Prelude.Tests.{Eq, ◌==◌, if◌then◌else◌, ==_self, Bool-cases}
use f4kvs_ffi.Prelude.Lists.{length, All}
use f4kvs_ffi.Prelude.Dict.{contains}

module _ {A : Type 0} ⦃e : Eq A⦄ where
  abbrev pub Unrepeated : List A → Type 0
  Unrepeated [] = Unit
  Unrepeated (x ∷ xs) = (contains xs x ≡ false) × Unrepeated xs

  -- Without the first `x`.
  abbrev remove : A → List A → List A
  remove x [] = []
  remove x (y ∷ ys) = if y == x then ys else y ∷ remove x ys

  length-remove :
      (x : A) (ys : List A) → contains ys x ≡ true → length ys ≡ suc (length (remove x ys))
  length-remove x [] h = cc
  length-remove x (y ∷ ys) h = ground (arith, length-remove x ys)

  contains-remove :
      (x k : A) (ys : List A) → (x == k) ≡ false → contains (remove x ys) k ≡ contains ys k
  contains-remove x k [] h = refl
  contains-remove x k (y ∷ ys) h =
      ground (arith, contains-remove x k ys, e.beq_iff y x, e.beq_iff y k, e.beq_iff x k)

  -- A list without repetitions is at most as long as one that holds all of it.
  length_le :
      (xs ys : List A)
      → Unrepeated xs
      → ((k : A) → contains xs k ≡ true → contains ys k ≡ true)
      → length xs ≤ length ys
  length_le [] ys u h = omega arith
  length_le (x ∷ xs) ys u h =
      let here = h x (ground (arith, ==_self x)) in
      let rest =
        length_le xs (remove x ys) u.1
          (λ k held. ground (arith, contains-remove x k ys, h k, u.0, e.beq_iff x k, held)) in
      omega (arith, length-remove x ys here, rest)

  -- Two such lists that hold the same are of the same length.
  pub same_members-length :
      (xs ys : List A)
      → Unrepeated xs
      → Unrepeated ys
      → ((k : A) → contains xs k ≡ contains ys k)
      → length xs ≡ length ys
  same_members-length xs ys u v h = omega (
    arith,
    length_le xs ys u (λ k held. sym (h k) ∙ held),
    length_le ys xs v (λ k held. h k ∙ held),
  )

  -- What holds of all holds of each.
  pub All_member : (P : A → Type 0) (xs : List A) (k : A) → All P xs → contains xs k ≡ true → P k
  All_member P [] k h m = cc
  All_member P (x ∷ xs) k h m = elim (Bool-cases (x == k)) [
    | inl same ↦ subst P ((e.beq_iff x k).0 same) h.0
    | inr other ↦ All_member P xs k h.1 (ground (arith, m, other))
  ]
