-- ===== src/Engine/Loops.antt =====
-- `BatchGetBytes`, `BatchGetValues` and `BatchPut`, which call the engine once for each key.
use mathlib.Core.Path.{fun_ext, subst}
use f4kvs_ffi.Prelude.{
  Bytes, Option, none, List, [], ◌∷◌, ◌≡◌, refl, sym, ap, ◌∙◌, if◌then◌else◌, Assoc, lookup, insert,
  lookup-insert, contains, bytes_eq, arith,
}
use f4kvs_ffi.Prelude.Exec.{Outcome, ok, err, panic, continue}
use f4kvs_ffi.Ffi.Lsm.{Lsm, LsmLaws}
use f4kvs_ffi.Engine.{
  F4kvs, GoError, Go, get, get_bytes, put, put_bytes, collect, batch_get_bytes, batch_get_values,
  batch_put,
}
use f4kvs_ffi.Engine.Stored.{
  stored, Fits, Reads, get_bytes-Reads, stored-get_bytes, put_bytes-stored,
}
use f4kvs_ffi.Engine.Batch.{after_puts}

module _ {S : Type 0} ⦃lsm : Lsm S⦄ where
  get-get_bytes : (key : Bytes) (e : F4kvs S) → get key e ≡ get_bytes key e
  unfolding get
  get-get_bytes key e = outcome (get_bytes key e)
    where
      outcome : (r : Outcome GoError Bytes × F4kvs S) → continue r.0 (λ v. λ s. (ok v, s)) r.1 ≡ r
      outcome (ok v, s) = refl
      outcome (err x, s) = refl
      outcome (panic, s) = refl

  -- A call that comes first succeeds if the whole does.
  first-ok :
      {A B : Type 0} (r : Outcome GoError A × F4kvs S) (f : A → Go S B) (b : B)
      → (continue r.0 f r.1).0 ≡ ok b
      → (a : A) × (r.0 ≡ ok a) × (continue r.0 f r.1 ≡ f a r.1)
  first-ok (ok a, e) f b h = (a, refl, refl)
  first-ok (err x, e) f b h = absurd (ground (arith, h))
  first-ok (panic, e) f b h = absurd (ground (arith, h))

module _ {S : Type 0} ⦃lsm : Lsm S⦄ (laws : LsmLaws S lsm) where
  collect-stored :
      (keys : List Bytes) (result r : Assoc Bytes Bytes) (j : Bytes) (e : F4kvs S)
      → ((i : Bytes) → Fits (stored laws e i))
      → (collect get_bytes keys result e).0 ≡ ok r
      → lookup j r ≡ (if contains keys j then stored laws e j else lookup j result)
  unfolding collect
  collect-stored [] result r j e f o = ground (arith, o)
  collect-stored (k ∷ keys) result r j e f o =
      let e' = (get_bytes k e).1 in
      let (v, got, rest) =
        first-ok (get_bytes k e) (λ v. collect get_bytes keys (insert k v result)) r o in
      let fits = λ (i : Bytes). subst Fits (sym (stored-get_bytes laws k i e)) (f i) in
      let reads = get_bytes-Reads laws k e (f k) in
      let there =
        collect-stored keys (insert k v result) r j e' fits (ap (λ q. q.0) (sym rest) ∙ o) in
      let held = subst (Reads (stored laws e k)) got reads in
      there
      ∙ ground (
        arith,
        held,
        stored-get_bytes laws k j e,
        lookup-insert k j v result,
        bytes_eq.beq_iff k j,
      )

  -- After a successful `BatchGetBytes` the result has for each of the keys the value stored under
  -- it, and for no other key anything. `BatchGetValues` does the same. Stored values are shorter
  -- than 2^31 bytes.
  pub batch_get_bytes-stored :
      (keys : List Bytes) (r : Assoc Bytes Bytes) (j : Bytes) (e : F4kvs S)
      → ((i : Bytes) → Fits (stored laws e i))
      → (batch_get_bytes keys e).0 ≡ ok r
      → (lookup j r ≡ (if contains keys j then stored laws e j else none))
        × (batch_get_values keys e ≡ batch_get_bytes keys e)
  unfolding batch_get_bytes batch_get_values
  batch_get_bytes-stored keys r j e f o = (
    collect-stored keys [] r j e f o,
    ap (λ (read : Bytes → Go S Bytes). collect read keys [] e)
        (fun_ext λ k. fun_ext λ e'. get-get_bytes k e'),
  )

  -- A successful `BatchPut` stores what the entries say, in the order of the loop: where C reads
  -- two keys as one, the later entry wins.
  pub batch_put-after_puts :
      (xs : Assoc Bytes Bytes) (j : Bytes) (e : F4kvs S)
      → (batch_put xs e).0 ≡ ok tt
      → stored laws (batch_put xs e).1 j ≡ after_puts xs (stored laws e) j
  unfolding batch_put put
  batch_put-after_puts [] j e o = refl
  batch_put-after_puts ((k, v) ∷ xs) j e o =
      let e' = (put_bytes k v e).1 in
      let (u, got, rest) = first-ok (put_bytes k v e) (λ _. batch_put xs) tt o in
      let there = batch_put-after_puts xs j e' (ap (λ q. q.0) (sym rest) ∙ o) in
      ap (λ q. stored laws q.1 j) rest
      ∙ there
      ∙ ap (λ (old : Bytes → Option Bytes). after_puts xs old j)
          (fun_ext λ i. put_bytes-stored laws k v i e got)
