-- ===== src/Bench/Loaded.antt =====
-- What `batchPutBytesChunked` of bench/embed_vs_sqlite/main.go stores.
use mathlib.Core.Path.{subst}
use f4kvs_ffi.Prelude.{
  All-append, contains-append, ◌<◌, ◌^◌, Bytes, false, none, some, List, [], ◌∷◌, ◌≡◌, refl, sym,
  ap, ◌∙◌, nat_eq, bytes_eq, if◌then◌else◌, length, All, Assoc, Distinct, lookup, contains, insert,
  insert-Distinct, lookup-insert, ℤ, arith,
}
use f4kvs_ffi.Prelude.Exec.{Outcome, continue, ok, err, panic}
use f4kvs_ffi.Ffi.Text.{has_nul}
use f4kvs_ffi.Ffi.Lsm.{Lsm, LsmLaws}
use f4kvs_ffi.Engine.{F4kvs, Go, GoError, batch_put_bytes}
use f4kvs_ffi.Engine.Stored.{stored}
use f4kvs_ffi.Engine.Batch.{KeysClean, batch_put_bytes-stored}
use f4kvs_ffi.Bench.Batching.{same_payload, batch_put_bytes_chunked}
use f4kvs_ffi.Bench.Slices.{batch_put_bytes_chunked-slices, concat, put_each}

insert-KeysClean :
    (k v : Bytes) (m : Assoc Bytes Bytes)
    → has_nul k ≡ false
    → KeysClean m
    → KeysClean (insert k v m)
insert-KeysClean k v [] h c = (h, tt)
insert-KeysClean k v ((i, w) ∷ m) h c = ground (arith, insert-KeysClean k v m h c.1)

pub same_payload-KeysClean :
    (p : Bytes) (ks : List Bytes) (m : Assoc Bytes Bytes)
    → All (λ k. has_nul k ≡ false) ks
    → KeysClean m
    → KeysClean (same_payload p ks m)
unfolding same_payload
same_payload-KeysClean p [] m h c = c
same_payload-KeysClean p (k ∷ ks) m h c =
    same_payload-KeysClean p ks (insert k p m) h.1 (insert-KeysClean k p m h.0 c)

same_payload-Distinct :
    (p : Bytes) (ks : List Bytes) (m : Assoc Bytes Bytes)
    → Distinct m
    → Distinct (same_payload p ks m)
unfolding same_payload
same_payload-Distinct p [] m d = d
same_payload-Distinct p (k ∷ ks) m d =
    same_payload-Distinct p ks (insert k p m) (insert-Distinct k p m d)

pub lookup-same_payload :
    (p : Bytes) (ks : List Bytes) (m : Assoc Bytes Bytes) (j : Bytes)
    → lookup j (same_payload p ks m) ≡ (if contains ks j then some p else lookup j m)
unfolding same_payload
lookup-same_payload p [] m j = refl
lookup-same_payload p (k ∷ ks) m j =
    ground (arith, lookup-same_payload p ks (insert k p m) j, lookup-insert k j p m)

-- Two calls in a row succeed if both do, and the second runs on what the first left.
>>-ok_at :
    {S : Type 0} (r : Outcome GoError (Unit {0}) × F4kvs S) (k : Go S (Unit {0}))
    → (continue r.0 (λ _. k) r.1).0 ≡ ok tt
    → (r.0 ≡ ok tt) × (continue r.0 (λ _. k) r.1 ≡ k r.1)
>>-ok_at (ok tt, e) k h = (refl, refl)
>>-ok_at (err x, e) k h = cc
>>-ok_at (panic, e) k h = cc

module _ {S : Type 0} ⦃lsm : Lsm S⦄ (laws : LsmLaws S lsm) where
  put_each-stored :
      (p : Bytes) (xss : List (List Bytes)) (j : Bytes) (e : F4kvs S)
      → All (λ k. has_nul k ≡ false) (concat xss)
      → has_nul j ≡ false
      → (put_each p xss e).0 ≡ ok tt
      → stored laws (put_each p xss e).1 j
        ≡ (if contains (concat xss) j then some p else stored laws e j)
  put_each-stored p [] j e h n o = refl
  put_each-stored p (xs ∷ xss) j e h n o =
      let m = same_payload p xs [] in
      let (here, there) = All-append (λ k. has_nul k ≡ false) xs (concat xss) h in
      let (first, both) = >>-ok_at (batch_put_bytes m e) (put_each p xss) o in
      let e' = (batch_put_bytes m e).1 in
      ground (
        arith,
        both,
        put_each-stored p xss j e' there n (ap (λ r. r.0) (sym both) ∙ o),
        batch_put_bytes-stored laws m j e (same_payload-KeysClean p xs [] here tt)
            (same_payload-Distinct p xs [] tt) n first,
        lookup-same_payload p xs [] j,
        contains-append xs (concat xss) j,
      )

  -- After a successful `batchPutBytesChunked` of fewer than 2^32 keys without a NUL, every key
  -- holds the payload, and every other key without a NUL what it had.
  pub batch_put_bytes_chunked-stored :
      (size : ℤ) (keys : List Bytes) (payload j : Bytes) (e : F4kvs S)
      → length keys < 2 ^ 32
      → All (λ k. has_nul k ≡ false) keys
      → has_nul j ≡ false
      → (batch_put_bytes_chunked size keys payload e).0 ≡ ok tt
      → stored laws (batch_put_bytes_chunked size keys payload e).1 j
        ≡ (if contains keys j then some payload else stored laws e j)
  batch_put_bytes_chunked-stored size keys payload j e small h n o =
      let (xss, all, _, each) =
        batch_put_bytes_chunked-slices {S = S} none size keys payload small in
      let run = ap (λ (m : Go S (Unit {0})). m e) each in
      let clean = subst (All (λ k. has_nul k ≡ false)) (sym all) h in
      ap (λ r. stored laws r.1 j) run
      ∙ put_each-stored payload xss j e clean n (ap (λ r. r.0) (sym run) ∙ o)
      ∙ ap (λ ks. if contains ks j then some payload else stored laws e j) all
