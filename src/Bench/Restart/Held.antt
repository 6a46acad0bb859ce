-- ===== src/Bench/Restart/Held.antt =====
-- The keys that an engine holds while a run of the integrity check loads it.
use mathlib.Core.Path.{subst}
use f4kvs_ffi.Prelude.{
  Bytes, Bool, false, Option, some, List, [], ◌∷◌, ◌≡◌, refl, sym, ap, ◌∙◌, ◌||◌, ◌==◌, bytes_eq,
  if◌then◌else◌, map, Assoc, lookup, contains, contains-append, All, All-append, arith,
}
use f4kvs_ffi.Prelude.Exec.{Outcome, ok}
use f4kvs_ffi.Prelude.After.{After, After-intro, After-weaken, continue-After}
use f4kvs_ffi.Ffi.Text.{has_nul, from_ptr-c_string}
use f4kvs_ffi.Ffi.Lsm.{Lsm, LsmLaws, View, Value, put_all, is_some}
use f4kvs_ffi.Ffi.Calls.{Message}
use f4kvs_ffi.Engine.{F4kvs, GoError, batch_put_bytes}
use f4kvs_ffi.Engine.Stored.{c_key, engine}
use f4kvs_ffi.Engine.Batch.{KeysClean, to_pair, c_state, batch_items-Collected}
use f4kvs_ffi.Bench.Batching.{same_payload}
use f4kvs_ffi.Bench.Slices.{concat, put_each}
use f4kvs_ffi.Bench.Loaded.{same_payload-KeysClean, lookup-same_payload}

abbrev pub Clean : List Bytes → Type 0
Clean keys = All (λ k. has_nul k ≡ false) keys

put_all-held :
    (xs : Assoc Bytes Bytes) (v : View) (k : Bytes)
    → KeysClean xs
    → is_some (put_all (map to_pair xs) v k) ≡ (is_some (lookup k xs) || is_some (v k))
put_all-held [] v k h = refl
put_all-held ((j, b) ∷ xs) v k h = ground (
  arith,
  put_all-held xs (λ i. if c_key j == i then some (Value.bytes b) else v i) k h.1,
  from_ptr-c_string j h.0,
)

module _ {S : Type 0} ⦃lsm : Lsm S⦄ (laws : LsmLaws S lsm) where
  -- An open engine that holds something under the keys of a test, and under no others.
  abbrev pub Holds : (Bytes → Bool) → F4kvs S → Type 0
  Holds held e =
      (s : S) × (m : Option Message) × (e ≡ engine false (some s) m)
      × ((k : Bytes) → is_some (laws.view s k) ≡ held k)

  -- A call after which the keys of a test are held.
  abbrev pub Leaves : {A : Type 0} → (Bytes → Bool) → Outcome GoError A × F4kvs S → Type 0
  Leaves held = After (λ _. Holds held)

  batch_put_bytes-done :
      (x : Bytes × Bytes) (xs : Assoc Bytes Bytes) (s : S) (m : Option Message)
      → (batch_put_bytes (x ∷ xs) (engine false (some s) m)).0 ≡ ok tt
      → ((lsm.batch_put (map to_pair (x ∷ xs)) s).0 ≡ ok tt)
        × ((batch_put_bytes (x ∷ xs) (engine false (some s) m)).1
            ≡ engine false (some (lsm.batch_put (map to_pair (x ∷ xs)) s).1) m)
  unfolding batch_put_bytes
  batch_put_bytes-done x xs s m o = ground (arith, batch_items-Collected 0 (x ∷ xs) (c_state s m))

  batch_put_bytes-Holds :
      (xs : Assoc Bytes Bytes) (held : Bytes → Bool) (e : F4kvs S)
      → KeysClean xs
      → Holds held e
      → Leaves (λ k. is_some (lookup k xs) || held k) (batch_put_bytes xs e)
  unfolding batch_put_bytes
  batch_put_bytes-Holds [] held e c h = h
  batch_put_bytes-Holds (x ∷ xs) held e c (s, m, same, h) =
      subst (λ e. Leaves (λ k. is_some (lookup k (x ∷ xs)) || held k) (batch_put_bytes (x ∷ xs) e))
        (sym same)
        (After-intro _ (batch_put_bytes (x ∷ xs) (engine false (some s) m)) λ u o.
          let (put, after) = batch_put_bytes-done x xs s m o in
          (
            (lsm.batch_put (map to_pair (x ∷ xs)) s).1,
            m,
            after,
            λ k.
                ap is_some (laws.batch_put_view (map to_pair (x ∷ xs)) k s put)
                ∙ put_all-held (x ∷ xs) (laws.view s) k c
                ∙ ap (λ b. is_some (lookup k (x ∷ xs)) || b) (h k),
          ))

  pub Holds-same :
      {held other : Bytes → Bool} (e : F4kvs S)
      → Holds held e
      → ((k : Bytes) → held k ≡ other k)
      → Holds other e
  Holds-same e (s, m, same, h) q = (s, m, same, λ k. h k ∙ q k)

  pub same_payload-Holds :
      (p : Bytes) (xs : List Bytes) (held : Bytes → Bool) (e : F4kvs S)
      → Clean xs
      → Holds held e
      → Leaves (λ k. contains xs k || held k) (batch_put_bytes (same_payload p xs []) e)
  same_payload-Holds p xs held e c h =
      After-weaken _ _ (batch_put_bytes (same_payload p xs []) e)
        (batch_put_bytes-Holds (same_payload p xs []) held e (same_payload-KeysClean p xs [] c tt)
          h)
        λ _ e' h'. Holds-same e' h' λ k. ground (arith, lookup-same_payload p xs [] k)

  pub put_each-Holds :
      (p : Bytes) (xss : List (List Bytes)) (held : Bytes → Bool) (e : F4kvs S)
      → Clean (concat xss)
      → Holds held e
      → Leaves (λ k. contains (concat xss) k || held k) (put_each p xss e)
  put_each-Holds p [] held e c h = h
  put_each-Holds p (xs ∷ xss) held e c h =
      let (here, there) = All-append (λ k. has_nul k ≡ false) xs (concat xss) c in
      continue-After _ _ (batch_put_bytes (same_payload p xs []) e) (λ _. put_each p xss)
        (same_payload-Holds p xs held e here h)
        λ u e' h'.
          After-weaken _ _ (put_each p xss e')
            (put_each-Holds p xss (λ k. contains xs k || held k) e' there h')
            λ _ e'' h''. Holds-same e'' h'' λ k. ground (arith, contains-append xs (concat xss) k)
