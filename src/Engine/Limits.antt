-- ===== src/Engine/Limits.antt =====
-- Which calls the C interface accepts: the limits on keys, values and batches.
use f4kvs_ffi.Prelude.{
  ◌≤◌, ◌<◌, Bytes, true, false, Option, some, ◌∷◌, ◌++◌, ◌≡◌, ◌↔◌, length, length-map, Assoc,
  bytes_eq, arith,
}
use f4kvs_ffi.Prelude.Exec.{ok, err}
use f4kvs_ffi.Ffi.Text.{is_utf8, from_ptr-nul}
use f4kvs_ffi.Ffi.Lsm.{Lsm, LsmLaws, bytes}
use f4kvs_ffi.Ffi.Calls.{Message, batch_too_large, max_key_length, max_value_length}
use f4kvs_ffi.Engine.{F4kvs, put_bytes, batch_put_bytes, batch_put_failed, message, to_item}
use f4kvs_ffi.Engine.Stored.{c_key, stored, engine, slice_all, put_bytes-stored}

abbrev pub IsKey : Bytes → Type 0
IsKey key = (length (c_key key) ≤ max_key_length) × (is_utf8 (c_key key) ≡ true)

module _ {S : Type 0} ⦃lsm : Lsm S⦄ where
  -- On an open engine a put succeeds exactly when C reads the key as valid UTF-8 of at most 1 MiB,
  -- the value has at most 100 MiB, and the engine's own put succeeds.
  pub put_bytes-accepts :
      (key value : Bytes) (s : S) (m : Option Message)
      → ((put_bytes key value (engine false (some s) m)).0 ≡ ok tt) ↔ (
          IsKey key
          × (length value ≤ max_value_length)
          × ((lsm.put (c_key key) (bytes value) s).0 ≡ ok tt))
  unfolding put_bytes
  put_bytes-accepts key value s m =
      (λ h. ground (arith, slice_all value), λ h. ground (arith, slice_all value))

  -- A batch of more items than the engine's limit is refused as an invalid argument, and the
  -- engine is not called.
  pub batch_put_bytes-too_large :
      (x : Bytes × Bytes) (xs : Assoc Bytes Bytes) (s : S) (m : Option Message)
      → lsm.max_batch_size s < length (x ∷ xs)
      → batch_put_bytes (x ∷ xs) (engine false (some s) m) ≡ (
        err (batch_put_failed (message (batch_too_large (length (x ∷ xs)) (lsm.max_batch_size s)))),
        engine false (some s) (some (batch_too_large (length (x ∷ xs)) (lsm.max_batch_size s))),
      )
  unfolding batch_put_bytes
  batch_put_bytes-too_large x xs s m h = ground (arith, length-map xs to_item)

-- Go strings may hold a NUL, C strings end there: a put under `key ++ "\x00" ++ t`, if it succeeds,
-- overwrites what is stored under `key`.
pub put_bytes-nul :
    {S : Type 0} ⦃lsm : Lsm S⦄ (laws : LsmLaws S lsm) (key t value : Bytes) (e : F4kvs S)
    → (put_bytes (key ++ 0 ∷ t) value e).0 ≡ ok tt
    → stored laws (put_bytes (key ++ 0 ∷ t) value e).1 key ≡ some value
put_bytes-nul laws key t value e h = ground (
  arith,
  put_bytes-stored laws (key ++ 0 ∷ t) value key e h,
  from_ptr-nul key t,
  bytes_eq.beq_iff (c_key (key ++ 0 ∷ t)) (c_key key),
)
