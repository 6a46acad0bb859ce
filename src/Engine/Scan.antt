-- ===== src/Engine/Scan.antt =====
-- `ScanPrefixKeys`: which keys it lists.
use f4kvs_ffi.Prelude.{
  Bytes, Bool, true, false, Option, none, some, List, [], ◌∷◌, ◌≡◌, refl, ◌&&◌, map, contains,
  bytes_eq, arith,
}
use f4kvs_ffi.Prelude.Exec.{Outcome, ok, err, panic}
use f4kvs_ffi.Ffi.Text.{from_ptr, has_nul, from_ptr-c_string}
use f4kvs_ffi.Ffi.Lsm.{Lsm, LsmLaws, starts_with, is_some}
use f4kvs_ffi.Ffi.Calls.{F4KvsError, Message, CSide, allocate_keys}
use f4kvs_ffi.Engine.{F4kvs, scan_prefix_keys}
use f4kvs_ffi.Engine.Stored.{c_key, stored, engine}

module _ {S : Type 0} where
  -- The keys come back as they were found, or one of them holds a NUL.
  abbrev Copied : List Bytes → CSide S → Outcome F4KvsError (List Bytes) × CSide S → Type 0
  Copied keys c (ok ptrs, c') = (map from_ptr ptrs ≡ keys) × (c' ≡ c)
  Copied keys c (err code, c') = (c'.handle ≡ c.handle)
  Copied keys c (panic, c') = ⊥

  allocate_keys-Copied : (keys : List Bytes) (c : CSide S) → Copied keys c (allocate_keys keys c)
  unfolding allocate_keys
  allocate_keys-Copied [] c = (refl, refl)
  allocate_keys-Copied (k ∷ keys) c =
      ground (arith, from_ptr-c_string k, allocate_keys-Copied keys c)

abbrev c_state : {S : Type 0} → S → Option Message → CSide S
c_state s m = record { handle = some s; last_error = m }

module _ {S : Type 0} ⦃lsm : Lsm S⦄ (laws : LsmLaws S lsm) where
  scan_prefix_keys-lists_open :
      (prefix j : Bytes) (ks : List Bytes) (s : S) (m : Option Message)
      (r : Outcome Bytes (List Bytes))
      → (lsm.scan_prefix (c_key prefix) s).0 ≡ r
      → has_nul j ≡ false
      → (scan_prefix_keys prefix (engine false (some s) m)).0 ≡ some ks
      → contains ks j
        ≡ (starts_with (c_key prefix) j && is_some (stored laws (engine false (some s) m) j))
  unfolding scan_prefix_keys
  scan_prefix_keys-lists_open prefix j ks s m (ok keys) q n o = ground (
    arith,
    q,
    laws.scan_keys (c_key prefix) j s,
    from_ptr-c_string j n,
    allocate_keys-Copied keys (c_state (lsm.scan_prefix (c_key prefix) s).1 m),
  )
  scan_prefix_keys-lists_open prefix j ks s m (err e) q n o = absurd (ground (arith, q, o))
  scan_prefix_keys-lists_open prefix j ks s m panic q n o = absurd (ground (arith, q, o))

  scan_prefix_keys-lists_at :
      (prefix j : Bytes) (ks : List Bytes) (c : Bool) (h : Option S) (m : Option Message)
      → has_nul j ≡ false
      → (scan_prefix_keys prefix (engine c h m)).0 ≡ some ks
      → contains ks j ≡ (starts_with (c_key prefix) j && is_some (stored laws (engine c h m) j))
  unfolding scan_prefix_keys
  scan_prefix_keys-lists_at prefix j ks true h m n o = cc
  scan_prefix_keys-lists_at prefix j ks false none m n o = cc
  scan_prefix_keys-lists_at prefix j ks false (some s) m n o =
      scan_prefix_keys-lists_open prefix j ks s m (lsm.scan_prefix (c_key prefix) s).0 refl n o

  -- If a scan returns keys, a key without a NUL is among them exactly if it begins with the prefix,
  -- as C reads it, and something is stored under it.
  pub scan_prefix_keys-lists :
      (prefix j : Bytes) (ks : List Bytes) (e : F4kvs S)
      → has_nul j ≡ false
      → (scan_prefix_keys prefix e).0 ≡ some ks
      → contains ks j ≡ (starts_with (c_key prefix) j && is_some (stored laws e j))
  scan_prefix_keys-lists prefix j ks e n o =
      scan_prefix_keys-lists_at prefix j ks e.closed e.handle e.last_error n o
