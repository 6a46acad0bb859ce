-- ===== src/Engine/BatchLimits.antt =====
-- Which batches `f4kvs_engine_batch_put_bytes` accepts, and what it answers to the others.
use f4kvs_ffi.Prelude.{
  ℕ, ◌+◌, ◌≤◌, Bytes, String, true, false, Option, some, List, [], ◌∷◌, ◌≡◌, ◌↔◌, ◌⊎◌, refl, ap,
  length, length-map, Assoc, map, ltb, bytes_eq, take_all, Bool-cases, inl, inr, arith,
}
use f4kvs_ffi.Prelude.Exec.{Outcome, ok, err, panic}
use f4kvs_ffi.Prelude.After.{continue-ok}
use f4kvs_ffi.Ffi.Text.{c_string, from_ptr, is_utf8}
use f4kvs_ffi.Ffi.Lsm.{Lsm, Value}
use f4kvs_ffi.Ffi.Calls.{
  F4KvsError, error_invalid_argument, Message, CSide, batch_items, validate_c_string,
  value_from_raw, engine_batch_put_bytes, max_key_length, max_value_length, too_long_at, is_null_at,
}
use f4kvs_ffi.Engine.{batch_put_bytes, value_ptr, to_item}
use f4kvs_ffi.Engine.Stored.{engine}
use f4kvs_ffi.Engine.Batch.{to_pair, c_state, Collected, batch_items-Collected}
use f4kvs_ffi.Engine.Limits.{IsKey}

-- The entries that the C interface takes.
abbrev pub AreEntries : Assoc Bytes Bytes → Type 0
AreEntries [] = Unit
AreEntries ((k, v) ∷ xs) = IsKey k × ((length v ≤ max_value_length) × AreEntries xs)

module _ {S : Type 0} where
  key_taken :
      (ptr : Bytes) (n : ℕ) (field : String) (c : CSide S)
      → length (from_ptr ptr) ≤ n
      → is_utf8 (from_ptr ptr) ≡ true
      → validate_c_string ptr n field c ≡ (ok (from_ptr ptr), c)
  unfolding validate_c_string
  key_taken ptr n field c h g = ground arith

  key_fits :
      (ptr text : Bytes) (n : ℕ) (field : String) (c : CSide S)
      → (validate_c_string ptr n field c).0 ≡ ok text
      → (length (from_ptr ptr) ≤ n) × (is_utf8 (from_ptr ptr) ≡ true)
  unfolding validate_c_string
  key_fits ptr text n field c h = ground arith

  value_taken :
      (v : Bytes) (long missing : Message) (c : CSide S)
      → length v ≤ max_value_length
      → value_from_raw (value_ptr v) (length v) long missing c ≡ (ok v, c)
  unfolding value_from_raw value_ptr
  value_taken [] long missing c h = refl
  value_taken (b ∷ v) long missing c h = ground (arith, take_all (length v) v)

  value_fits :
      (v w : Bytes) (long missing : Message) (c : CSide S)
      → (value_from_raw (value_ptr v) (length v) long missing c).0 ≡ ok w
      → length v ≤ max_value_length
  unfolding value_from_raw value_ptr
  value_fits [] w long missing c h = omega arith
  value_fits (b ∷ v) w long missing c h = ground arith

  entries_taken :
      (i : ℕ) (xs : Assoc Bytes Bytes) (c : CSide S)
      → AreEntries xs
      → batch_items i (map to_item xs) c ≡ (ok (map to_pair xs), c)
  unfolding batch_items to_item
  entries_taken i [] c h = refl
  entries_taken i ((k, v) ∷ xs) c (k_ok, (v_ok, rest)) = ground (
    arith,
    key_taken (c_string k) max_key_length "key" c k_ok.0 k_ok.1,
    value_taken v (too_long_at i max_value_length) (is_null_at i) c v_ok,
    entries_taken (i + 1) xs c rest,
  )

  entries_fit :
      (i : ℕ) (xs : Assoc Bytes Bytes) (c : CSide S) (ys : List (Bytes × Value))
      → (batch_items i (map to_item xs) c).0 ≡ ok ys
      → AreEntries xs
  unfolding batch_items to_item
  entries_fit i [] c ys h = tt
  entries_fit i ((k, v) ∷ xs) c ys h =
      let key = validate_c_string (c_string k) max_key_length "key" c in
      let (text, got_key, with_key) = continue-ok key _ ys h in
      let value =
        value_from_raw (value_ptr v) (length v) (too_long_at i max_value_length) (is_null_at i)
          key.1 in
      let (w, got_value, with_value) = continue-ok value _ ys with_key in
      let (zs, got_rest, _) =
        continue-ok (batch_items (i + 1) (map to_item xs) value.1) _ ys with_value in
      (
        key_fits (c_string k) text max_key_length "key" c got_key,
        (
          value_fits v w (too_long_at i max_value_length) (is_null_at i) key.1 got_value,
          entries_fit (i + 1) xs value.1 zs got_rest,
        ),
      )

  abbrev Refused : {A : Type 0} → CSide S → Outcome F4KvsError A × CSide S → Type 0
  Refused c r = (r.0 ≡ err error_invalid_argument) × (r.1.handle ≡ c.handle)

  Collected-cases :
      {A : Type 0} (want : A) (c : CSide S) (r : Outcome F4KvsError A × CSide S)
      → Collected want c r
      → (r.0 ≡ ok want) ⊎ Refused c r
  Collected-cases want c (ok a, c') (same, _) = inl (ap ok same)
  Collected-cases want c (err e, c') (code, kept) = inr (ap err code, kept)
  Collected-cases want c (panic, c') never = absurd never

  -- The loop over the entries takes them all, or it refuses one.
  entries_or :
      (xs : Assoc Bytes Bytes) (c : CSide S)
      → AreEntries xs ⊎ Refused c (batch_items 0 (map to_item xs) c)
  entries_or xs c =
      elim (Collected-cases (map to_pair xs) c (batch_items 0 (map to_item xs) c)
        (batch_items-Collected 0 xs c)) [
          | inl taken ↦ inl (entries_fit 0 xs c (map to_pair xs) taken)
          | inr refused ↦ inr refused
        ]

module _ {S : Type 0} ⦃lsm : Lsm S⦄ where
  abbrev pub Fits : Assoc Bytes Bytes → S → Type 0
  Fits xs s = (length xs ≤ lsm.max_batch_size s) × AreEntries xs

  call_or :
      (x : Bytes × Bytes) (xs : Assoc Bytes Bytes) (s : S) (m : Option Message)
      → Fits (x ∷ xs) s
        ⊎ Refused (c_state s m) (engine_batch_put_bytes (map to_item (x ∷ xs)) (c_state s m))
  unfolding engine_batch_put_bytes
  call_or x xs s m = elim (Bool-cases (ltb (lsm.max_batch_size s) (length (x ∷ xs)))) [
    | inl over ↦ inr (ground (arith, over, length-map xs to_item))
    | inr within ↦ elim (entries_or (x ∷ xs) (c_state s m)) [
      | inl all ↦ inl (ground (arith, within), all)
      | inr refused ↦ inr (ground (arith, within, refused, length-map xs to_item))
    ]
  ]

  -- What the Go call answers where the arguments fit.
  batch_put_bytes-fitting :
      (x : Bytes × Bytes) (xs : Assoc Bytes Bytes) (s : S) (m : Option Message)
      → Fits (x ∷ xs) s
      → ((batch_put_bytes (x ∷ xs) (engine false (some s) m)).0 ≡ ok tt)
        ↔ ((lsm.batch_put (map to_pair (x ∷ xs)) s).0 ≡ ok tt)
  unfolding batch_put_bytes
  batch_put_bytes-fitting x xs s m (within, all) =
      let taken = entries_taken 0 (x ∷ xs) (c_state s m) all in
      (
        λ h. ground (arith, taken, within, length-map xs to_item),
        λ h. ground (arith, taken, within, length-map xs to_item),
      )

  Refused-batch_put_bytes :
      (x : Bytes × Bytes) (xs : Assoc Bytes Bytes) (s : S) (m : Option Message)
      → Refused (c_state s m) (engine_batch_put_bytes (map to_item (x ∷ xs)) (c_state s m))
      → (batch_put_bytes (x ∷ xs) (engine false (some s) m)).0 ≡ ok tt
      → ⊥
  unfolding batch_put_bytes
  Refused-batch_put_bytes x xs s m refused h = ground (arith, refused, h)

  -- On an open engine a batch succeeds exactly when it has at most as many entries as the engine's
  -- limit, C reads each key as valid UTF-8 of at most 1 MiB, each value has at most 100 MiB, and the
  -- engine's own batch succeeds. Either the entries are such and within the limit, or the C function
  -- answers that an argument is invalid and leaves the engine alone. The batch is not empty.
  pub batch_put_bytes-accepts :
      (x : Bytes × Bytes) (xs : Assoc Bytes Bytes) (s : S) (m : Option Message)
      → (((batch_put_bytes (x ∷ xs) (engine false (some s) m)).0 ≡ ok tt) ↔ (
          (length (x ∷ xs) ≤ lsm.max_batch_size s)
          × AreEntries (x ∷ xs)
          × ((lsm.batch_put (map to_pair (x ∷ xs)) s).0 ≡ ok tt)))
        × (((length (x ∷ xs) ≤ lsm.max_batch_size s) × AreEntries (x ∷ xs))
            ⊎ (((engine_batch_put_bytes (map to_item (x ∷ xs)) (c_state s m)).0
                  ≡ err error_invalid_argument)
                × ((engine_batch_put_bytes (map to_item (x ∷ xs)) (c_state s m)).1.handle
                    ≡ some s)))
  batch_put_bytes-accepts x xs s m = (
    (
      λ h. elim (call_or x xs s m) [
        | inl (within, all) ↦ (within, all, (batch_put_bytes-fitting x xs s m (within, all)).0 h)
        | inr refused ↦ absurd (Refused-batch_put_bytes x xs s m refused h)
      ],
      λ (within, all, put). (batch_put_bytes-fitting x xs s m (within, all)).1 put,
    ),
    call_or x xs s m,
  )
