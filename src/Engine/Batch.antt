-- ===== src/Engine/Batch.antt =====
-- `BatchPutBytes` and `BatchDelete`: what reaches the engine, and what is stored afterwards.
use mathlib.Core.Path.{fun_ext}
use f4kvs_ffi.Prelude.{
  ℕ, ◌+◌, Bytes, String, Bool, true, false, Option, none, some, List, [], ◌∷◌, ◌≡◌, refl, ap, ◌∙◌,
  ◌⊎◌, inl, ◌==◌, bytes_eq, if◌then◌else◌, length, take_all, Assoc, Distinct, lookup, contains, All,
  map, arith,
}
use f4kvs_ffi.Prelude.Exec.{Outcome, ok, err, panic}
use f4kvs_ffi.Ffi.Text.{c_string, from_ptr, has_nul, from_ptr-c_string}
use f4kvs_ffi.Ffi.Lsm.{Lsm, LsmLaws, Value, bytes, View, put_all, delete_all}
use f4kvs_ffi.Ffi.Calls.{
  F4KvsError, error_invalid_argument, Message, CSide, value_to_bytes, batch_items, batch_keys,
  validate_c_string, value_from_raw, max_key_length, max_value_length, too_long_at, is_null_at,
}
use f4kvs_ffi.Engine.{F4kvs, batch_put_bytes, batch_delete, value_ptr, to_item}
use f4kvs_ffi.Engine.Stored.{c_key, bytes_of, stored, engine}

-- The pair that the engine is to store for an entry.
abbrev pub to_pair : Bytes × Bytes → Bytes × Value
to_pair (key, value) = (c_key key, bytes value)

module _ {S A : Type 0} where
  -- A loop over the arguments gives all of them, or refuses one; the engine is not touched.
  abbrev pub Collected : A → CSide S → Outcome F4KvsError A × CSide S → Type 0
  Collected want c (ok a, c') = (a ≡ want) × (c' ≡ c)
  Collected want c (err code, c') = (code ≡ error_invalid_argument) × (c'.handle ≡ c.handle)
  Collected want c (panic, c') = ⊥

module _ {S : Type 0} where
  pub validate_c_string-Collected :
      (ptr : Bytes) (n : ℕ) (field : String) (c : CSide S)
      → Collected (from_ptr ptr) c (validate_c_string ptr n field c)
  unfolding validate_c_string
  validate_c_string-Collected ptr n field c = ground arith

  pub value_from_raw-Collected :
      (v : Bytes) (long missing : Message) (c : CSide S)
      → Collected v c (value_from_raw (value_ptr v) (length v) long missing c)
  unfolding value_from_raw value_ptr
  value_from_raw-Collected [] long missing c = (refl, refl)
  value_from_raw-Collected (b ∷ v) long missing c = ground (arith, take_all (length v) v)

  pub batch_items-Collected :
      (i : ℕ) (xs : Assoc Bytes Bytes) (c : CSide S)
      → Collected (map to_pair xs) c (batch_items i (map to_item xs) c)
  unfolding batch_items to_item
  batch_items-Collected i [] c = (refl, refl)
  batch_items-Collected i ((k, v) ∷ xs) c = ground (
    arith,
    validate_c_string-Collected (c_string k) max_key_length "key" c,
    value_from_raw-Collected v (too_long_at i max_value_length) (is_null_at i) c,
    batch_items-Collected (i + 1) xs c,
  )

  batch_keys-Collected :
      (ks : List Bytes) (c : CSide S) → Collected (map c_key ks) c (batch_keys (map c_string ks) c)
  unfolding batch_keys
  batch_keys-Collected [] c = (refl, refl)
  batch_keys-Collected (k ∷ ks) c = ground (
    arith,
    validate_c_string-Collected (c_string k) max_key_length "key" c,
    batch_keys-Collected ks c,
  )

abbrev pub c_state : {S : Type 0} → S → Option Message → CSide S
c_state s m = record { handle = some s; last_error = m }

-- What is stored after the entries have been stored in the order of the loop: where C reads two
-- keys as one, the later entry wins.
abbrev pub after_puts : Assoc Bytes Bytes → (Bytes → Option Bytes) → Bytes → Option Bytes
after_puts [] old j = old j
after_puts ((k, v) ∷ xs) old j = after_puts xs (λ i. if c_key k == c_key i then some v else old i) j

abbrev pub after_deletes : List Bytes → (Bytes → Option Bytes) → Bytes → Option Bytes
after_deletes [] old j = old j
after_deletes (k ∷ ks) old j = after_deletes ks (λ i. if c_key k == c_key i then none else old i) j

bytes_of-put_all :
    (xs : Assoc Bytes Bytes) (w : View) (j : Bytes)
    → bytes_of (put_all (map to_pair xs) w (c_key j))
      ≡ after_puts xs (λ i. bytes_of (w (c_key i))) j
unfolding value_to_bytes
bytes_of-put_all [] w j = refl
bytes_of-put_all ((k, v) ∷ xs) w j =
    bytes_of-put_all xs (λ i. if c_key k == i then some (bytes v) else w i) j
    ∙ ap (λ (f : Bytes → Option Bytes). after_puts xs f j) (fun_ext λ i. ground arith)

bytes_of-delete_all :
    (ks : List Bytes) (w : View) (j : Bytes)
    → bytes_of (delete_all (map c_key ks) w (c_key j))
      ≡ after_deletes ks (λ i. bytes_of (w (c_key i))) j
bytes_of-delete_all [] w j = refl
bytes_of-delete_all (k ∷ ks) w j =
    bytes_of-delete_all ks (λ i. if c_key k == i then none else w i) j
    ∙ ap (λ (f : Bytes → Option Bytes). after_deletes ks f j) (fun_ext λ i. ground arith)

-- Every key is a text without a NUL.
abbrev pub KeysClean : {V : Type 0} → Assoc Bytes V → Type 0
KeysClean [] = Unit
KeysClean ((k, v) ∷ xs) = (has_nul k ≡ false) × KeysClean xs

abbrev pub or_else : Option Bytes → Option Bytes → Option Bytes
or_else none o = o
or_else (some v) o = some v

-- Where C can tell the keys apart, the order of the loop does not matter.
after_puts-lookup :
    (xs : Assoc Bytes Bytes) (old : Bytes → Option Bytes) (j : Bytes)
    → KeysClean xs
    → Distinct xs
    → has_nul j ≡ false
    → after_puts xs old j ≡ or_else (lookup j xs) (old j)
after_puts-lookup [] old j h d n = refl
after_puts-lookup ((k, v) ∷ xs) old j h d n = ground (
  arith,
  after_puts-lookup xs (λ i. if c_key k == c_key i then some v else old i) j h.1 d.1 n,
  from_ptr-c_string k h.0,
  from_ptr-c_string j n,
  bytes_eq.beq_iff k j,
)

after_deletes-contains :
    (ks : List Bytes) (old : Bytes → Option Bytes) (j : Bytes)
    → All (λ k. has_nul k ≡ false) ks
    → has_nul j ≡ false
    → after_deletes ks old j ≡ (if contains ks j then none else old j)
after_deletes-contains [] old j h n = refl
after_deletes-contains (k ∷ ks) old j h n = ground (
  arith,
  after_deletes-contains ks (λ i. if c_key k == c_key i then none else old i) j h.1 n,
  from_ptr-c_string k h.0,
  from_ptr-c_string j n,
)

module _ {S : Type 0} ⦃lsm : Lsm S⦄ where
  -- What a batch did to the engine: nothing, or the whole write with every entry.
  abbrev pub AllOrNothing : (S → S) → Option S → Option S → Type 0
  AllOrNothing write before after =
      (after ≡ before) ⊎ ((s : S) × (before ≡ some s) × (after ≡ some (write s)))

  batch_put_bytes-AllOrNothing_at :
      (xs : Assoc Bytes Bytes) (c : Bool) (h : Option S) (m : Option Message)
      → AllOrNothing
          (λ s. (lsm.batch_put (map to_pair xs) s).1)
          h
          (batch_put_bytes xs (engine c h m)).1.handle
  unfolding batch_put_bytes
  batch_put_bytes-AllOrNothing_at [] c h m = inl refl
  batch_put_bytes-AllOrNothing_at (x ∷ xs) true h m = inl refl
  batch_put_bytes-AllOrNothing_at (x ∷ xs) false none m = inl refl
  batch_put_bytes-AllOrNothing_at (x ∷ xs) false (some s) m =
      ground (arith, batch_items-Collected 0 (x ∷ xs) (c_state s m))

  pub batch_put_bytes-stored_at :
      (laws : LsmLaws S lsm) (xs : Assoc Bytes Bytes) (j : Bytes) (c : Bool) (h : Option S)
      (m : Option Message)
      → (batch_put_bytes xs (engine c h m)).0 ≡ ok tt
      → stored laws (batch_put_bytes xs (engine c h m)).1 j
        ≡ after_puts xs (stored laws (engine c h m)) j
  unfolding batch_put_bytes
  batch_put_bytes-stored_at laws [] j c h m p = refl
  batch_put_bytes-stored_at laws (x ∷ xs) j true h m p = cc
  batch_put_bytes-stored_at laws (x ∷ xs) j false none m p = cc
  batch_put_bytes-stored_at laws (x ∷ xs) j false (some s) m p = ground (
    arith,
    batch_items-Collected 0 (x ∷ xs) (c_state s m),
    laws.batch_put_view (map to_pair (x ∷ xs)) (c_key j) s,
    bytes_of-put_all (x ∷ xs) (laws.view s) j,
  )

  pub batch_delete-stored_at :
      (laws : LsmLaws S lsm) (ks : List Bytes) (j : Bytes) (c : Bool) (h : Option S)
      (m : Option Message)
      → (batch_delete ks (engine c h m)).0 ≡ ok tt
      → stored laws (batch_delete ks (engine c h m)).1 j
        ≡ after_deletes ks (stored laws (engine c h m)) j
  unfolding batch_delete
  batch_delete-stored_at laws [] j c h m p = refl
  batch_delete-stored_at laws (k ∷ ks) j true h m p = cc
  batch_delete-stored_at laws (k ∷ ks) j false none m p = cc
  batch_delete-stored_at laws (k ∷ ks) j false (some s) m p = ground (
    arith,
    batch_keys-Collected (k ∷ ks) (c_state s m),
    laws.batch_delete_view (map c_key (k ∷ ks)) (c_key j) s,
    bytes_of-delete_all (k ∷ ks) (laws.view s) j,
  )

  -- A batch reaches the engine whole, as one write of every entry of the map, or not at all:
  -- a key or a value that is refused keeps the others out too.
  pub batch_put_bytes-AllOrNothing :
      (xs : Assoc Bytes Bytes) (e : F4kvs S)
      → AllOrNothing
          (λ s. (lsm.batch_put (map to_pair xs) s).1)
          e.handle
          (batch_put_bytes xs e).1.handle
  batch_put_bytes-AllOrNothing xs e =
      batch_put_bytes-AllOrNothing_at xs e.closed e.handle e.last_error

  -- After a successful `BatchPutBytes` of a map whose keys hold no NUL, each key of the map has
  -- its value, and every other key without a NUL what it had, in whatever order the map was walked.
  pub batch_put_bytes-stored :
      (laws : LsmLaws S lsm) (xs : Assoc Bytes Bytes) (j : Bytes) (e : F4kvs S)
      → KeysClean xs
      → Distinct xs
      → has_nul j ≡ false
      → (batch_put_bytes xs e).0 ≡ ok tt
      → stored laws (batch_put_bytes xs e).1 j ≡ or_else (lookup j xs) (stored laws e j)
  batch_put_bytes-stored laws xs j e clean distinct n p =
      batch_put_bytes-stored_at laws xs j e.closed e.handle e.last_error p
      ∙ after_puts-lookup xs (stored laws e) j clean distinct n

  -- After a successful `BatchDelete` of keys without a NUL, those keys are gone, and every other
  -- key without a NUL has what it had.
  pub batch_delete-stored :
      (laws : LsmLaws S lsm) (ks : List Bytes) (j : Bytes) (e : F4kvs S)
      → All (λ k. has_nul k ≡ false) ks
      → has_nul j ≡ false
      → (batch_delete ks e).0 ≡ ok tt
      → stored laws (batch_delete ks e).1 j ≡ (if contains ks j then none else stored laws e j)
  batch_delete-stored laws ks j e clean n p =
      batch_delete-stored_at laws ks j e.closed e.handle e.last_error p
      ∙ after_deletes-contains ks (stored laws e) j clean n
