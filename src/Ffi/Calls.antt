-- ===== src/Ffi/Calls.antt =====
-- The functions of crates/f4kvs-ffi/src/lib.rs that go/f4kvs.go calls. A function that fails
-- leaves a message for `f4kvs_get_last_error`; `Success` is `ok` with what the out pointers get.
use f4kvs_ffi.Prelude.{
  ℕ, ◌+◌, ◌*◌, Bytes, String, Bool, true, false, Option, none, some, List, [], ◌∷◌, ltb,
  if◌then◌else◌, length, take, ◌&&◌, ◌==◌, nat_eq, not,
}
use f4kvs_ffi.Prelude.Exec.{Exec, ok, err, panic, pure, raise, ◌>>=◌, ◌>>◌}
use f4kvs_ffi.Ffi.Text.{c_string, from_ptr, has_nul, is_utf8}
use f4kvs_ffi.Ffi.Lsm.{Lsm, Value, bytes, string, json, int64, uint64, float64, bool, null}

abbrev pub max_key_length : ℕ
max_key_length = 1 * 1024 * 1024

abbrev pub max_value_length : ℕ
max_value_length = 100 * 1024 * 1024

-- `F4KvsResult` without `Success`
pub data F4KvsError : Type 0 where
  error_invalid_argument error_not_found error_storage : F4KvsError
  error_network error_timeout error_unknown : F4KvsError

-- The message formats, with their arguments.
pub data Message : Type 0 where
  is_null : String → Message
  is_null_at : ℕ → Message
  too_long : String → ℕ → Message
  too_long_at : ℕ → ℕ → Message
  invalid_utf8 : String → Message
  is_empty : String → Message
  batch_too_large : ℕ → ℕ → Message
  c_string_failed : Message
  failed : String → Bytes → Message
  open_failed : String → F4KvsError → Message

-- What a C call works on: the engine behind the handle (`none` is the null pointer), and the
-- message slot of the calling thread.
pub record CSide (S : Type 0) : Type 0 where
  pub handle : Option S
  pub last_error : Option Message

abbrev pub Ffi : Type 0 → Type 0 → Type 0
Ffi S A = Exec (CSide S) F4KvsError A

unfoldable pub value_to_bytes : Value → Bytes
value_to_bytes (bytes b) = b
value_to_bytes (string s) = s
value_to_bytes (json j) = j
value_to_bytes (int64 n) = n
value_to_bytes (uint64 n) = n
value_to_bytes (float64 n) = n
value_to_bytes (bool b) = b
value_to_bytes null = []

abbrev is_none : Option Bytes → Bool
is_none none = true
is_none (some _) = false

module _ {S A : Type 0} where
  -- `set_last_error(msg); return code`
  abbrev pub fail : F4KvsError → Message → Ffi S A
  fail code msg c = (err code, record c { last_error = some msg })

module _ {S : Type 0} where
  unfoldable pub validate_engine : Ffi S (Unit {0})
  validate_engine c = elim c.handle [
    | none ↦ fail error_invalid_argument (is_null "engine") c
    | some _ ↦ (ok tt, c)
  ]

  -- The argument is the memory behind a pointer that is not null.
  unfoldable pub validate_c_string : Bytes → ℕ → String → Ffi S Bytes
  validate_c_string ptr max_length field_name =
      let text = from_ptr ptr in
      if ltb max_length (length text)
      then fail error_invalid_argument (too_long field_name max_length)
      else if is_utf8 text
      then pure text
      else fail error_invalid_argument (invalid_utf8 field_name)

  -- `f4kvs_engine_get_bytes` on what the engine found
  unfoldable pub out_bytes : Option Value → Ffi S Bytes
  unfolding value_to_bytes
  out_bytes none = raise error_not_found
  out_bytes (some value) = pure (value_to_bytes value)

  -- `allocate_c_string`: `CString::new` refuses a text with a NUL.
  unfoldable pub allocate_c_string : Bytes → Ffi S Bytes
  allocate_c_string value =
      if has_nul value then fail error_storage c_string_failed else pure (c_string value)

  -- `block_on(engine_ref.engine.…)`, and the `match` on its answer.
  unfoldable pub block_on : {A : Type 0} → String → Exec S Bytes A → Ffi S A
  block_on what op c = elim c.handle [
    | none ↦ (panic, c)
    | some s ↦
        let (r, s') = op s in
        let c' = record c { handle = some s' } in
        elim r [
          | ok a ↦ (ok a, c')
          | err e ↦ fail error_storage (failed what e) c'
          | panic ↦ (panic, c')
        ]
  ]

  -- `engine_ref.engine.…` for a call that is not awaited and cannot fail
  unfoldable pub modify_engine : (S → S) → Ffi S (Unit {0})
  modify_engine op c = elim c.handle [
    | none ↦ (panic, c)
    | some s ↦ (ok tt, record c { handle = some (op s) })
  ]

-- One item of a batch: the memory of its key, its value pointer and its length.
abbrev pub Item : Type 0
Item = Bytes × Option Bytes × ℕ

abbrev pub slice : Option Bytes → ℕ → Bytes
slice none n = []
slice (some p) n = take n p

module _ {S : Type 0} where
  -- The tests on one value pointer and its length; the messages differ by caller.
  unfoldable pub value_from_raw : Option Bytes → ℕ → Message → Message → Ffi S Bytes
  value_from_raw ptr len long missing =
      if ltb max_value_length len
      then fail error_invalid_argument long
      else if ltb 0 len && is_none ptr
      then fail error_invalid_argument missing
      else pure (slice ptr len)

  -- The loop of `f4kvs_engine_batch_put_bytes` from index `i` on.
  unfoldable pub batch_items : ℕ → List Item → Ffi S (List (Bytes × Value))
  batch_items i [] = pure []
  batch_items i ((key_ptr, value_ptr, value_len) ∷ rest) =
      let others = batch_items (i + 1) rest in
      do
        key_str ← validate_c_string key_ptr max_key_length "key"
        v ← value_from_raw value_ptr value_len (too_long_at i max_value_length) (is_null_at i)
        items ← others
        pure ((key_str, bytes v) ∷ items)

  -- The loop of `f4kvs_engine_batch_delete`.
  unfoldable pub batch_keys : List Bytes → Ffi S (List Bytes)
  batch_keys [] = pure []
  batch_keys (key_ptr ∷ rest) =
      let others = batch_keys rest in
      do
        key_str ← validate_c_string key_ptr max_key_length "key"
        keys ← others
        pure (key_str ∷ keys)

  -- The loop of `f4kvs_engine_scan_prefix_keys` over the keys that were found.
  unfoldable pub allocate_keys : List Bytes → Ffi S (List Bytes)
  unfolding allocate_c_string
  allocate_keys [] = pure []
  allocate_keys (key ∷ keys) =
      let others = allocate_keys keys in
      do ptr ← allocate_c_string key; ptrs ← others; pure (ptr ∷ ptrs)

module _ {S : Type 0} ⦃lsm : Lsm S⦄ where
  unfoldable pub reject_batch_count : ℕ → Ffi S (Unit {0})
  reject_batch_count count c = elim c.handle [
    | none ↦ (panic, c)
    | some s ↦
        if ltb (lsm.max_batch_size s) count
        then fail error_invalid_argument (batch_too_large count (lsm.max_batch_size s)) c
        else (ok tt, c)
  ]

  unfoldable pub engine_get_bytes : Bytes → Ffi S Bytes
  unfolding validate_engine validate_c_string block_on out_bytes
  engine_get_bytes key = do
    validate_engine
    key_str ← validate_c_string key max_key_length "key"
    found ← block_on "Get bytes" (lsm.get key_str)
    out_bytes found

  unfoldable pub engine_put_bytes : Bytes → Option Bytes → ℕ → Ffi S (Unit {0})
  unfolding validate_engine validate_c_string block_on value_from_raw
  engine_put_bytes key value value_len = do
    validate_engine
    key_str ← validate_c_string key max_key_length "key"
    v ← value_from_raw value value_len (too_long "value" max_value_length) (is_null "value")
    block_on "Put bytes" (lsm.put key_str (bytes v))

  unfoldable pub engine_delete : Bytes → Ffi S (Unit {0})
  unfolding validate_engine validate_c_string block_on
  engine_delete key = do
    validate_engine
    key_str ← validate_c_string key max_key_length "key"
    block_on "Delete" (lsm.delete key_str)

  unfoldable pub engine_batch_put_bytes : List Item → Ffi S (Unit {0})
  unfolding validate_engine reject_batch_count block_on
  engine_batch_put_bytes items = do
    validate_engine
    reject_batch_count (length items)
    pairs ← batch_items 0 items
    block_on "Batch put bytes" (lsm.batch_put pairs)

  unfoldable pub engine_batch_delete : List Bytes → Ffi S (Unit {0})
  unfolding validate_engine reject_batch_count block_on
  engine_batch_delete keys = do
    validate_engine
    reject_batch_count (length keys)
    key_strings ← batch_keys keys
    block_on "Batch delete" (lsm.batch_delete key_strings)

  unfoldable pub engine_scan_prefix_keys : Bytes → Ffi S (List Bytes)
  unfolding validate_engine validate_c_string block_on allocate_keys
  engine_scan_prefix_keys prefix = do
    validate_engine
    prefix_str ← validate_c_string prefix max_key_length "prefix"
    keys ← block_on "Scan prefix keys" (lsm.scan_prefix prefix_str)
    allocate_keys keys

  unfoldable pub engine_set_bulk_import : ℕ → Ffi S (Unit {0})
  unfolding validate_engine modify_engine
  engine_set_bulk_import enabled = do
    validate_engine
    modify_engine (lsm.set_bulk_import (not (enabled == 0)))

  unfoldable pub engine_flush : Ffi S (Unit {0})
  unfolding validate_engine block_on
  engine_flush = do validate_engine; block_on "Flush" lsm.flush

  unfoldable pub engine_flush_wal : Ffi S (Unit {0})
  unfolding validate_engine block_on
  engine_flush_wal = do validate_engine; block_on "Flush WAL" lsm.flush_wal

  unfoldable pub engine_compact : Ffi S (Unit {0})
  unfolding validate_engine block_on
  engine_compact = do validate_engine; block_on "Compact" lsm.compact

  unfoldable pub engine_close : Ffi S (Unit {0})
  unfolding validate_engine block_on
  engine_close = do validate_engine; block_on "Close" lsm.shutdown
