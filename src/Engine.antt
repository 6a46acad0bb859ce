-- ===== src/Engine.antt =====
-- go/f4kvs.go: the methods of `F4KVS`, one thread at a time. The locking is modelled in `Lock`.
pub mod Stored
pub mod Batch
pub mod Scan
pub mod Loops
pub mod Closed
pub mod Limits
pub mod BatchLimits
pub mod Refinement
pub mod Options
pub mod Open
pub mod Asked
pub mod Opened
mod Tests
mod LoopTests
use f4kvs_ffi.Prelude.{
  ◌%◌, ◌^◌, Bytes, Bool, true, false, Option, none, some, List, [], ◌∷◌, ◌||◌, ltb, ◌==◌, nat_eq,
  bytes_eq, if◌then◌else◌, length, take, Assoc, insert, map,
}
use f4kvs_ffi.Prelude.Exec.{Exec, Outcome, ok, err, panic, pure, raise, panicking, ◌>>=◌, ◌>>◌}
use f4kvs_ffi.Ffi.Text.{c_string, from_ptr}
use f4kvs_ffi.Ffi.Lsm.{Lsm}
use f4kvs_ffi.Ffi.Calls.{
  F4KvsError, error_not_found, Message, CSide, Ffi, Item, engine_get_bytes, engine_put_bytes,
  engine_delete, engine_batch_put_bytes, engine_batch_delete, engine_scan_prefix_keys,
  engine_set_bulk_import, engine_flush, engine_flush_wal, engine_compact, engine_close,
}

-- What `lastError` returns.
pub data ErrorText : Type 0 where
  unknown_error : ErrorText
  message : Message → ErrorText

-- The sentinel errors of go/errors.go, and the `fmt.Errorf` formats with their arguments.
pub data GoError : Type 0 where
  err_not_found err_closed err_txn_committed err_txn_rolled_back : GoError
  get_failed put_failed delete_failed : Bytes → ErrorText → GoError
  batch_put_failed batch_delete_failed set_bulk_import_failed : ErrorText → GoError
  flush_failed flush_wal_failed sync_failed : ErrorText → GoError
  commit_batch_put commit_batch_delete : GoError → GoError
  memory_engine_failed : ErrorText → GoError
  open_engine_failed : Bytes → ErrorText → GoError

-- The Go struct, with the C state that its handle leads to.
pub record F4kvs (S : Type 0) : Type 0 where
  pub c_side : CSide S
  pub open c_side use *
  pub closed : Bool

abbrev pub Go : Type 0 → Type 0 → Type 0
Go S A = Exec (F4kvs S) GoError A

module _ {S : Type 0} where
  -- `e.handle == nil`
  abbrev pub handle_is_nil : F4kvs S → Bool
  handle_is_nil e = elim e.handle [ none ↦ true | some _ ↦ false ]

  unfoldable pub r_lock_live : Go S (Unit {0})
  r_lock_live e = if e.closed || handle_is_nil e then (err err_closed, e) else (ok tt, e)

  unfoldable pub last_error : F4kvs S → ErrorText
  last_error e = elim e.last_error [ none ↦ unknown_error | some msg ↦ message msg ]

  -- A C call: its result code, and what it did to the C state.
  abbrev pub cgo : {A : Type 0} → Ffi S A → Go S (Outcome F4KvsError A)
  cgo m e = let (r, c) = m e.c_side in (ok r, record e { c_side = c })

  -- `if res != C.F4KVS_SUCCESS { return fmt.Errorf(…, lastError()) }`
  unfoldable pub check : {A : Type 0} → (ErrorText → GoError) → Outcome F4KvsError A → Go S A
  unfolding last_error
  check describe (ok a) = pure a
  check describe (err code) = λ e. (err (describe (last_error e)), e)
  check describe panic = panicking

  -- `C.GoBytes(out, C.int(outLen))`: the length is cast to a signed 32-bit number, and a negative
  -- one panics.
  unfoldable pub go_bytes : Bytes → Go S Bytes
  go_bytes out =
      let out_len = length out in
      if out_len == 0
      then pure []
      else if ltb (out_len % 2 ^ 32) (2 ^ 31)
      then pure (take (out_len % 2 ^ 32) out)
      else panicking

  -- What `GetBytes` makes of the answer of the C call.
  unfoldable pub get_answer : Bytes → Outcome F4KvsError Bytes → Go S Bytes
  unfolding check
  get_answer key (ok out) = go_bytes out
  get_answer key (err error_not_found) = raise err_not_found
  get_answer key res = check (get_failed key) res

  -- What `Delete` makes of the answer of the C call.
  unfoldable pub delete_answer : Bytes → Outcome F4KvsError (Unit {0}) → Go S (Unit {0})
  unfolding check
  delete_answer key (err error_not_found) = pure tt
  delete_answer key res = check (delete_failed key) res

-- The pointer to the first byte of a slice, `nil` if it is empty.
unfoldable pub value_ptr : Bytes → Option Bytes
value_ptr [] = none
value_ptr (b ∷ bs) = some (b ∷ bs)

-- An entry of the map as it is handed to `f4kvs_engine_batch_put_bytes`.
unfoldable pub to_item : Bytes × Bytes → Item
unfolding value_ptr
to_item (key, value) = (c_string key, value_ptr value, length value)

-- The keys of a scan; `none` is the nil slice, which stands for an error too.
abbrev scan_answer : Outcome F4KvsError (List Bytes) → Option (List Bytes)
scan_answer (ok keys) = some (map from_ptr keys)
scan_answer _ = none

module _ {S : Type 0} ⦃lsm : Lsm S⦄ where
  unfoldable pub get_bytes : Bytes → Go S Bytes
  unfolding r_lock_live engine_get_bytes get_answer
  get_bytes key = do r_lock_live; res ← cgo (engine_get_bytes (c_string key)); get_answer key res

  unfoldable pub put_bytes : Bytes → Bytes → Go S (Unit {0})
  unfolding r_lock_live engine_put_bytes check value_ptr
  put_bytes key value = do
    r_lock_live
    res ← cgo (engine_put_bytes (c_string key) (value_ptr value) (length value))
    check (put_failed key) res

  -- `Get` and `Put` convert between `string` and `[]byte`, which have the same bytes.
  unfoldable pub get : Bytes → Go S Bytes
  unfolding get_bytes
  get key = do value ← get_bytes key; pure value

  unfoldable pub put : Bytes → Bytes → Go S (Unit {0})
  unfolding put_bytes
  put key value = put_bytes key value

  unfoldable pub delete : Bytes → Go S (Unit {0})
  unfolding r_lock_live engine_delete delete_answer
  delete key = do r_lock_live; res ← cgo (engine_delete (c_string key)); delete_answer key res

  -- The first failure ends the loop: what was put before it stays.
  unfoldable pub batch_put : Assoc Bytes Bytes → Go S (Unit {0})
  unfolding put
  batch_put [] = pure tt
  batch_put ((key, value) ∷ items) = let others = batch_put items in put key value >> others

  -- The loop of `BatchGetBytes` and of `BatchGetValues`.
  unfoldable pub collect :
      (Bytes → Go S Bytes) → List Bytes → Assoc Bytes Bytes → Go S (Assoc Bytes Bytes)
  collect read [] result = pure result
  collect read (key ∷ keys) result = do
    value ← read key
    collect read keys (insert key value result)

  unfoldable pub batch_get_values : List Bytes → Go S (Assoc Bytes Bytes)
  unfolding collect get
  batch_get_values keys = collect get keys []

  unfoldable pub batch_get_bytes : List Bytes → Go S (Assoc Bytes Bytes)
  unfolding collect get_bytes
  batch_get_bytes keys = collect get_bytes keys []

  unfoldable pub batch_put_bytes : Assoc Bytes Bytes → Go S (Unit {0})
  unfolding r_lock_live engine_batch_put_bytes check
  batch_put_bytes [] = pure tt
  batch_put_bytes (item ∷ items) = do
    r_lock_live
    res ← cgo (engine_batch_put_bytes (map to_item (item ∷ items)))
    check batch_put_failed res

  unfoldable pub batch_delete : List Bytes → Go S (Unit {0})
  unfolding r_lock_live engine_batch_delete check
  batch_delete [] = pure tt
  batch_delete (key ∷ keys) = do
    r_lock_live
    res ← cgo (engine_batch_delete (map c_string (key ∷ keys)))
    check batch_delete_failed res

  unfoldable pub set_bulk_import : Bool → Go S (Unit {0})
  unfolding r_lock_live engine_set_bulk_import check
  set_bulk_import on = do
    r_lock_live
    res ← cgo (engine_set_bulk_import (if on then 1 else 0))
    check set_bulk_import_failed res

  unfoldable pub flush : Go S (Unit {0})
  unfolding r_lock_live engine_flush check
  flush = do r_lock_live; res ← cgo engine_flush; check flush_failed res

  unfoldable pub flush_wal : Go S (Unit {0})
  unfolding r_lock_live engine_flush_wal check
  flush_wal = do r_lock_live; res ← cgo engine_flush_wal; check flush_wal_failed res

  unfoldable pub sync : Go S (Unit {0})
  unfolding r_lock_live engine_compact check
  sync = do r_lock_live; res ← cgo engine_compact; check sync_failed res

  unfoldable pub scan_prefix_locked : Bytes → F4kvs S → Option (List Bytes) × F4kvs S
  unfolding engine_scan_prefix_keys
  scan_prefix_locked prefix e =
      let (res, c) = engine_scan_prefix_keys (c_string prefix) e.c_side in
      (scan_answer res, record e { c_side = c })

  unfoldable pub scan_prefix_keys : Bytes → F4kvs S → Option (List Bytes) × F4kvs S
  unfolding scan_prefix_locked
  scan_prefix_keys prefix e =
      if e.closed || handle_is_nil e then (none, e) else scan_prefix_locked prefix e

  unfoldable pub get_all_keys : F4kvs S → Option (List Bytes) × F4kvs S
  unfolding scan_prefix_keys
  get_all_keys = scan_prefix_keys []

  -- The result of `f4kvs_engine_close` is dropped; `f4kvs_engine_free` drops the engine's state.
  unfoldable pub close : F4kvs S → F4kvs S
  unfolding engine_close
  close e =
      if handle_is_nil e
      then e
      else (let (_, c) = engine_close e.c_side in
          record { c_side = record c { handle = none }; closed = true })
