-- ===== src/Transaction.antt =====
-- go/transaction.go: writes staged in memory until `Commit`.
pub mod Split
pub mod Visible
pub mod Lifecycle
mod Tests
use f4kvs_ffi.Prelude.{
  Bytes, Bool, true, false, Option, none, some, List, [], ◌∷◌, ◌++◌, if◌then◌else◌, ltb, length,
  bytes_eq, Assoc, lookup, insert,
}
use f4kvs_ffi.Prelude.Exec.{Exec, ok, err, panic, pure, raise, ◌>>=◌, ◌>>◌}
use f4kvs_ffi.Ffi.Lsm.{Lsm}
use f4kvs_ffi.Engine
use f4kvs_ffi.Engine.{
  F4kvs, Go, GoError, err_not_found, err_txn_committed, err_txn_rolled_back, commit_batch_put,
  commit_batch_delete, batch_put_bytes, batch_delete,
}

pub data TxnOpKind : Type 0 where
  op_put op_delete : TxnOpKind

pub record TxnOp : Type 0 where
  pub kind : TxnOpKind
  pub value : Bytes

-- The engine is shared through a pointer; it is part of the state that a call changes. A nil map
-- is `none`.
pub record Transaction (S : Type 0) : Type 0 where
  pub engine : F4kvs S
  pub ops : Option (Assoc Bytes TxnOp)
  pub committed : Bool
  pub rolled_back : Bool

abbrev pub Txn : Type 0 → Type 0 → Type 0
Txn S A = Exec (Transaction S) GoError A

-- `F4KVS.BeginTransaction`
unfoldable pub begin_transaction : {S : Type 0} → F4kvs S → Transaction S
begin_transaction e = record { engine = e; ops = none; committed = false; rolled_back = false }

-- The entries of a map that may be nil.
abbrev pub entries : Option (Assoc Bytes TxnOp) → Assoc Bytes TxnOp
entries none = []
entries (some m) = m

-- The loop of `Commit` that separates the staged operations.
abbrev pub add_put : TxnOpKind → Bytes → Bytes → Assoc Bytes Bytes → Assoc Bytes Bytes
add_put op_put key value puts = insert key value puts
add_put op_delete key value puts = puts

abbrev pub add_delete : TxnOpKind → Bytes → List Bytes → List Bytes
add_delete op_put key deletes = deletes
add_delete op_delete key deletes = deletes ++ key ∷ []

unfoldable pub split_ops :
    Assoc Bytes TxnOp → Assoc Bytes Bytes → List Bytes → Assoc Bytes Bytes × List Bytes
split_ops [] puts deletes = (puts, deletes)
split_ops ((key, op) ∷ ops) puts deletes =
    split_ops ops (add_put op.kind key op.value puts) (add_delete op.kind key deletes)

-- A staged operation as a reader of the transaction sees it.
abbrev staged_answer : {S : Type 0} → TxnOpKind → Bytes → Txn S Bytes
staged_answer op_delete value = raise err_not_found
staged_answer op_put value = pure value

module _ {S : Type 0} where
  unfoldable pub check_active : Txn S (Unit {0})
  check_active t =
      if t.committed
      then (err err_txn_committed, t)
      else if t.rolled_back
      then (err err_txn_rolled_back, t)
      else (ok tt, t)

  -- A call on the engine, whose error may be wrapped.
  abbrev pub on_engine : {A : Type 0} → (GoError → GoError) → Go S A → Txn S A
  on_engine wrap m t =
      let (r, e) = m t.engine in
      (elim r [ ok a ↦ ok a | err x ↦ err (wrap x) | panic ↦ panic ], record t { engine = e })

  unfoldable pub stage : Bytes → TxnOp → Txn S (Unit {0})
  stage key op t = (ok tt, record t { ops = some (insert key op (entries t.ops)) })

  unfoldable pub put_bytes : Bytes → Bytes → Txn S (Unit {0})
  unfolding check_active stage
  put_bytes key value = do check_active; stage key (record { kind = op_put; value = value })

  unfoldable pub delete : Bytes → Txn S (Unit {0})
  unfolding check_active stage
  delete key = do check_active; stage key (record { kind = op_delete; value = [] })

  -- `t.committed = true; t.ops = nil`
  unfoldable pub mark_committed : Txn S (Unit {0})
  mark_committed t = (ok tt, record t { committed = true; ops = none })

  unfoldable pub rollback : Txn S (Unit {0})
  rollback t =
      if t.committed
      then (err err_txn_committed, t)
      else if t.rolled_back
      then (ok tt, t)
      else (ok tt, record t { rolled_back = true; ops = none })

module _ {S : Type 0} ⦃lsm : Lsm S⦄ where
  unfoldable pub read_through : Bytes → Txn S Bytes
  read_through key t = elim (lookup key (entries t.ops)) [
    | none ↦ on_engine (λ x. x) (Engine.get_bytes key) t
    | some op ↦ staged_answer op.kind op.value t
  ]

  unfoldable pub get_bytes : Bytes → Txn S Bytes
  unfolding check_active read_through
  get_bytes key = do check_active; read_through key

  -- `Get` and `Put` convert between `string` and `[]byte`, which have the same bytes.
  unfoldable pub get : Bytes → Txn S Bytes
  unfolding get_bytes
  get key = do value ← get_bytes key; pure value

  unfoldable pub put : Bytes → Bytes → Txn S (Unit {0})
  unfolding put_bytes
  put key value = put_bytes key value

  -- `if len(puts) > 0 { … }`
  unfoldable pub commit_puts : Assoc Bytes Bytes → Txn S (Unit {0})
  commit_puts puts =
      if ltb 0 (length puts) then on_engine commit_batch_put (batch_put_bytes puts) else pure tt

  unfoldable pub commit_deletes : List Bytes → Txn S (Unit {0})
  commit_deletes deletes =
      if ltb 0 (length deletes)
      then on_engine commit_batch_delete (batch_delete deletes)
      else pure tt

  -- The map is walked in the order of its list.
  unfoldable pub commit : Txn S (Unit {0})
  unfolding check_active mark_committed
  commit t =
      let (puts, deletes) = split_ops (entries t.ops) [] [] in
      (do check_active; commit_puts puts; commit_deletes deletes; mark_committed) t
