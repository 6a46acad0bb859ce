-- ===== src/Transaction/Tests.antt =====
-- The transaction's theorems at an engine in memory whose second write fails, and runs.
use f4kvs_ffi.Prelude.{
  Bytes, Bool, true, false, none, some, List, [], ◌∷◌, ◌≡◌, refl, inl, bytes_beq, arith,
}
use f4kvs_ffi.Prelude.Exec.{ok, err}
use f4kvs_ffi.Ffi.Text.{c_string, from_ptr, is_utf8, has_nul}
use f4kvs_ffi.Ffi.Lsm.{bytes}
use f4kvs_ffi.Ffi.Calls.{
  failed, batch_items, batch_keys, value_to_bytes, validate_c_string, value_from_raw,
}
use f4kvs_ffi.Ffi.Memory.{Memory, memory, memory_laws}
use f4kvs_ffi.Engine.{
  F4kvs, GoError, err_txn_committed, message, batch_delete_failed, commit_batch_delete, to_item,
  batch_put_bytes, batch_delete,
}
use f4kvs_ffi.Engine.Stored.{stored, engine, Reads}
use f4kvs_ffi.Transaction.{
  Transaction, op_put, op_delete, begin_transaction, put_bytes, delete, get_bytes, commit,
  split_ops, commit_puts, commit_deletes,
}
use f4kvs_ffi.Transaction.Visible.{IsActive, get_bytes-visible, commit-stored}
use f4kvs_ffi.Transaction.Lifecycle.{
  call_put, call_get, call_rollback, call_commit, invoke, run, FailedIn, finished_is_final,
  commit-failed, run-isolated,
}

abbrev key_a : Bytes
key_a = b'a' ∷ []

abbrev key_b : Bytes
key_b = b'b' ∷ []

abbrev fresh : List Bool → F4kvs Memory
fresh faults =
    engine false
      (some (record { table = (key_a, bytes (1 ∷ [])) ∷ []; faults = faults; limit = 10 })) none

-- `key_b` put and `key_a` deleted, not yet committed
abbrev staged : List Bool → Transaction Memory
staged faults = record {
  engine = fresh faults;
  ops = some (
      (key_b, record { kind = op_put; value = 2 ∷ [] })
      ∷ (key_a, record { kind = op_delete; value = [] })
      ∷ []);
  committed = false;
  rolled_back = false;
}

staged_run :
    (delete key_a (put_bytes key_b (2 ∷ []) (begin_transaction (fresh []))).1).1 ≡ staged []
unfolding put_bytes delete begin_transaction bytes_beq
staged_run = refl

get_bytes-visible_example : Reads none (get_bytes key_a (staged [])).0
unfolding bytes_beq value_to_bytes from_ptr c_string
get_bytes-visible_example =
    get_bytes-visible memory_laws key_a (staged []) (refl, refl) (omega arith)

commit_ok : (commit (staged [])).0 ≡ ok tt
unfolding commit split_ops commit_puts commit_deletes batch_put_bytes batch_delete batch_items
    batch_keys to_item validate_c_string value_from_raw from_ptr c_string is_utf8
commit_ok = refl

commit-stored_example :
    (stored memory_laws (commit (staged [])).1.engine key_a ≡ none)
    × ((commit (staged [])).1.committed ≡ true)
    × ((commit (staged [])).1.ops ≡ none)
unfolding bytes_beq has_nul
commit-stored_example =
    commit-stored memory_laws (staged []) key_a (refl, (refl, tt)) (refl, (refl, tt)) refl commit_ok

-- The put goes through and the delete fails: the commit is half done, and reported as failed.
commit_half_done :
    ((commit (staged (false ∷ true ∷ []))).0
      ≡ err (
          commit_batch_delete
            (batch_delete_failed (message (failed "Batch delete" (b'I' ∷ b'O' ∷ []))))))
    × (stored memory_laws (commit (staged (false ∷ true ∷ []))).1.engine key_b ≡ some (2 ∷ []))
    × (stored memory_laws (commit (staged (false ∷ true ∷ []))).1.engine key_a ≡ some (1 ∷ []))
unfolding commit split_ops commit_puts commit_deletes batch_put_bytes batch_delete batch_items
    batch_keys to_item validate_c_string value_from_raw from_ptr c_string is_utf8 bytes_beq
    value_to_bytes
commit_half_done = (refl, refl, refl)

abbrev faulty : Transaction Memory
faulty = staged (false ∷ true ∷ [])

abbrev fault : GoError
fault = batch_delete_failed (message (failed "Batch delete" (b'I' ∷ b'O' ∷ [])))

commit-failed_example :
    IsActive (commit faulty).1
    × ((commit faulty).1.ops ≡ faulty.ops)
    × FailedIn (commit_batch_delete fault) faulty (commit faulty).1
commit-failed_example =
    commit-failed faulty (commit_batch_delete fault) (refl, refl) commit_half_done.0

abbrev finished : Transaction Memory
finished = record (staged []) { committed = true; ops = none }

finished_is_final_example :
    ((invoke (call_put key_a []) finished).0 ≡ err err_txn_committed)
    × (run (call_put key_a [] ∷ call_commit ∷ call_rollback ∷ []) finished ≡ finished)
finished_is_final_example =
    finished_is_final finished (call_put key_a []) (call_commit ∷ call_rollback ∷ []) (inl refl)

run-isolated_example :
    stored memory_laws
      (run (call_put key_a [] ∷ call_get key_b ∷ call_rollback ∷ []) (staged [])).engine
      key_a
    ≡ stored memory_laws (staged []).engine key_a
run-isolated_example =
    run-isolated memory_laws (call_put key_a [] ∷ call_get key_b ∷ call_rollback ∷ []) (staged [])
      key_a (tt, (tt, (tt, tt)))
