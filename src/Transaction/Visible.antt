-- ===== src/Transaction/Visible.antt =====
-- What a transaction shows to its reader, and that `Commit` stores exactly that.
use f4kvs_ffi.Prelude.{
  Bytes, true, false, Option, none, some, List, [], ◌∷◌, ◌≡◌, refl, ◌==◌, if◌then◌else◌, bytes_eq,
  Assoc, Distinct, lookup, lookup-insert, length, ltb-suc, arith,
}
use f4kvs_ffi.Prelude.Exec.{ok}
use f4kvs_ffi.Ffi.Text.{has_nul}
use f4kvs_ffi.Ffi.Lsm.{Lsm, LsmLaws}
use f4kvs_ffi.Engine.{batch_put_bytes, batch_delete, commit_batch_put, commit_batch_delete}
use f4kvs_ffi.Engine.Stored.{stored, Fits, Reads, get_bytes-Reads}
use f4kvs_ffi.Engine.Batch.{KeysClean, batch_put_bytes-stored, batch_delete-stored}
use f4kvs_ffi.Transaction.{
  TxnOp, TxnOpKind, op_put, op_delete, Transaction, entries, on_engine, split_ops, put_bytes,
  delete, get_bytes, commit, commit_puts, commit_deletes,
}
use f4kvs_ffi.Transaction.Split.{
  lookup-split_ops, contains-split_ops, split_ops-Distinct, split_ops-Clean,
}

abbrev pub shown : TxnOpKind → Bytes → Option Bytes
shown op_put value = some value
shown op_delete value = none

-- A staged operation hides what the engine holds.
abbrev pub overlay : Option TxnOp → Option Bytes → Option Bytes
overlay none old = old
overlay (some op) old = shown op.kind op.value

module _ {S : Type 0} {lsm : Lsm S} (laws : LsmLaws S lsm) where
  abbrev pub visible : Transaction S → Bytes → Option Bytes
  visible t j = overlay (lookup j (entries t.ops)) (stored laws t.engine j)

abbrev pub IsActive : {S : Type 0} → Transaction S → Type 0
IsActive t = (t.committed ≡ false) × (t.rolled_back ≡ false)

module _ {S : Type 0} ⦃lsm : Lsm S⦄ where
  -- The tests on `len` in `Commit` skip only batches that do nothing.
  pub commit_puts-eq :
      (puts : Assoc Bytes Bytes) (t : Transaction S)
      → commit_puts puts t ≡ on_engine commit_batch_put (batch_put_bytes puts) t
  unfolding commit_puts batch_put_bytes
  commit_puts-eq [] t = refl
  commit_puts-eq (x ∷ xs) t = rw (ltb-suc (length xs))

  pub commit_deletes-eq :
      (ks : List Bytes) (t : Transaction S)
      → commit_deletes ks t ≡ on_engine commit_batch_delete (batch_delete ks) t
  unfolding commit_deletes batch_delete
  commit_deletes-eq [] t = refl
  commit_deletes-eq (k ∷ ks) t = rw (ltb-suc (length ks))

module _ {S : Type 0} ⦃lsm : Lsm S⦄ (laws : LsmLaws S lsm) where
  -- A read in an active transaction tells what is visible (a value, or `ErrNotFound` where there is
  -- none) or fails with another error. What the engine holds there is shorter than 2^31 bytes.
  pub get_bytes-visible :
      (key : Bytes) (t : Transaction S)
      → IsActive t
      → Fits (stored laws t.engine key)
      → Reads (visible laws t key) (get_bytes key t).0
  unfolding get_bytes
  get_bytes-visible key t a f = ground (arith, get_bytes-Reads laws key t.engine f)

  -- In an active transaction a staged put is visible under its key at once, other keys are as
  -- before, and the engine is not touched.
  pub put_bytes-visible :
      (key value j : Bytes) (t : Transaction S)
      → IsActive t
      → (visible laws (put_bytes key value t).1 j
          ≡ (if key == j then some value else visible laws t j))
        × ((put_bytes key value t).1.engine ≡ t.engine)
  unfolding put_bytes
  put_bytes-visible key value j t a =
      ground (arith, lookup-insert key j (record { kind = op_put; value = value }) (entries t.ops))

  -- In an active transaction, after a staged delete, nothing is visible under its key, other keys
  -- are as before, and the engine is not touched.
  pub delete-visible :
      (key j : Bytes) (t : Transaction S)
      → IsActive t
      → (visible laws (delete key t).1 j ≡ (if key == j then none else visible laws t j))
        × ((delete key t).1.engine ≡ t.engine)
  unfolding delete
  delete-visible key j t a =
      ground (arith, lookup-insert key j (record { kind = op_delete; value = [] }) (entries t.ops))

  -- The two calls of a commit that went through.
  record Committed (puts : Assoc Bytes Bytes) (ks : List Bytes) (t t' : Transaction S)
      : Type 0 where
    put_ok : (batch_put_bytes puts t.engine).0 ≡ ok tt
    delete_ok : (batch_delete ks (batch_put_bytes puts t.engine).1).0 ≡ ok tt
    engine_eq : t'.engine ≡ (batch_delete ks (batch_put_bytes puts t.engine).1).1
    done : (t'.committed ≡ true) × (t'.ops ≡ none)

  commit-Committed :
      (t : Transaction S)
      → (commit t).0 ≡ ok tt
      → Committed
          (split_ops (entries t.ops) [] []).0
          (split_ops (entries t.ops) [] []).1
          t
          (commit t).1
  unfolding commit
  commit-Committed t h =
      let puts = (split_ops (entries t.ops) [] []).0 in
      let ks = (split_ops (entries t.ops) [] []).1 in
      ground (
        arith,
        commit_puts-eq puts t,
        commit_deletes-eq ks (record t { engine = (batch_put_bytes puts t.engine).1 }),
      )

  -- After a commit that succeeds the engine holds under every key what the transaction showed
  -- there before, and the transaction is committed with nothing staged. Keys are without a NUL.
  pub commit-stored :
      (t : Transaction S) (j : Bytes)
      → KeysClean (entries t.ops)
      → Distinct (entries t.ops)
      → has_nul j ≡ false
      → (commit t).0 ≡ ok tt
      → (stored laws (commit t).1.engine j ≡ visible laws t j)
        × ((commit t).1.committed ≡ true)
        × ((commit t).1.ops ≡ none)
  commit-stored t j clean distinct n h =
      let ops = entries t.ops in
      let puts = (split_ops ops [] []).0 in
      let ks = (split_ops ops [] []).1 in
      let e = (batch_put_bytes puts t.engine).1 in
      let w = commit-Committed t h in
      let both = split_ops-Clean ops [] [] clean (tt, tt) in
      let put =
        batch_put_bytes-stored laws puts j t.engine both.0 (split_ops-Distinct ops [] [] tt) n
          w.put_ok in
      let del = batch_delete-stored laws ks j e both.1 n w.delete_ok in
      ground (
        arith,
        w,
        put,
        del,
        lookup-split_ops ops [] [] j distinct,
        contains-split_ops ops [] [] j distinct,
      )
