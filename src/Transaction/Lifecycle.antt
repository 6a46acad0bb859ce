-- ===== src/Transaction/Lifecycle.antt =====
-- The states of a transaction: active, committed, rolled back.
use f4kvs_ffi.Prelude.{
  Bytes, Bool, true, false, List, [], ◌∷◌, ◌≡◌, refl, sym, ◌⊎◌, inl, inr, ap, ◌∙◌, All, arith,
}
use f4kvs_ffi.Prelude.Exec.{Outcome, ok, err, panic}
use f4kvs_ffi.Ffi.Lsm.{Lsm, LsmLaws}
use f4kvs_ffi.Engine.{
  GoError, err_txn_committed, err_txn_rolled_back, commit_batch_put, commit_batch_delete,
  batch_put_bytes, batch_delete,
}
use f4kvs_ffi.Engine.Stored.{stored, stored-get_bytes}
use f4kvs_ffi.Transaction.{
  Transaction, Txn, entries, split_ops, get, put, get_bytes, put_bytes, delete, commit, rollback,
}
use f4kvs_ffi.Transaction.Visible.{IsActive, commit_puts-eq, commit_deletes-eq}

-- A call of a method of `Transaction`.
pub data Call : Type 0 where
  call_get call_get_bytes call_delete : Bytes → Call
  call_put call_put_bytes : Bytes → Bytes → Call
  call_commit call_rollback : Call

abbrev pub forget : {A E : Type 0} → Outcome E A → Outcome E (Unit {0})
forget (ok a) = ok tt
forget (err e) = err e
forget panic = panic

-- What a finished transaction answers: only a second rollback succeeds.
abbrev pub refusal : Bool → Call → Outcome GoError (Unit {0})
refusal true c = err err_txn_committed
refusal false call_rollback = ok tt
refusal false c = err err_txn_rolled_back

abbrev pub IsFinished : {S : Type 0} → Transaction S → Type 0
IsFinished t = (t.committed ≡ true) ⊎ ((t.committed ≡ false) × (t.rolled_back ≡ true))

-- Where a commit of `t` stopped, when it ended at `t'` with the error `x`.
abbrev pub FailedIn : {S : Type 0} ⦃lsm : Lsm S⦄ → GoError → Transaction S → Transaction S → Type 0
FailedIn (commit_batch_put y) t t' =
    let (puts, ks) = split_ops (entries t.ops) [] [] in
    batch_put_bytes puts t.engine ≡ (err y, t'.engine)
FailedIn (commit_batch_delete y) t t' =
    let (puts, ks) = split_ops (entries t.ops) [] [] in
    ((batch_put_bytes puts t.engine).0 ≡ ok tt)
    × (batch_delete ks (batch_put_bytes puts t.engine).1 ≡ (err y, t'.engine))
FailedIn x t t' = ⊥

module _ {S : Type 0} ⦃lsm : Lsm S⦄ where
  -- The state after a call, and whether it failed.
  abbrev pub invoke : Call → Txn S (Unit {0})
  invoke (call_get k) t = (forget (get k t).0, (get k t).1)
  invoke (call_get_bytes k) t = (forget (get_bytes k t).0, (get_bytes k t).1)
  invoke (call_delete k) t = delete k t
  invoke (call_put k v) t = put k v t
  invoke (call_put_bytes k v) t = put_bytes k v t
  invoke call_commit t = commit t
  invoke call_rollback t = rollback t

  abbrev pub run : List Call → Transaction S → Transaction S
  run [] t = t
  run (c ∷ cs) t = run cs (invoke c t).1

  invoke-committed :
      (c : Call) (t : Transaction S) → t.committed ≡ true → invoke c t ≡ (refusal true c, t)
  unfolding get put get_bytes put_bytes delete commit rollback
  invoke-committed call_rollback t h = rw h
  invoke-committed c t h = rw h

  invoke-rolled_back :
      (c : Call) (t : Transaction S)
      → t.committed ≡ false
      → t.rolled_back ≡ true
      → invoke c t ≡ (refusal false c, t)
  unfolding get put get_bytes put_bytes delete commit rollback
  invoke-rolled_back call_rollback t h r = rw (h, r)
  invoke-rolled_back c t h r = rw (h, r)

  invoke-finished :
      (c : Call) (t : Transaction S) → IsFinished t → invoke c t ≡ (refusal t.committed c, t)
  invoke-finished c t (inl h) = invoke-committed c t h ∙ ap (λ b. (refusal b c, t)) (sym h)
  invoke-finished c t (inr h) =
      invoke-rolled_back c t h.0 h.1 ∙ ap (λ b. (refusal b c, t)) (sym h.0)

  run-finished : (cs : List Call) (t : Transaction S) → IsFinished t → run cs t ≡ t
  run-finished [] t h = refl
  run-finished (d ∷ cs) t h = rw (invoke-finished d t h) (run-finished cs t h)

  -- Once a transaction is committed or rolled back, every call is refused with the error of that
  -- state (but `Rollback` after `Rollback` succeeds), and no sequence of calls changes the
  -- transaction or its engine.
  pub finished_is_final :
      (t : Transaction S) (c : Call) (cs : List Call)
      → IsFinished t
      → ((invoke c t).0 ≡ refusal t.committed c) × (run (c ∷ cs) t ≡ t)
  finished_is_final t c cs h = (
    ap (λ (p : Outcome GoError (Unit {0}) × Transaction S). p.0) (invoke-finished c t h),
    run-finished (c ∷ cs) t h,
  )

  -- A commit that fails leaves the transaction active with everything still staged, so that it
  -- can be tried again; the error tells which of the two batches failed, and the second one was
  -- not begun when the first failed.
  pub commit-failed :
      (t : Transaction S) (x : GoError)
      → IsActive t
      → (commit t).0 ≡ err x
      → IsActive (commit t).1 × ((commit t).1.ops ≡ t.ops) × FailedIn x t (commit t).1
  unfolding commit
  commit-failed t x a h =
      let puts = (split_ops (entries t.ops) [] []).0 in
      let ks = (split_ops (entries t.ops) [] []).1 in
      ground (
        arith,
        commit_puts-eq puts t,
        commit_deletes-eq ks (record t { engine = (batch_put_bytes puts t.engine).1 }),
      )

-- Calls that only stage, read or drop.
abbrev pub IsStaging : Call → Type 0
IsStaging call_commit = ⊥
IsStaging c = Unit

module _ {S : Type 0} ⦃lsm : Lsm S⦄ (laws : LsmLaws S lsm) where
  invoke-isolated :
      (c : Call) (t : Transaction S) (j : Bytes)
      → IsStaging c
      → stored laws (invoke c t).1.engine j ≡ stored laws t.engine j
  unfolding get put get_bytes put_bytes delete rollback
  invoke-isolated (call_get k) t j h = ground (arith, stored-get_bytes laws k j t.engine)
  invoke-isolated (call_get_bytes k) t j h = ground (arith, stored-get_bytes laws k j t.engine)
  invoke-isolated call_commit t j h = absurd h
  invoke-isolated c t j h = ground arith

  -- Until `Commit` is called, nothing that is done in a transaction changes what the engine holds.
  pub run-isolated :
      (cs : List Call) (t : Transaction S) (j : Bytes)
      → All IsStaging cs
      → stored laws (run cs t).engine j ≡ stored laws t.engine j
  run-isolated [] t j h = refl
  run-isolated (c ∷ cs) t j h = run-isolated cs (invoke c t).1 j h.1 ∙ invoke-isolated c t j h.0
