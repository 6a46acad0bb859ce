-- ===== src/Engine/Closed.antt =====
-- A closed engine refuses every call, whatever the C side holds.
use mathlib.Core.Path.{subst}
use f4kvs_ffi.Prelude.{
  Bytes, Bool, true, false, Option, none, List, ◌∷◌, ◌≡◌, refl, sym, ap, Assoc, arith,
}
use f4kvs_ffi.Prelude.Exec.{err}
use f4kvs_ffi.Ffi.Lsm.{Lsm}
use f4kvs_ffi.Ffi.Calls.{Message}
use f4kvs_ffi.Engine.{
  F4kvs, Go, err_closed, get_bytes, put_bytes, get, put, delete, batch_put, batch_get_values,
  batch_get_bytes, batch_put_bytes, batch_delete, set_bulk_import, flush, flush_wal, sync,
  scan_prefix_keys, get_all_keys, close,
}
use f4kvs_ffi.Engine.Stored.{engine}

-- The call returns `ErrClosed` and changes nothing.
abbrev pub IsRefused : {S A : Type 0} → Go S A → F4kvs S → Type 0
IsRefused m e = m e ≡ (err err_closed, e)

module _ {S : Type 0} ⦃lsm : Lsm S⦄ where
  pub record RefusesAll (e : F4kvs S) : Type 0 where
    pub reads : (k : Bytes) → IsRefused (get_bytes k) e × IsRefused (get k) e
    pub writes : (k v : Bytes) → IsRefused (put_bytes k v) e × IsRefused (put k v) e
    pub deletes : (k : Bytes) → IsRefused (delete k) e
    pub batches :
        (x : Bytes × Bytes) (xs : Assoc Bytes Bytes)
        → IsRefused (batch_put (x ∷ xs)) e × IsRefused (batch_put_bytes (x ∷ xs)) e
    pub batch_reads :
        (k : Bytes) (ks : List Bytes)
        → IsRefused (batch_get_values (k ∷ ks)) e
          × IsRefused (batch_get_bytes (k ∷ ks)) e
          × IsRefused (batch_delete (k ∷ ks)) e
    pub modes : (on : Bool) → IsRefused (set_bulk_import on) e
    pub syncs : IsRefused flush e × IsRefused flush_wal e × IsRefused sync e
    pub scans : (p : Bytes) → (scan_prefix_keys p e ≡ (none, e)) × (get_all_keys e ≡ (none, e))

  no_handle-RefusesAll : (c : Bool) (m : Option Message) → RefusesAll (engine c none m)
  unfolding get_bytes get put put_bytes delete batch_put batch_put_bytes batch_get_values
      batch_get_bytes batch_delete set_bulk_import flush flush_wal sync scan_prefix_keys
      get_all_keys
  no_handle-RefusesAll true m = record {
    reads = λ k. (refl, refl);
    writes = λ k v. (refl, refl);
    deletes = λ k. refl;
    batches = λ x xs. (refl, refl);
    batch_reads = λ k ks. (refl, refl, refl);
    modes = λ on. refl;
    syncs = (refl, refl, refl);
    scans = λ p. (refl, refl);
  }
  no_handle-RefusesAll false m = record {
    reads = λ k. (refl, refl);
    writes = λ k v. (refl, refl);
    deletes = λ k. refl;
    batches = λ x xs. (refl, refl);
    batch_reads = λ k ks. (refl, refl, refl);
    modes = λ on. refl;
    syncs = (refl, refl, refl);
    scans = λ p. (refl, refl);
  }

  close-no_handle : (e : F4kvs S) → (close e).handle ≡ none
  unfolding close
  close-no_handle e = ground arith

  close-no_op : (e : F4kvs S) → e.handle ≡ none → close e ≡ e
  unfolding close
  close-no_op e h = rw h

  -- After `Close` every call returns `ErrClosed` and changes nothing (a scan returns no keys);
  -- batches of at least one item are meant. A second `Close` changes nothing either.
  pub close-RefusesAll : (e : F4kvs S) → RefusesAll (close e) × (close (close e) ≡ close e)
  close-RefusesAll e =
      let parts : close e ≡ engine (close e).closed none (close e).last_error =
        ap (λ (h : Option S). engine (close e).closed h (close e).last_error) (close-no_handle e) in
      (
        subst RefusesAll (sym parts) (no_handle-RefusesAll (close e).closed (close e).last_error),
        close-no_op (close e) (close-no_handle e),
      )
