-- ===== src/Ffi/Memory.antt =====
-- An engine in memory that meets the laws of the interface, for runs at concrete inputs. A list of
-- faults says which of the coming writes fail.
use mathlib.Core.Path.{fun_ext}
use f4kvs_ffi.Prelude.{
  ℕ, Bytes, Bool, true, false, not, List, [], ◌∷◌, ◌≡◌, refl, ap, ◌∙◌, bytes_eq, if◌then◌else◌,
  if_cases, Assoc, lookup, insert, erase, contains, ◌&&◌, lookup-insert, lookup-erase, arith,
}
use f4kvs_ffi.Prelude.Members.{Unrepeated}
use f4kvs_ffi.Prelude.Exec.{Exec, ok, err}
use f4kvs_ffi.Ffi.Lsm.{Lsm, LsmLaws, Value, View, put_all, delete_all, starts_with, is_some}

pub record Memory : Type 0 where
  pub table : Assoc Bytes Value
  pub faults : List Bool
  pub limit : ℕ

abbrev pub attempt :
    (Assoc Bytes Value → Assoc Bytes Value) → List Bool → Exec Memory Bytes (Unit {0})
attempt f [] m = (ok tt, record m { table = f m.table })
attempt f (true ∷ rest) m = (err (b'I' ∷ b'O' ∷ []), record m { faults = rest })
attempt f (false ∷ rest) m = (ok tt, record m { table = f m.table; faults = rest })

abbrev pub insert_all : List (Bytes × Value) → Assoc Bytes Value → Assoc Bytes Value
insert_all [] t = t
insert_all ((k, v) ∷ xs) t = insert_all xs (insert k v t)

abbrev pub erase_all : List Bytes → Assoc Bytes Value → Assoc Bytes Value
erase_all [] t = t
erase_all (k ∷ ks) t = erase_all ks (erase k t)

abbrev pub keys_with : Bytes → Assoc Bytes Value → List Bytes
keys_with p [] = []
keys_with p ((k, v) ∷ t) =
    let rest = keys_with p t in if starts_with p k && not (contains rest k) then k ∷ rest else rest

abbrev pub keep : Exec Memory Bytes (Unit {0})
keep m = (ok tt, m)

instance abbrev pub memory : Lsm Memory
memory = record {
  get = λ k m. (ok (lookup k m.table), m);
  put = λ k v m. attempt (insert k v) m.faults m;
  delete = λ k m. attempt (erase k) m.faults m;
  batch_put = λ xs m. attempt (insert_all xs) m.faults m;
  batch_delete = λ ks m. attempt (erase_all ks) m.faults m;
  scan_prefix = λ p m. (ok (keys_with p m.table), m);
  set_bulk_import = λ on m. m;
  flush = keep;
  flush_wal = keep;
  compact = keep;
  shutdown = keep;
  max_batch_size = λ m. m.limit;
}

pub lookup-insert_all :
    (xs : List (Bytes × Value)) (j : Bytes) (t : Assoc Bytes Value)
    → lookup j (insert_all xs t) ≡ put_all xs (λ i. lookup i t) j
lookup-insert_all [] j t = refl
lookup-insert_all ((k, v) ∷ xs) j t =
    lookup-insert_all xs j (insert k v t)
    ∙ ap (λ (m : View). put_all xs m j) (fun_ext λ i. lookup-insert k i v t)

pub lookup-erase_all :
    (ks : List Bytes) (j : Bytes) (t : Assoc Bytes Value)
    → lookup j (erase_all ks t) ≡ delete_all ks (λ i. lookup i t) j
lookup-erase_all [] j t = refl
lookup-erase_all (k ∷ ks) j t =
    lookup-erase_all ks j (erase k t)
    ∙ ap (λ (m : View). delete_all ks m j) (fun_ext λ i. lookup-erase k i t)

abbrev pub table_view : Memory → View
table_view m k = lookup k m.table

-- A write that succeeds has changed the table, whatever faults are to come.
pub attempt-view :
    (f : Assoc Bytes Value → Assoc Bytes Value) (fs : List Bool) (m : Memory) (j : Bytes)
    → (attempt f fs m).0 ≡ ok tt
    → table_view (attempt f fs m).1 j ≡ lookup j (f m.table)
attempt-view f [] m j h = refl
attempt-view f (true ∷ fs) m j h = cc
attempt-view f (false ∷ fs) m j h = refl

pub contains-keys_with :
    (p k : Bytes) (t : Assoc Bytes Value)
    → contains (keys_with p t) k ≡ (starts_with p k && is_some (lookup k t))
contains-keys_with p k [] = ground arith
contains-keys_with p k ((j, v) ∷ t) = ground (arith, contains-keys_with p k t, bytes_eq.beq_iff j k)

pub keys_with-Unrepeated : (p : Bytes) (t : Assoc Bytes Value) → Unrepeated (keys_with p t)
keys_with-Unrepeated p [] = tt
keys_with-Unrepeated p ((k, v) ∷ t) =
    let rest = keys_with p t in
    if_cases Unrepeated (starts_with p k && not (contains rest k)) (k ∷ rest) rest
      (λ new. (ground (arith, new), keys_with-Unrepeated p t)) λ old. keys_with-Unrepeated p t

abbrev pub memory_laws : LsmLaws Memory memory
memory_laws = record {
  view = table_view;
  get_value = λ k s. refl;
  get_view = λ k j s. refl;
  put_view = λ k j v s h. attempt-view (insert k v) s.faults s j h ∙ lookup-insert k j v s.table;
  delete_view = λ k j s h. attempt-view (erase k) s.faults s j h ∙ lookup-erase k j s.table;
  batch_put_view =
      λ xs j s h. attempt-view (insert_all xs) s.faults s j h ∙ lookup-insert_all xs j s.table;
  batch_delete_view =
      λ ks j s h. attempt-view (erase_all ks) s.faults s j h ∙ lookup-erase_all ks j s.table;
  scan_keys = λ p k s. contains-keys_with p k s.table;
  scan_view = λ p j s. refl;
  bulk_view = λ on j s. refl;
  flush_view = λ j s. refl;
  flush_wal_view = λ j s. refl;
  compact_view = λ j s. refl;
}
