-- ===== src/Bench/Machine.antt =====
-- A machine in memory that meets the laws of disks, SQLite and files, for runs at concrete inputs.
use f4kvs_ffi.Prelude.{
  ℕ, suc, Bytes, String, true, false, Option, none, some, List, [], ◌∷◌, ◌++◌, ◌≡◌, refl, ◌&&◌,
  ◌==◌, ==_self, nat_eq, string_eq, bytes_eq, if◌then◌else◌, if_cases, length, contains, Assoc,
  lookup, insert, erase, lookup-insert, lookup-erase, ltb, ◌/◌, arith,
}
use f4kvs_ffi.Prelude.Exec.{Exec, ok, err}
use f4kvs_ffi.Prelude.After.{After}
use f4kvs_ffi.Ffi.Lsm.{starts_with}
use f4kvs_ffi.Ffi.Memory.{Memory, memory, memory_laws, keys_with, keys_with-Unrepeated}
use f4kvs_ffi.Ffi.Options.{LsmConfig, segment}
use f4kvs_ffi.Bench.Phase.{Float}
use f4kvs_ffi.Bench.Report.{ResultLine}
use f4kvs_ffi.Bench.Writer.{Content, result_lines, Files}
use f4kvs_ffi.Bench.Writer.Laws.{FilesLaws}
use f4kvs_ffi.Bench.Run.{Disk}
use f4kvs_ffi.Bench.Sqlite.{Sql}
use f4kvs_ffi.Bench.Restart.Kept.{DiskLaws}
use f4kvs_ffi.Bench.Restart.DbIntegrity.{SqlLaws}
use f4kvs_ffi.Bench.Restart.Counting.{ScansAnswer}

instance abbrev pub nat_float : Float ℕ
nat_float = record {
  of_nat = λ n. n;
  above = λ a b. ltb b a;
  is_zero = λ a. a == 0;
  over = λ a b. a / b;
}

-- Engines by their directories, the keys in database files, and files by directory and name.
pub record Machine : Type 0 where
  pub engines : Assoc Bytes Memory
  pub dbs : Assoc Bytes (List Bytes)
  pub files : String → String → Option (Content ℕ)
  -- what the one buffered writer was given
  pub buffer : List (ResultLine ℕ)

abbrev pub default_lsm : LsmConfig
default_lsm = record {
  wal = record {
    group_commit_enabled = false;
    group_commit_max_wait = 10;
    group_commit_max_batch_size = 100;
    group_commit_wait_durable = true;
    group_commit_idle_flush = none;
    engine = segment;
  };
  max_batch_size = 10000;
  background_enabled = true;
  max_sstables_per_level = 10;
  memtable_max_size = 67108864;
  sstable_target_size = 67108864;
  sstable_max_size = 134217728;
}

abbrev opened : LsmConfig → Option Memory → Memory
opened config none = record { table = []; faults = []; limit = config.max_batch_size }
opened config (some s) = s

abbrev pub engine_disk : Disk Machine Memory
engine_disk = record {
  opening = λ d. record {
    default_config = default_lsm;
    apply_to = λ durability wal. wal;
    new_engine = λ path config. ok (opened config (lookup path d.engines));
  };
  leave = λ dir s d. record d { engines = insert dir s d.engines };
  remove_all = λ dir d. (ok tt, record d { engines = erase dir d.engines });
}

pub engine_disk_laws : DiskLaws engine_disk memory_laws
engine_disk_laws = record {
  removed = λ dir k d config s u q. ground (arith, q, lookup-erase dir dir d.engines, ==_self dir);
  reopened =
      λ dir k d config s s' u q. ground (arith, q, lookup-insert dir dir s d.engines, ==_self dir);
}

pub memory-ScansAnswer : ScansAnswer memory
memory-ScansAnswer p s = (keys_with p s.table, refl, keys_with-Unrepeated p s.table)

-- The keys that a connection sees, and those that were committed.
pub record Table : Type 0 where
  pub rows : List Bytes
  pub saved : List Bytes

abbrev or_empty : Option (List Bytes) → List Bytes
or_empty none = []
or_empty (some rows) = rows

abbrev with_prefix : Bytes → List Bytes → List Bytes
with_prefix p [] = []
with_prefix p (k ∷ ks) = let rest = with_prefix p ks in if starts_with p k then k ∷ rest else rest

abbrev failed : {A : Type 0} → Exec Table Bytes A
failed t = (err (b'E' ∷ []), t)

abbrev nothing : Exec Table Bytes (Unit {0})
nothing t = (ok tt, t)

abbrev create : Exec Table Bytes (Unit {0})
create t = elim t.rows [ [] ↦ (ok tt, record { rows = []; saved = [] }) | k ∷ ks ↦ failed t ]

abbrev add_row : Bytes → Table → Table
add_row key t = record t { rows = key ∷ t.rows }

abbrev pub database : Sql Machine Table
database = record {
  open_file = λ dsn d.
      (let rows = or_empty (lookup dsn.file d.dbs) in
        (ok (record { rows = rows; saved = rows }), d));
  close_file = λ dsn t d. (ok tt, record d { dbs = insert dsn.file t.saved d.dbs });
  remove_file = λ path d. record d { dbs = erase path d.dbs };
  create_table = create;
  insert = λ key value t.
      if contains t.rows key
      then failed t
      else (ok tt, record { rows = key ∷ t.rows; saved = key ∷ t.rows });
  insert_in_tx = λ key value t. if contains t.rows key then failed t else (ok tt, add_row key t);
  begin = nothing;
  prepare = nothing;
  commit = λ t. (ok tt, record t { saved = t.rows });
  select_value = λ key t. if contains t.rows key then (ok [], t) else failed t;
  select_keys = λ p t. (ok (with_prefix p t.rows), t);
  count_rows = λ t. (ok (length t.rows), t);
}

create_is_empty :
    (rows saved : List Bytes)
    → After (λ u t. length t.rows ≡ 0) (create (record { rows = rows; saved = saved }))
create_is_empty [] saved = refl
create_is_empty (k ∷ ks) saved = tt

pub database_laws : SqlLaws database
database_laws = record {
  seen = λ t. length t.rows;
  committed = λ t. length t.saved;
  in_file = λ path d. length (or_empty (lookup path d.dbs));
  open_rows = λ dsn d. refl;
  close_rows =
      λ dsn t d. ground (arith, lookup-insert dsn.file dsn.file t.saved d.dbs, ==_self dsn.file);
  create_rows = λ t. create_is_empty t.rows t.saved;
  begin_rows = λ t. refl;
  prepare_rows = λ t. refl;
  insert_rows = λ key value t.
      if_cases (λ r. After (λ u t'. length t'.rows ≡ suc (length t.rows)) r) (contains t.rows key) _
        _ (λ _. tt) λ _. refl;
  commit_rows = λ t. (refl, refl);
  count_is_seen = λ t. refl;
}

abbrev change :
    String → String → (Option (Content ℕ) → Option (Content ℕ)) → Exec Machine Bytes (Unit {0})
change dir name f d = (
  ok tt,
  record d {
    files = λ dir' name'.
        (let old = d.files dir' name' in if dir == dir' && name == name' then f old else old);
  },
)

abbrev pub file_system : Files Machine ℕ
file_system = record {
  remove_all = λ dir d.
      (ok tt, record d { files = λ dir' name. if dir == dir' then none else d.files dir' name });
  mkdir_all = λ dir d. (ok tt, d);
  write_file = λ dir name c. change dir name λ old. some c;
  create = λ dir name d. change dir name (λ old. some (result_lines [])) (record d { buffer = [] });
  append_line = λ dir name line d. (ok tt, record d { buffer = d.buffer ++ line ∷ [] });
  flush = λ dir name d. change dir name (λ old. some (result_lines d.buffer)) d;
  close = λ dir name d. (ok tt, d);
  rename = λ dir dir' d. (
    ok tt,
    record d {
      files = λ x name.
          if x == dir' then d.files dir name else if x == dir then none else d.files x name;
    },
  );
  is_finite = λ n. true;
}

-- Directories that differ; the machine has none inside another.
abbrev pub Differ : String → String → Type 0
Differ dir dir' = (dir == dir') ≡ false

pub file_system_laws : FilesLaws file_system Differ
file_system_laws = record {
  view = λ d dir name. d.files dir name;
  write_holds = λ dir name c d. ground (arith, ==_self dir, ==_self name);
  write_frame = λ dir name dir' name' c d h. ground (arith, h);
  given = λ d dir name. d.buffer;
  create_holds = λ dir name d. refl;
  create_frame = λ dir name dir' name' d h. ground (arith, h);
  append_holds = λ dir name line d. refl;
  append_frame = λ dir name dir' name' line d h. refl;
  flush_holds = λ dir name d. ground (arith, ==_self dir, ==_self name);
  flush_frame = λ dir name dir' name' d h. ground (arith, h);
  close_holds = λ dir name dir' name' d. refl;
  remove_frame = λ dir dir' name d h. ground (arith, h);
  rename_holds = λ dir dir' d name. ground (arith, ==_self dir');
}
