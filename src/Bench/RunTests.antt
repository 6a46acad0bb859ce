-- ===== src/Bench/RunTests.antt =====
-- Runs of the benchmark on a machine in memory.
use f4kvs_ffi.Prelude.{
  ℕ, Bytes, false, none, [], ◌∷◌, ◌++◌, ◌≡◌, refl, string_eq, length, All, bytes_beq, bytes_eq, pos,
  arith,
}
use f4kvs_ffi.Prelude.Exec.{ok}
use f4kvs_ffi.Prelude.Members.{Unrepeated}
use f4kvs_ffi.Ffi.Text.{c_string, from_ptr, is_utf8, has_nul}
use f4kvs_ffi.Ffi.Memory.{memory, memory_laws}
use f4kvs_ffi.Ffi.Calls.{batch_items, value_from_raw}
use f4kvs_ffi.Engine.{to_item}
use f4kvs_ffi.Bench.Keys.{
  IsKey, memoir_prefix, chunk_prefix, memoir_keys, chunk_keys, memoir_keys-Unrepeated,
}
use f4kvs_ffi.Bench.Payload.{
  head, tail, IsLetter, sample_payload_seeded, sample_payload_seeded-letters,
}
use f4kvs_ffi.Bench.Report.{has_integrity_fail}
use f4kvs_ffi.Bench.Run.{World}
use f4kvs_ffi.Bench.Phases.{Load}
use f4kvs_ffi.Bench.Machine.{
  Machine, nat_float, engine_disk, engine_disk_laws, memory-ScansAnswer, database, database_laws,
}
use f4kvs_ffi.Bench.Restart.{restart_rows, bench_f4kvs_post_restart, bench_sqlite_post_restart}
use f4kvs_ffi.Bench.Restart.Counting.{IsLoad}
use f4kvs_ffi.Bench.Restart.Integrity.{Reports, bench_f4kvs_post_restart-passes}
use f4kvs_ffi.Bench.Restart.DbIntegrity.{bench_sqlite_post_restart-passes}
use f4kvs_ffi.Bench.Plan.{sqlite_full}

abbrev load : Load
load = record {
  memoir_keys = memoir_keys 1;
  chunk_keys = chunk_keys 2;
  memoir_payload = 1 ∷ [];
  chunk_payload = 2 ∷ [];
  random_gets = 3;
}

abbrev pub world : World Machine
world = record {
  disk = record { engines = []; dbs = []; files = λ dir name. none; buffer = [] };
  slot = none;
  elapsed = λ n. 1000;
}

load-IsLoad : IsLoad load
load-IsLoad =
    let (_, once, keys, _, _, _) = memoir_keys-Unrepeated 1 in
    let (_, _, _, _, once', keys') = memoir_keys-Unrepeated 2 in
    record { memoirs = keys; chunks = keys'; memoirs_once = once; chunks_once = once' }

memoir_keys-Unrepeated_example :
    (length (memoir_keys 11) ≡ 11)
    × Unrepeated (memoir_keys 11)
    × All (IsKey memoir_prefix) (memoir_keys 11)
    × (length (chunk_keys 11) ≡ 11)
    × Unrepeated (chunk_keys 11)
    × All (IsKey chunk_prefix) (chunk_keys 11)
memoir_keys-Unrepeated_example = memoir_keys-Unrepeated 11

sample_payload_seeded-letters_example :
    (body : Bytes) × (sample_payload_seeded (λ i. 0) (pos 40) (pos 42) ≡ head ++ (body ++ tail))
    × (length (sample_payload_seeded (λ i. 0) (pos 40) (pos 42)) ≡ 40)
    × All IsLetter body
sample_payload_seeded-letters_example =
    sample_payload_seeded-letters (λ i. 0) 40 (pos 42) (omega arith)

abbrev pub segment_dir : Bytes
segment_dir = b't' ∷ []

restart_run :
    (bench_f4kvs_post_restart {F = ℕ} engine_disk
      (pos 500)
      segment_dir
      "f4kvs_wal_segment"
      none
      load
      world).0
    ≡ ok (restart_rows "f4kvs_wal_segment" 3 1000 3)
unfolding bench_f4kvs_post_restart memoir_keys chunk_keys bytes_beq c_string from_ptr is_utf8
    has_nul batch_items to_item value_from_raw
restart_run = refl

bench_f4kvs_post_restart-passes_example :
    Reports {F = ℕ} "f4kvs_wal_segment" 3 (restart_rows "f4kvs_wal_segment" 3 1000 3)
    × (has_integrity_fail {F = ℕ} (restart_rows "f4kvs_wal_segment" 3 1000 3) ≡ false)
unfolding memoir_keys chunk_keys has_nul
bench_f4kvs_post_restart-passes_example =
    bench_f4kvs_post_restart-passes engine_disk memory_laws engine_disk_laws (λ s. refl)
      memory-ScansAnswer (pos 500) segment_dir "f4kvs_wal_segment" none load world _ refl refl
      (omega arith) load-IsLoad refl restart_run

sqlite_run :
    (bench_sqlite_post_restart database {F = ℕ} segment_dir sqlite_full load world).0
    ≡ ok (restart_rows "sqlite_wal_full" 3 1000 3)
unfolding bench_sqlite_post_restart memoir_keys chunk_keys bytes_beq sqlite_full
sqlite_run = refl

bench_sqlite_post_restart-passes_example :
    Reports {F = ℕ} "sqlite_wal_full" 3 (restart_rows "sqlite_wal_full" 3 1000 3)
    × (has_integrity_fail {F = ℕ} (restart_rows "sqlite_wal_full" 3 1000 3) ≡ false)
unfolding memoir_keys chunk_keys sqlite_full
bench_sqlite_post_restart-passes_example =
    bench_sqlite_post_restart-passes database_laws segment_dir sqlite_full load world _ refl
      sqlite_run
