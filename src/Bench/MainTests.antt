-- ===== src/Bench/MainTests.antt =====
-- `main` and the run writer of the benchmark on a machine in memory.
use f4kvs_ffi.Prelude.{
  ℕ, ◌<◌, Bytes, String, true, false, none, List, [], ◌∷◌, ◌≡◌, refl, ◌⊎◌, inr, string_eq, length,
  All, bytes_beq, pos,
}
use f4kvs_ffi.Prelude.Decimal.{decimal_text}
use f4kvs_ffi.Prelude.Exec.{Outcome, ok, err, panic}
use f4kvs_ffi.Ffi.Memory.{Memory, memory}
use f4kvs_ffi.Bench.RepoTests.{host, start}
use f4kvs_ffi.Bench.Phase.{PhaseResult}
use f4kvs_ffi.Bench.Profiles.{parse_profiles}
use f4kvs_ffi.Bench.Report.{has_integrity_fail}
use f4kvs_ffi.Bench.Writer.{Files, file_failed, finalize}
use f4kvs_ffi.Bench.Manifest.{RunManifest}
use f4kvs_ffi.Bench.Writer.Laws.{FilesLaws}
use f4kvs_ffi.Bench.Writer.Staged.{HoldsRun}
use f4kvs_ffi.Bench.Writer.Published.{IsFinished, IsRename, finalize-publishes, finalize-keeps}
use f4kvs_ffi.Bench.Run.{World}
use f4kvs_ffi.Bench.Machine.{
  Machine, nat_float, engine_disk, database, file_system, file_system_laws, Differ,
}
use f4kvs_ffi.Bench.Plan.{Flags, load_of, sqlite_full, sqlite_normal}
use f4kvs_ffi.Bench.Main.{Surroundings, main}
use f4kvs_ffi.Bench.Runs.{run_benchmarks}
use f4kvs_ffi.Bench.Main.Passed.{asked_for, main-passed}
use f4kvs_ffi.Bench.Runs.Selected.{IsWanted, run_benchmarks-IsWanted}
use f4kvs_ffi.Bench.Tests.{writer}

abbrev flags : Flags
flags = record {
  memoirs = 1;
  chunks = 2;
  memoir_bytes = pos 40;
  chunk_bytes = pos 36;
  random_gets = 2;
  include_relaxed = true;
  seed = pos 42;
  runs_root = "runs";
  tier = "";
  profiles = "sqlite_wal_full";
  max_per_commit_chunks = pos 10000;
  batch_put_size = pos 500;
  fair = false;
  out = "";
  run_id = "r1";
}

abbrev here : Surroundings
here = record {
  temp_dir = ok (b't' ∷ []);
  random = λ i. 0;
  random' = λ i. 0;
  host = host;
  cwd = start;
  new_run_id = "20260718T102530Z";
  started = "2026-07-18T10:25:30Z";
  finished = "2026-07-18T10:26:30Z";
}

abbrev world : World Machine
world = record {
  disk = record { engines = []; dbs = []; files = λ dir name. none; buffer = [] };
  slot = none;
  elapsed = λ n. 1000;
}

main_run :
    (main {S = Memory} {Db = _} {F = ℕ} engine_disk database file_system flags here world).0 ≡ ok tt
unfolding main bytes_beq sqlite_full decimal_text sqlite_normal
main_run = refl

main-passed_example :
    (choice : List String) × (tmp : Bytes) × (w' : World Machine) × (rows : List (PhaseResult ℕ))
    × (parse_profiles "sqlite_wal_full" ≡ inr choice)
    × ((asked_for engine_disk database file_system flags here choice tmp w').0 ≡ ok rows)
    × (0 < length rows)
    × (has_integrity_fail rows ≡ false)
main-passed_example = main-passed engine_disk database file_system flags here world main_run

abbrev both : List String
both = "f4kvs_wal_frame" ∷ "sqlite_wal_normal" ∷ []

abbrev rows_of : {W E F : Type 0} → Outcome E (List (PhaseResult F)) × W → List (PhaseResult F)
rows_of (ok rows, w) = rows
rows_of (err e, w) = []
rows_of (panic, w) = []

-- What a run of the relaxed profile gives.
abbrev relaxed_rows : List (PhaseResult ℕ)
relaxed_rows = rows_of (
    run_benchmarks engine_disk database (pos 500) ("sqlite_wal_normal" ∷ []) (b't' ∷ [])
      (load_of (λ i. 0) (λ i. 0) flags) false world)

relaxed_run :
    (run_benchmarks {F = ℕ} engine_disk database
      (pos 500)
      ("sqlite_wal_normal" ∷ [])
      (b't' ∷ [])
      (load_of (λ i. 0) (λ i. 0) flags)
      false
      world).0
    ≡ ok relaxed_rows
unfolding run_benchmarks load_of bytes_beq sqlite_full decimal_text sqlite_normal
relaxed_run = refl

run_benchmarks-IsWanted_example : All (IsWanted ("sqlite_wal_normal" ∷ [])) relaxed_rows
run_benchmarks-IsWanted_example =
    run_benchmarks-IsWanted engine_disk database (pos 500) ("sqlite_wal_normal" ∷ []) (b't' ∷ [])
      (load_of (λ i. 0) (λ i. 0) flags) false world relaxed_rows relaxed_run

finalize_run :
    (finalize file_system none
      ("sqlite_wal_full" ∷ [])
      "2026-07-18T10:26:30Z"
      (writer, world.disk)).0
    ≡ ok writer.final_dir
unfolding finalize
finalize_run = refl

finalize-publishes_example :
    (writer.final_dir ≡ writer.final_dir)
    × (m : RunManifest) × IsFinished
        ("sqlite_wal_full" ∷ [])
        writer.started
        "2026-07-18T10:26:30Z"
        writer.manifest
        m
    × HoldsRun file_system_laws writer.final_dir m writer.lines none
        (finalize file_system none
          ("sqlite_wal_full" ∷ [])
          "2026-07-18T10:26:30Z"
          (writer, world.disk)).1.1
finalize-publishes_example =
    finalize-publishes file_system_laws writer none ("sqlite_wal_full" ∷ []) "2026-07-18T10:26:30Z"
      writer.final_dir world.disk refl finalize_run

-- A disk that is full.
abbrev full : Files Machine ℕ
full = record file_system { write_file = λ dir name c d. (err (b'F' ∷ []), d) }

abbrev full_laws : FilesLaws full Differ
full_laws = record {
  view = file_system_laws.view;
  write_holds = λ dir name c d. tt;
  write_frame = λ dir name dir' name' c d h. refl;
  create_holds = file_system_laws.create_holds;
  create_frame = file_system_laws.create_frame;
  append_holds = file_system_laws.append_holds;
  append_frame = file_system_laws.append_frame;
  flush_holds = file_system_laws.flush_holds;
  flush_frame = file_system_laws.flush_frame;
  given = file_system_laws.given;
  close_holds = file_system_laws.close_holds;
  remove_frame = file_system_laws.remove_frame;
  rename_holds = file_system_laws.rename_holds;
}

full_run :
    (finalize full none [] "2026-07-18T10:26:30Z" (writer, world.disk)).0
    ≡ err (file_failed (b'F' ∷ []))
unfolding finalize
full_run = refl

finalize-keeps_example :
    IsRename full_laws (file_failed (b'F' ∷ []))
    ⊎ (full_laws.view
          (finalize full none [] "2026-07-18T10:26:30Z" (writer, world.disk)).1.1
          writer.final_dir
          "manifest.json"
        ≡ full_laws.view world.disk writer.final_dir "manifest.json")
finalize-keeps_example =
    finalize-keeps full_laws writer none [] "2026-07-18T10:26:30Z" "manifest.json"
      (file_failed (b'F' ∷ [])) world.disk refl full_run
