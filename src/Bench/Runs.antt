-- ===== src/Bench/Runs.antt =====
-- bench/embed_vs_sqlite/main.go: the benchmarks that `main` runs, one after the other.
pub mod Selected
use Prim.Native.String.{◌++◌ as ◌++ₛ◌}
use f4kvs_ffi.Prelude.{
  ℕ, zero, suc, Bytes, String, Bool, true, false, Option, none, some, List, [], ◌∷◌, ◌++◌, ◌⊎◌, inl,
  inr, ◌==◌, string_eq, if◌then◌else◌, length, ℤ, pos,
}
use f4kvs_ffi.Prelude.Decimal.{decimal_text}
use f4kvs_ffi.Prelude.Exec.{Exec, Outcome, ok, err, panic, pure, raise, continue, ◌>>=◌, ◌>>◌}
use f4kvs_ffi.Ffi.Lsm.{Lsm}
use f4kvs_ffi.Bench.Phase.{Float, PhaseResult}
use f4kvs_ffi.Bench.Manifest.{RunManifest, Report, harness_path}
use f4kvs_ffi.Bench.Repo.{
  Host, FilePath, find_repo_root, collect_git_info, collect_host_info, format_harness_command,
}
use f4kvs_ffi.Bench.Profiles.{ProfileError, parse_profiles, want_profile}
use f4kvs_ffi.Bench.Report.{
  RunWriter, append_phase_results, unique_engines, has_integrity_failure, has_integrity_fail,
  derive_tier,
}
use f4kvs_ffi.Bench.Writer.{
  WriterError, Files, failing, file_failed, unsupported_value, is_encodable, report_json,
  new_run_writer, finalize,
}
use f4kvs_ffi.Bench.Run.{
  Disk, World, Program, Fatal, writer_error, profile_error, no_profiles_selected, integrity_failed,
  temp_dir_failed,
}
use f4kvs_ffi.Bench.Phases.{Load, and_rows, no_rows, join}
use f4kvs_ffi.Bench.EnginePhases.{bench_f4kvs}
use f4kvs_ffi.Bench.Sqlite.{Sql, SqliteProfile, bench_sqlite}
use f4kvs_ffi.Bench.Restart.{bench_f4kvs_post_restart, bench_sqlite_post_restart}
use f4kvs_ffi.Bench.Plan.{
  Flags, EngineRun, batch_size, expand_all, load_of, skip_per_commit, ascii, engine_runs,
  restart_runs, sqlite_full, sqlite_normal,
}

-- `if run(name) { rep.Results = append(rep.Results, …) }`
abbrev pub if_wanted :
    {D F : Type 0}
    → List String
    → String
    → Program D (List (PhaseResult F))
    → Program D (List (PhaseResult F))
if_wanted want name m = if want_profile want name then m else no_rows

-- The SQLite profiles that a run wants.
unfoldable pub sqlite_profiles : List String → List SqliteProfile
unfolding want_profile
sqlite_profiles want =
    (if want_profile want "sqlite_wal_full" then sqlite_full ∷ [] else [])
    ++ (if want_profile want "sqlite_wal_normal" then sqlite_normal ∷ [] else [])

module _ {D S Db F : Type 0} (on : Disk D S) (sql : Sql D Db) ⦃lsm : Lsm S⦄ ⦃float : Float F⦄
    (size : ℤ) (want : List String) (tmp : Bytes) (load : Load) where
  unfoldable pub run_engines : Bool → List EngineRun → Program D (List (PhaseResult F))
  unfolding want_profile ascii bench_f4kvs
  run_engines skip [] = no_rows
  run_engines skip (r ∷ runs) =
      let others = run_engines skip runs in
      and_rows
        (if_wanted want r.profile
          (bench_f4kvs on size (join tmp (ascii r.dir)) r.profile r.durability r.opts load skip))
        others

  -- `for i, prof := range sqliteProfiles`, from the place `i`
  unfoldable pub run_sqlite : Bool → ℕ → List SqliteProfile → Program D (List (PhaseResult F))
  unfolding ascii bench_sqlite
  run_sqlite skip i [] = no_rows
  run_sqlite skip i (prof ∷ profs) =
      let others = run_sqlite skip (suc i) profs in
      let path = join tmp (ascii ("sqlite_" ++ₛ decimal_text i ++ₛ ".db")) in
      let p = (if skip then record prof { per_commit = false } else prof) in
      and_rows (bench_sqlite sql path p load) others

  unfoldable pub restart_engines : List EngineRun → Program D (List (PhaseResult F))
  unfolding want_profile ascii bench_f4kvs_post_restart
  restart_engines [] = no_rows
  restart_engines (r ∷ runs) =
      let others = restart_engines runs in
      and_rows
        (if_wanted want r.profile
          (bench_f4kvs_post_restart on size (join tmp (ascii r.dir)) r.profile r.opts load))
        others

  -- One of the two checks of SQLite.
  abbrev pub restart_sqlite : String → SqliteProfile → Program D (List (PhaseResult F))
  restart_sqlite file prof =
      if_wanted want prof.name (bench_sqlite_post_restart sql (join tmp (ascii file)) prof load)

  -- All rows of a run.
  unfoldable pub run_benchmarks : Bool → Program D (List (PhaseResult F))
  unfolding run_engines engine_runs run_sqlite sqlite_profiles restart_engines restart_runs ascii
      want_profile bench_sqlite_post_restart
  run_benchmarks skip = and_rows (run_engines skip engine_runs) (
      and_rows (run_sqlite skip 0 (sqlite_profiles want)) (
        and_rows (restart_engines restart_runs) (
          and_rows (restart_sqlite "restart_sqlite_full.db" sqlite_full)
            (restart_sqlite "restart_sqlite_normal.db" sqlite_normal))))
