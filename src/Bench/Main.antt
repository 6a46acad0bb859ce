-- ===== src/Bench/Main.antt =====
-- bench/embed_vs_sqlite/main.go: `main`, from the flags to the exit status. What it prints is left
-- out.
pub mod Passed
use Prim.Native.String.{◌++◌ as ◌++ₛ◌}
use f4kvs_ffi.Prelude.{
  ℕ, zero, suc, Bytes, String, Bool, true, false, Option, none, some, List, [], ◌∷◌, ◌++◌, ◌⊎◌, inl,
  inr, ◌==◌, string_eq, if◌then◌else◌, length, ℤ, pos,
}
use f4kvs_ffi.Prelude.Decimal.{decimal_text}
use f4kvs_ffi.Prelude.Exec.{Exec, Outcome, ok, err, panic, pure, raise, continue, ◌>>=◌, ◌>>◌}
use f4kvs_ffi.Ffi.Lsm.{Lsm}
use f4kvs_ffi.Bench.Phase.{Float, PhaseResult}
use f4kvs_ffi.Bench.Manifest.{RunManifest, Report, harness_path}
use f4kvs_ffi.Bench.Repo.{
  Host, FilePath, find_repo_root, collect_git_info, collect_host_info, format_harness_command,
}
use f4kvs_ffi.Bench.Profiles.{ProfileError, parse_profiles, want_profile}
use f4kvs_ffi.Bench.Report.{
  RunWriter, append_phase_results, unique_engines, has_integrity_failure, has_integrity_fail,
  derive_tier,
}
use f4kvs_ffi.Bench.Writer.{
  WriterError, Files, failing, file_failed, unsupported_value, is_encodable, report_json,
  new_run_writer, finalize,
}
use f4kvs_ffi.Bench.Run.{
  Disk, World, Program, Fatal, writer_error, profile_error, no_profiles_selected, integrity_failed,
  temp_dir_failed,
}
use f4kvs_ffi.Bench.Phases.{Load, and_rows, no_rows, join}
use f4kvs_ffi.Bench.EnginePhases.{bench_f4kvs}
use f4kvs_ffi.Bench.Sqlite.{Sql, SqliteProfile, bench_sqlite}
use f4kvs_ffi.Bench.Restart.{bench_f4kvs_post_restart, bench_sqlite_post_restart}
use f4kvs_ffi.Bench.Plan.{
  Flags, EngineRun, batch_size, expand_all, load_of, skip_per_commit, ascii, engine_runs,
  restart_runs, sqlite_full, sqlite_normal,
}
use f4kvs_ffi.Bench.Runs.{run_benchmarks}

-- What a program finds on its machine: its host, and the texts of its clock.
pub record Surroundings : Type 0 where
  pub temp_dir : Outcome Bytes Bytes
  pub random : ℕ → ℕ
  pub random' : ℕ → ℕ
  pub host : Host
  -- `os.Getwd`
  pub cwd : FilePath
  pub new_run_id : String
  pub started : String
  pub finished : String

abbrev fatal_writer : {A : Type 0} → Outcome WriterError A → Outcome Fatal A
fatal_writer (ok a) = ok a
fatal_writer (err e) = err (writer_error e)
fatal_writer panic = panic

-- A call on files, whose error ends the program.
abbrev pub on_files : {D A : Type 0} → Exec D WriterError A → Program D A
on_files m w = let (r, disk') = m w.disk in (fatal_writer r, record w { disk = disk' })

abbrev parsed : {D : Type 0} → ProfileError ⊎ List String → Program D (List String)
parsed (inl e) = raise (profile_error e)
parsed (inr want) = pure want

abbrev made_dir : {D : Type 0} → Outcome Bytes Bytes → Program D Bytes
made_dir (ok dir) = pure dir
made_dir (err e) = raise (temp_dir_failed e)
made_dir panic = λ w. (panic, w)

-- `FormatHarnessCommand` of the flags
abbrev pub command_of : Flags → String
command_of flags =
    format_harness_command (pos flags.memoirs) (pos flags.chunks) flags.memoir_bytes
      flags.chunk_bytes (pos flags.random_gets) flags.seed flags.include_relaxed flags.profiles

abbrev pub run_manifest : Flags → Surroundings → RunManifest
run_manifest flags here = record {
  schema_version = "";
  run_id = "";
  flow_id = "";
  tier = (if flags.tier == "" then derive_tier (pos flags.chunks) else flags.tier);
  seed = flags.seed;
  started_at = "";
  finished_at = "";
  git = collect_git_info here.host (find_repo_root here.host here.cwd);
  host = collect_host_info here.host;
  scale = record {
    memoirs = flags.memoirs;
    chunks = flags.chunks;
    memoir_bytes = flags.memoir_bytes;
    chunk_bytes = flags.chunk_bytes;
    random_gets = flags.random_gets;
  };
  engines = [];
  harness = record { path = harness_path; command = command_of flags };
  notes = "";
}

abbrev pub report_of : {F : Type 0} → Flags → Surroundings → List (PhaseResult F) → Report F
report_of flags here rows = record {
  host = here.host.goos ++ₛ "/" ++ₛ here.host.goarch;
  memoirs = flags.memoirs;
  chunks = flags.chunks;
  memoir_b = flags.memoir_bytes;
  chunk_b = flags.chunk_bytes;
  random_get = flags.random_gets;
  fair_compare = "f4kvs_wal_segment vs f4kvs_wal_frame vs sqlite_wal_full (per-commit puts)";
  batched_compare = "f4kvs_wal_segment vs sqlite_wal_full (chunk_batch_put_batched)";
  results = rows;
}

module _ {D F : Type 0} (files : Files D F) ⦃float : Float F⦄ where
  -- `if *runsRoot != "" { … NewRunWriter(…) }`
  unfoldable pub open_writer : Flags → Surroundings → Program D (Option (RunWriter F))
  unfolding derive_tier new_run_writer
  open_writer flags here =
      if flags.runs_root == ""
      then pure none
      else (let run_id = (if flags.run_id == "" then here.new_run_id else flags.run_id) in
          on_files
            (new_run_writer files flags.runs_root run_id (run_manifest flags here) here.started)
          >>= λ w. pure (some w))

  -- `writeJSON`, at a path of any form
  unfoldable pub write_json : String → Report F → Exec D WriterError (Unit {0})
  write_json path rep =
      if is_encodable files rep.results
      then failing file_failed (files.write_file "" path (report_json rep))
      else raise unsupported_value

  abbrev no_rows_fatal : List (PhaseResult F) → Program D (Unit {0})
  no_rows_fatal [] = raise no_profiles_selected
  no_rows_fatal (r ∷ rows) = pure tt

  abbrev exit_if : Bool → Program D (Unit {0})
  exit_if fails = if fails then raise integrity_failed else pure tt

  -- `writer.AppendPhaseResults(…)`, `writer.Finalize(…)` and the gate on the lines
  abbrev publish_rows : RunWriter F → Report F → String → Program D (Unit {0})
  publish_rows w rep finished world =
      let w' = append_phase_results rep.results w in
      let (r, (w'', disk')) =
        finalize files (some rep) (unique_engines rep.results) finished (w', world.disk) in
      continue (fatal_writer r) (λ dir. exit_if (has_integrity_failure w''))
        (record world { disk = disk' })

  -- `if writer != nil { … } else if hasIntegrityFail(rep.Results) { … }`
  unfoldable pub judge : Option (RunWriter F) → Report F → String → Program D (Unit {0})
  unfolding append_phase_results finalize unique_engines has_integrity_failure has_integrity_fail
  judge none rep finished = exit_if (has_integrity_fail rep.results)
  judge (some w) rep finished = publish_rows w rep finished

  -- What follows the benchmarks.
  unfoldable pub conclude :
      Flags → Surroundings → Option (RunWriter F) → List (PhaseResult F) → Program D (Unit {0})
  unfolding write_json judge
  conclude flags here writer rows =
      let rep = report_of flags here rows in
      no_rows_fatal rows
      >> (if flags.out == "" then pure tt else on_files (write_json flags.out rep))
      >> judge writer rep here.finished

module _ {D S Db F : Type 0} (on : Disk D S) (sql : Sql D Db) (files : Files D F) ⦃lsm : Lsm S⦄
    ⦃float : Float F⦄ where
  -- `main`: it ends with the exit status 0, with an error that gives the status 1, or with a panic.
  -- `defer os.RemoveAll(tmp)` runs if nothing has ended the program.
  unfoldable pub main : Flags → Surroundings → Program D (Unit {0})
  unfolding parse_profiles expand_all load_of skip_per_commit open_writer run_benchmarks conclude
  main flags here = do
    choice ← parsed (parse_profiles flags.profiles)
    let want = expand_all flags.include_relaxed choice
    let load = load_of here.random here.random' flags
    tmp ← made_dir here.temp_dir
    writer ← open_writer files flags here
    let skip = skip_per_commit flags.max_per_commit_chunks (length load.chunk_keys)
    rows ← run_benchmarks on sql (batch_size flags) want tmp load skip
    conclude files flags here writer rows
    λ w. (ok tt, record w { disk = (on.remove_all tmp w.disk).1 })
