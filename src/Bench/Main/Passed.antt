-- ===== src/Bench/Main/Passed.antt =====
-- When `main` of bench/embed_vs_sqlite/main.go ends with the exit status 0.
use f4kvs_ffi.Prelude.{
  ◌<◌, Bytes, String, Bool, true, false, Option, none, some, List, [], ◌∷◌, ◌≡◌, refl, sym, ◌∙◌,
  ◌⊎◌, inl, inr, ◌==◌, string_eq, if◌then◌else◌, length, ◌||◌, arith,
}
use f4kvs_ffi.Prelude.Exec.{ok, pure, ◌>>◌}
use f4kvs_ffi.Prelude.After.{continue-ok}
use f4kvs_ffi.Ffi.Lsm.{Lsm}
use f4kvs_ffi.Bench.Phase.{Float, PhaseResult}
use f4kvs_ffi.Bench.Manifest.{Report}
use f4kvs_ffi.Bench.Profiles.{ProfileError, parse_profiles}
use f4kvs_ffi.Bench.Report.{
  RunWriter, append_phase_results, has_integrity_failure, has_integrity_fail, unique_engines,
}
use f4kvs_ffi.Bench.Report.Gate.{has_integrity_failure-append_phase_results}
use f4kvs_ffi.Bench.Writer.{Files, finalize}
use f4kvs_ffi.Bench.Run.{Disk, World, Program}
use f4kvs_ffi.Bench.Sqlite.{Sql}
use f4kvs_ffi.Bench.Plan.{Flags, batch_size, expand_all, load_of, skip_per_commit}
use f4kvs_ffi.Bench.Runs.{run_benchmarks}
use f4kvs_ffi.Bench.Main.{
  Surroundings, parsed, made_dir, report_of, fatal_writer, on_files, open_writer, conclude, exit_if,
  no_rows_fatal, publish_rows, judge, write_json, main,
}

parsed_ok :
    {D : Type 0} (p : ProfileError ⊎ List String) (want : List String) (w : World D)
    → (parsed p w).0 ≡ ok want
    → p ≡ inr want
parsed_ok (inl e) want w h = absurd (ground (arith, h))
parsed_ok (inr x) want w h = ground (arith, h)

or_false : (a b : Bool) → (a || b) ≡ false → b ≡ false
or_false true b h = absurd (ground (arith, h))
or_false false b h = h

module _ {D F : Type 0} (files : Files D F) ⦃float : Float F⦄ where
  exit_if_ok : (b : Bool) (w : World D) → (exit_if files b w).0 ≡ ok tt → b ≡ false
  exit_if_ok true w h = absurd (ground (arith, h))
  exit_if_ok false w h = refl

  publish_rows_ok :
      (x : RunWriter F) (rep : Report F) (finished : String) (w : World D)
      → (publish_rows files x rep finished w).0 ≡ ok tt
      → has_integrity_fail rep.results ≡ false
  unfolding finalize has_integrity_failure
  publish_rows_ok x rep finished w h =
      let r =
        finalize files (some rep) (unique_engines rep.results) finished
          (append_phase_results rep.results x, w.disk) in
      let (dir, _, passed) =
        continue-ok (fatal_writer r.0, record w { disk = r.1.1 })
          (λ dir. exit_if files (has_integrity_failure r.1.0)) tt h in
      let gate = has_integrity_failure-append_phase_results rep.results x in
      or_false (has_integrity_failure x) (has_integrity_fail rep.results)
        (sym gate ∙ exit_if_ok (has_integrity_failure r.1.0) (record w { disk = r.1.1 }) passed)

  judge_ok :
      (writer : Option (RunWriter F)) (rep : Report F) (finished : String) (w : World D)
      → (judge files writer rep finished w).0 ≡ ok tt
      → has_integrity_fail rep.results ≡ false
  unfolding judge
  judge_ok none rep finished w h = exit_if_ok (has_integrity_fail rep.results) w h
  judge_ok (some x) rep finished w h = publish_rows_ok x rep finished w h

  conclude_ok :
      (flags : Flags) (here : Surroundings) (writer : Option (RunWriter F))
      (rows : List (PhaseResult F)) (w : World D)
      → (conclude files flags here writer rows w).0 ≡ ok tt
      → (0 < length rows) × (has_integrity_fail rows ≡ false)
  unfolding conclude
  conclude_ok flags here writer [] w h = absurd (ground (arith, h))
  conclude_ok flags here writer (r ∷ rows) w h =
      let rep = report_of flags here (r ∷ rows) in
      let written =
        (no_rows_fatal files (r ∷ rows)
            >> (if flags.out == "" then pure tt else on_files (write_json files flags.out rep)))
          w in
      let (u, _, last) = continue-ok written _ tt h in
      (omega arith, judge_ok writer rep here.finished written.1 last)

module _ {D S Db F : Type 0} (on : Disk D S) (sql : Sql D Db) (files : Files D F) ⦃lsm : Lsm S⦄
    ⦃float : Float F⦄ where
  -- The benchmarks that the flags ask for.
  abbrev pub asked_for :
      Flags → Surroundings → List String → Bytes → Program D (List (PhaseResult F))
  asked_for flags here choice tmp =
      let load = load_of here.random here.random' flags in
      let skip = skip_per_commit flags.max_per_commit_chunks (length load.chunk_keys) in
      run_benchmarks on sql (batch_size flags) (expand_all flags.include_relaxed choice) tmp load
        skip

  -- If `main` ends with the exit status 0, the flags named profiles, the benchmarks of those ran to
  -- the end in some directory, they gave at least one row, and no integrity check among the rows
  -- failed.
  pub main-passed :
      (flags : Flags) (here : Surroundings) (w : World D)
      → (main on sql files flags here w).0 ≡ ok tt
      → (choice : List String) × (tmp : Bytes) × (w' : World D) × (rows : List (PhaseResult F))
        × (parse_profiles flags.profiles ≡ inr choice)
        × ((asked_for flags here choice tmp w').0 ≡ ok rows)
        × (0 < length rows)
        × (has_integrity_fail rows ≡ false)
  unfolding main
  main-passed flags here w h =
      let first = parsed (parse_profiles flags.profiles) w in
      let (choice, named, h1) = continue-ok first _ tt h in
      let second = made_dir here.temp_dir first.1 in
      let (tmp, _, h2) = continue-ok second _ tt h1 in
      let third = open_writer files flags here second.1 in
      let (writer, _, h3) = continue-ok third _ tt h2 in
      let fourth = asked_for flags here choice tmp third.1 in
      let (rows, ran, h4) = continue-ok fourth _ tt h3 in
      let (u, concluded, _) =
        continue-ok (conclude files flags here writer rows fourth.1) _ tt h4 in
      let (some_row, passed) = conclude_ok files flags here writer rows fourth.1 concluded in
      (
        choice,
        tmp,
        third.1,
        rows,
        parsed_ok (parse_profiles flags.profiles) choice w named,
        ran,
        some_row,
        passed,
      )
