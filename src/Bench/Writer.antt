-- ===== src/Bench/Writer.antt =====
-- bench/embed_vs_sqlite/de_out.go: how `RunWriter` stages a run in a partial directory and publishes
-- it. Files are a parameter; a path is its directory and its name. `filepath.Clean` is left out, so
-- that paths are as they are put together.
pub mod Laws
pub mod Staged
pub mod Published
use Prim.Native.String.{◌++◌ as ◌++ₛ◌}
use f4kvs_ffi.Prelude.{
  Bytes, String, Bool, true, false, Option, none, some, List, [], ◌∷◌, ◌&&◌, ◌==◌, string_eq,
  if◌then◌else◌,
}
use f4kvs_ffi.Prelude.Exec.{Exec, Outcome, ok, err, panic, pure, raise, ◌>>=◌, ◌>>◌}
use f4kvs_ffi.Bench.Phase.{PhaseResult}
use f4kvs_ffi.Bench.Manifest.{RunManifest, Report, schema_version, flow_id, harness_path}
use f4kvs_ffi.Bench.Report.{ResultLine, RunWriter}

-- What a file holds, as the value that was encoded.
pub data Content (F : Type 0) : Type 0 where
  manifest_json : RunManifest → Content F
  result_lines : List (ResultLine F) → Content F
  report_json : Report F → Content F

pub data WriterError : Type 0 where
  runs_root_empty run_id_empty unsupported_value : WriterError
  file_failed rename_failed : Bytes → WriterError

-- The calls of `os` on a disk of type `D`, with the texts of their errors, and whether encoding/json
-- can write a number.
pub record Files (D F : Type 0) : Type 0 where
  pub remove_all : String → Exec D Bytes (Unit {0})
  pub mkdir_all : String → Exec D Bytes (Unit {0})
  -- `os.WriteFile`
  pub write_file : String → String → Content F → Exec D Bytes (Unit {0})
  pub create : String → String → Exec D Bytes (Unit {0})
  -- `Write` and `WriteByte` of a line to the buffered writer, its `Flush`, and `Close` of the file
  pub append_line : String → String → ResultLine F → Exec D Bytes (Unit {0})
  pub flush : String → String → Exec D Bytes (Unit {0})
  pub close : String → String → Exec D Bytes (Unit {0})
  pub rename : String → String → Exec D Bytes (Unit {0})
  pub is_finite : F → Bool

abbrev pub with_error : {E A : Type 0} → (Bytes → E) → Outcome Bytes A → Outcome E A
with_error f (ok a) = ok a
with_error f (err e) = err (f e)
with_error f panic = panic

abbrev pub failing : {D E A : Type 0} → (Bytes → E) → Exec D Bytes A → Exec D E A
failing f m d = let (r, d') = m d in (with_error f r, d')

-- `_ = os.RemoveAll(…)`
abbrev pub ignoring : {D E : Type 0} → Exec D Bytes (Unit {0}) → Exec D E (Unit {0})
ignoring m d = (ok tt, (m d).1)

-- `filepath.Join`
abbrev pub join_path : String → String → String
join_path dir name = dir ++ₛ "/" ++ₛ name

abbrev pub started_manifest : String → RunManifest → RunManifest
started_manifest run_id manifest = record manifest {
  schema_version = schema_version;
  run_id = run_id;
  flow_id = flow_id;
  harness =
      (if manifest.harness.path == ""
        then record { path = harness_path; command = manifest.harness.command }
        else manifest.harness);
}

abbrev pub or_engines : List String → List String → List String
or_engines [] old = old
or_engines (e ∷ engines) old = e ∷ engines

abbrev pub finished_manifest : List String → String → String → RunManifest → RunManifest
finished_manifest engines started finished manifest = record manifest {
  started_at = started;
  finished_at = finished;
  engines = or_engines engines manifest.engines;
}

module _ {D F : Type 0} (files : Files D F) where
  -- The time comes as its text.
  unfoldable pub new_run_writer :
      String → String → RunManifest → String → Exec D WriterError (RunWriter F)
  new_run_writer runs_root run_id manifest started =
      if runs_root == ""
      then raise runs_root_empty
      else if run_id == ""
      then raise run_id_empty
      else (let partial = join_path runs_root (run_id ++ₛ ".partial") in
          failing file_failed (files.remove_all partial)
          >> failing file_failed (files.mkdir_all partial)
          >> pure (record {
            runs_root = runs_root;
            run_id = run_id;
            partial_dir = partial;
            final_dir = join_path runs_root run_id;
            manifest = started_manifest run_id manifest;
            lines = [];
            started = started;
          }))

  -- The loop over the lines: an encoded line and its newline.
  unfoldable pub write_lines : String → List (ResultLine F) → Exec D WriterError (Unit {0})
  write_lines dir [] = pure tt
  write_lines dir (line ∷ lines) =
      let rest = write_lines dir lines in
      if files.is_finite line.value
      then failing file_failed (files.append_line dir "results.jsonl" line) >> rest
      else raise unsupported_value

  -- `f.Close()` before an error is returned; its own error is dropped.
  abbrev pub closed_on_error :
      {A : Type 0} → String → Outcome WriterError A × D → Outcome WriterError A × D
  closed_on_error dir (ok a, d) = (ok a, d)
  closed_on_error dir (err e, d) = (err e, (files.close dir "results.jsonl" d).1)
  closed_on_error dir (panic, d) = (panic, d)

  -- The lines and the flush at their end.
  abbrev pub flushed_lines : String → List (ResultLine F) → Exec D WriterError (Unit {0})
  flushed_lines dir lines =
      write_lines dir lines >> failing file_failed (files.flush dir "results.jsonl")

  unfoldable pub write_results : String → List (ResultLine F) → Exec D WriterError (Unit {0})
  unfolding write_lines
  write_results dir lines =
      failing file_failed (files.create dir "results.jsonl")
      >> (λ d. closed_on_error dir (flushed_lines dir lines d))
      >> failing file_failed (files.close dir "results.jsonl")

  abbrev pub is_encodable : List (PhaseResult F) → Bool
  is_encodable [] = true
  is_encodable (r ∷ results) =
      let rest = is_encodable results in
      files.is_finite r.ms && (files.is_finite r.ops_per_s && (files.is_finite r.value && rest))

  unfoldable pub write_legacy : String → Option (Report F) → Exec D WriterError (Unit {0})
  write_legacy dir none = pure tt
  write_legacy dir (some legacy) =
      if is_encodable legacy.results
      then failing file_failed (files.write_file dir "report.legacy.json" (report_json legacy))
      else raise unsupported_value

  -- The files of the partial directory.
  unfoldable pub stage : RunWriter F → Option (Report F) → Exec D WriterError (Unit {0})
  unfolding write_results write_legacy
  stage w legacy =
      failing file_failed
        (files.write_file w.partial_dir "manifest.json" (manifest_json w.manifest))
      >> write_results w.partial_dir w.lines
      >> write_legacy w.partial_dir legacy

  -- "Atomic publish"
  unfoldable pub publish : RunWriter F → Exec D WriterError String
  publish w =
      ignoring (files.remove_all w.final_dir)
      >> failing rename_failed (files.rename w.partial_dir w.final_dir)
      >> pure w.final_dir

  unfoldable pub finalize :
      Option (Report F) → List String → String → Exec (RunWriter F × D) WriterError String
  unfolding stage publish
  finalize legacy engines finished (w, d) =
      let w' = record w { manifest = finished_manifest engines w.started finished w.manifest } in
      let (r, d') = (stage w' legacy >> publish w') d in (r, (w', d'))
