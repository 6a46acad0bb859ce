-- ===== src/Bench/Writer/Published.antt =====
-- What `Finalize` of bench/embed_vs_sqlite/de_out.go publishes, and what it keeps if it fails.
use f4kvs_ffi.Prelude.{
  Bytes, ◌⊎◌, inl, inr, arith, String, false, Option, none, some, List, [], ◌∷◌, ◌≡◌, refl, ◌∙◌,
  ◌==◌, string_eq,
}
use f4kvs_ffi.Prelude.Exec.{Outcome, ok, err, panic, continue, pure, ◌>>◌}
use f4kvs_ffi.Prelude.After.{After, After_ok, After-weaken, continue-After}
use f4kvs_ffi.Bench.Manifest.{RunManifest, Report}
use f4kvs_ffi.Bench.Report.{ResultLine, RunWriter}
use f4kvs_ffi.Bench.Writer.{
  WriterError, rename_failed, Files, failing, or_engines, finished_manifest, stage, publish,
  finalize,
}
use f4kvs_ffi.Bench.Writer.Laws.{FilesLaws, failing-After}
use f4kvs_ffi.Bench.Writer.Staged.{HoldsRun, HoldsLegacy, stage-holds, stage-Keeps}

-- The engines of a run are those that are given, or those that were there if none are.
abbrev ListsEngines : List String → List String → List String → Type 0
ListsEngines [] old found = found ≡ old
ListsEngines (e ∷ engines) old found = found ≡ e ∷ engines

-- A manifest is the old one with the times and the engines of a run.
pub record IsFinished (engines : List String) (started finished : String) (old m : RunManifest)
    : Type 0 where
  pub started_at : m.started_at ≡ started
  pub finished_at : m.finished_at ≡ finished
  pub lists : ListsEngines engines old.engines m.engines
  pub run : (m.run_id ≡ old.run_id) × (m.tier ≡ old.tier) × (m.seed ≡ old.seed)
  pub schema : (m.schema_version ≡ old.schema_version) × (m.flow_id ≡ old.flow_id)
  pub place : (m.git ≡ old.git) × (m.host ≡ old.host)
  pub work : (m.scale ≡ old.scale) × (m.harness ≡ old.harness) × (m.notes ≡ old.notes)

finished_manifest-IsFinished :
    (engines : List String) (started finished : String) (old : RunManifest)
    → IsFinished engines started finished old (finished_manifest engines started finished old)
finished_manifest-IsFinished engines started finished old = record {
  started_at = refl;
  finished_at = refl;
  lists = listed engines;
  run = (refl, refl, refl);
  schema = (refl, refl);
  place = (refl, refl);
  work = (refl, refl, refl);
}
  where
    listed : (es : List String) → ListsEngines es old.engines (or_engines es old.engines)
    listed [] = refl
    listed (e ∷ es) = refl

module _ {D F : Type 0} {files : Files D F} {apart : String → String → Type 0}
    (laws : FilesLaws files apart) where
  -- The writer with the manifest that is written.
  abbrev pub finished_writer : List String → String → RunWriter F → RunWriter F
  finished_writer engines finished w = record w {
    manifest = finished_manifest engines w.started finished w.manifest;
  }

  moved :
      (dir dir' : String) (manifest : RunManifest) (lines : List (ResultLine F))
      (legacy : Option (Report F)) (d d' : D)
      → ((name : String) → laws.view d' dir' name ≡ laws.view d dir name)
      → HoldsRun laws dir manifest lines legacy d
      → HoldsRun laws dir' manifest lines legacy d'
  moved dir dir' manifest lines legacy d d' same (a, b, c) =
      (same "manifest.json" ∙ a, same "results.jsonl" ∙ b, legacy_moved legacy c)
    where
      legacy_moved :
          (l : Option (Report F))
          → HoldsLegacy laws (laws.view d dir "report.legacy.json") l
          → HoldsLegacy laws (laws.view d' dir' "report.legacy.json") l
      legacy_moved none h = h
      legacy_moved (some l) h = same "report.legacy.json" ∙ h

  publish-holds :
      (w : RunWriter F) (legacy : Option (Report F)) (d : D)
      → apart w.final_dir w.partial_dir
      → HoldsRun laws w.partial_dir w.manifest w.lines legacy d
      → After
          (λ dir d'. (dir ≡ w.final_dir) × HoldsRun laws w.final_dir w.manifest w.lines legacy d')
          (publish files w d)
  unfolding publish
  publish-holds w legacy d away h =
      let d1 = (files.remove_all w.final_dir d).1 in
      let rename = files.rename w.partial_dir w.final_dir in
      let there =
        moved w.partial_dir w.partial_dir w.manifest w.lines legacy d d1
          (λ name. laws.remove_frame w.final_dir w.partial_dir name d away) h in
      let run = λ (d' : D). HoldsRun laws w.final_dir w.manifest w.lines legacy d' in
      continue-After (λ u. run) _ (failing rename_failed rename d1) (λ _. pure w.final_dir)
        (failing-After (λ u. run) rename_failed rename d1
          (After-weaken _ (λ u. run) (rename d1) (laws.rename_holds w.partial_dir w.final_dir d1)
            λ u d' same.
              moved w.partial_dir w.final_dir w.manifest w.lines legacy d1 d' same there))
        λ u d' held. (refl, held)

  -- If `Finalize` succeeds, it returns the final directory, which then holds a manifest that records
  -- the times and the engines of the run and is otherwise the writer's, all lines of the writer in
  -- their order, and the legacy report if one was given. A file holds for sure what a buffered writer
  -- was given only once that is flushed. The partial directory is apart from the final one, so that
  -- removing the latter keeps the former.
  pub finalize-publishes :
      (w : RunWriter F) (legacy : Option (Report F)) (engines : List String) (finished dir : String)
      (d : D)
      → apart w.final_dir w.partial_dir
      → (finalize files legacy engines finished (w, d)).0 ≡ ok dir
      → (dir ≡ w.final_dir)
        × (m : RunManifest) × IsFinished engines w.started finished w.manifest m
        × HoldsRun laws w.final_dir m w.lines legacy
            (finalize files legacy engines finished (w, d)).1.1
  unfolding finalize
  finalize-publishes w legacy engines finished dir d away o =
      let w' = finished_writer engines finished w in
      let (same, held) =
        After_ok _ ((stage files w' legacy >> publish files w') d) dir
          (continue-After (λ u. HoldsRun laws w'.partial_dir w'.manifest w'.lines legacy) _
            (stage files w' legacy d) (λ _. publish files w') (stage-holds laws w' legacy d)
            λ u d' h. publish-holds w' legacy d' away h)
          o in
      (same, w'.manifest, finished_manifest-IsFinished engines w.started finished w.manifest, held)

  abbrev pub IsRename : WriterError → Type 0
  IsRename e = (x : Bytes) × (e ≡ rename_failed x)

  renamed :
      (w : RunWriter F) (e : WriterError) (d : D) (r : Outcome Bytes (Unit {0}) × D)
      → files.rename w.partial_dir w.final_dir (files.remove_all w.final_dir d).1 ≡ r
      → (publish files w d).0 ≡ err e
      → IsRename e
  unfolding publish
  renamed w e d (ok u, d') q o = absurd (ground (arith, q, o))
  renamed w e d (err x, d') q o = (x, ground (arith, q, o))
  renamed w e d (panic, d') q o = absurd (ground (arith, q, o))

  -- If `Finalize` fails before it renames the partial directory, every file of the final directory
  -- is as it was. The two directories differ.
  pub finalize-keeps :
      (w : RunWriter F) (legacy : Option (Report F)) (engines : List String)
      (finished name : String) (e : WriterError) (d : D)
      → (w.partial_dir == w.final_dir) ≡ false
      → (finalize files legacy engines finished (w, d)).0 ≡ err e
      → IsRename e
        ⊎ (laws.view (finalize files legacy engines finished (w, d)).1.1 w.final_dir name
            ≡ laws.view d w.final_dir name)
  unfolding finalize
  finalize-keeps w legacy engines finished name e d differ o =
      let w' = finished_writer engines finished w in
      at (stage files w' legacy d) ((stage-Keeps laws w' legacy w.final_dir name differ).keeps d) o
    where
      at :
          (r : Outcome WriterError (Unit {0}) × D)
          → laws.view r.1 w.final_dir name ≡ laws.view d w.final_dir name
          → (continue r.0 (λ _. publish files (finished_writer engines finished w)) r.1).0 ≡ err e
          → IsRename e
            ⊎ (laws.view
                  (continue r.0 (λ _. publish files (finished_writer engines finished w)) r.1).1
                  w.final_dir
                  name
                ≡ laws.view d w.final_dir name)
      at (ok u, d') k o = inl (renamed (finished_writer engines finished w) e d' _ refl o)
      at (err x, d') k o = inr k
      at (panic, d') k o = absurd (ground (arith, o))
