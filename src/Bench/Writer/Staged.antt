-- ===== src/Bench/Writer/Staged.antt =====
-- What `Finalize` of bench/embed_vs_sqlite/de_out.go stages in the partial directory.
use f4kvs_ffi.Prelude.{
  String, false, Option, none, some, List, [], ◌∷◌, ◌++◌, ◌≡◌, refl, sym, ap, ◌∙◌, ◌&&◌, ◌==◌,
  string_eq, if_cases, append-nil, append_assoc, arith,
}
use f4kvs_ffi.Prelude.Exec.{Exec, Outcome, ok, err, panic, continue, ◌>>◌}
use f4kvs_ffi.Prelude.After.{After, After-intro, After-and, After-weaken, continue-After}
use f4kvs_ffi.Bench.Manifest.{RunManifest, Report}
use f4kvs_ffi.Bench.Report.{ResultLine, RunWriter}
use f4kvs_ffi.Bench.Writer.{
  Content, manifest_json, result_lines, report_json, WriterError, file_failed, Files, failing,
  is_encodable, closed_on_error, flushed_lines, write_lines, write_results, write_legacy, stage,
}
use f4kvs_ffi.Bench.Writer.Laws.{FilesLaws, failing-After}

module _ {D F : Type 0} {files : Files D F} {apart : String → String → Type 0}
    (laws : FilesLaws files apart) where
  -- A call that keeps a file, whether it fails or not.
  pub record Keeps {E A : Type 0} (dir name : String) (m : Exec D E A) : Type 0 where
    pub keeps : (d : D) → laws.view (m d).1 dir name ≡ laws.view d dir name

  seq-Keeps :
      {E A B : Type 0} {dir name : String} {m : Exec D E A} {k : Exec D E B}
      → Keeps dir name m
      → Keeps dir name k
      → Keeps dir name (m >> k)
  seq-Keeps {A = A} {dir = dir} {name = name} {m = m} {k = k} f g = record {
    keeps = λ d. at d (m d) (f.keeps d);
  }
    where
      at :
          (d : D) (r : Outcome _ A × D)
          → laws.view r.1 dir name ≡ laws.view d dir name
          → laws.view (continue r.0 (λ _. k) r.1).1 dir name ≡ laws.view d dir name
      at d (ok a, d') h = g.keeps d' ∙ h
      at d (err e, d') h = h
      at d (panic, d') h = h

  write_lines-Keeps :
      (dir dir' name' : String) (lines : List (ResultLine F))
      → (dir == dir' && "results.jsonl" == name') ≡ false
      → Keeps dir' name' (write_lines files dir lines)
  unfolding write_lines
  write_lines-Keeps dir dir' name' [] c = record { keeps = λ d. refl }
  write_lines-Keeps dir dir' name' (line ∷ lines) c =
      if_cases (Keeps dir' name') (files.is_finite line.value) _ _
        (λ _.
          seq-Keeps
            (record { keeps = λ d. laws.append_frame dir "results.jsonl" dir' name' line d c })
            (write_lines-Keeps dir dir' name' lines c))
        λ _. record { keeps = λ d. refl }

  closed_on_error-Keeps :
      (dir dir' name' : String) (m : Exec D WriterError (Unit {0}))
      → Keeps dir' name' m
      → Keeps dir' name' (λ d. closed_on_error files dir (m d))
  closed_on_error-Keeps dir dir' name' m f = record { keeps = λ d. at d (m d) (f.keeps d) }
    where
      at :
          (d : D) (r : Outcome WriterError (Unit {0}) × D)
          → laws.view r.1 dir' name' ≡ laws.view d dir' name'
          → laws.view (closed_on_error files dir r).1 dir' name' ≡ laws.view d dir' name'
      at d (ok u, d') h = h
      at d (err e, d') h = laws.close_holds dir "results.jsonl" dir' name' d' ∙ h
      at d (panic, d') h = h

  closed_on_error-After :
      (dir : String) (Q : D → Type 0) (r : Outcome WriterError (Unit {0}) × D)
      → After (λ u. Q) r
      → After (λ u. Q) (closed_on_error files dir r)
  closed_on_error-After dir Q (ok u, d) h = h
  closed_on_error-After dir Q (err e, d) h = tt
  closed_on_error-After dir Q (panic, d) h = tt

  write_results-Keeps :
      (dir dir' name' : String) (lines : List (ResultLine F))
      → (dir == dir' && "results.jsonl" == name') ≡ false
      → Keeps dir' name' (write_results files dir lines)
  unfolding write_results
  write_results-Keeps dir dir' name' lines c =
      seq-Keeps
        (seq-Keeps (record { keeps = λ d. laws.create_frame dir "results.jsonl" dir' name' d c })
          (closed_on_error-Keeps dir dir' name' (flushed_lines files dir lines) (
            seq-Keeps (write_lines-Keeps dir dir' name' lines c)
              (record { keeps = λ d. laws.flush_frame dir "results.jsonl" dir' name' d c }))))
        (record { keeps = λ d. laws.close_holds dir "results.jsonl" dir' name' d })

  write_legacy-Keeps :
      (dir dir' name' : String) (legacy : Option (Report F))
      → (dir == dir' && "report.legacy.json" == name') ≡ false
      → Keeps dir' name' (write_legacy files dir legacy)
  unfolding write_legacy
  write_legacy-Keeps dir dir' name' none c = record { keeps = λ d. refl }
  write_legacy-Keeps dir dir' name' (some legacy) c =
      if_cases (Keeps dir' name') (is_encodable files legacy.results) _ _
        (λ _. record {
          keeps =
              λ d. laws.write_frame dir "report.legacy.json" dir' name' (report_json legacy) d c;
        })
        λ _. record { keeps = λ d. refl }

  -- Staging touches the partial directory only.
  pub stage-Keeps :
      (w : RunWriter F) (legacy : Option (Report F)) (dir name : String)
      → (w.partial_dir == dir) ≡ false
      → Keeps dir name (stage files w legacy)
  unfolding stage
  stage-Keeps w legacy dir name c =
      seq-Keeps
        (seq-Keeps
          (record {
            keeps = λ d.
                laws.write_frame w.partial_dir "manifest.json" dir name (manifest_json w.manifest) d
                  (ground (arith, c));
          })
          (write_results-Keeps w.partial_dir dir name w.lines (ground (arith, c))))
        (write_legacy-Keeps w.partial_dir dir name legacy (ground (arith, c)))

  write_lines-given :
      (dir : String) (lines : List (ResultLine F)) (d : D)
      → After
          (λ u d'. laws.given d' dir "results.jsonl" ≡ laws.given d dir "results.jsonl" ++ lines)
          (write_lines files dir lines d)
  unfolding write_lines
  write_lines-given dir [] d = sym (append-nil (laws.given d dir "results.jsonl"))
  write_lines-given dir (line ∷ lines) d =
      let before = laws.given d dir "results.jsonl" in
      let all = λ (d' : D). laws.given d' dir "results.jsonl" ≡ before ++ (line ∷ lines) in
      let more = λ (d' : D). laws.given d' dir "results.jsonl" ≡ before ++ line ∷ [] in
      let add = files.append_line dir "results.jsonl" line in
      if_cases (λ (m : Exec D WriterError (Unit {0})). After (λ u. all) (m d))
        (files.is_finite line.value) _ _
        (λ _.
          continue-After (λ u. more) (λ u. all) (failing file_failed add d)
            (λ _. write_lines files dir lines)
            (failing-After (λ u. more) file_failed add d
              (laws.append_holds dir "results.jsonl" line d))
            λ u d' h.
              After-weaken _ (λ u. all) (write_lines files dir lines d')
                (write_lines-given dir lines d')
                λ u d'' q. q ∙ ap (λ ls. ls ++ lines) h ∙ append_assoc before (line ∷ []) lines)
        λ _. tt

  -- After the flush the file holds the lines.
  flushed_lines-holds :
      (dir : String) (lines : List (ResultLine F)) (d : D)
      → laws.given d dir "results.jsonl" ≡ []
      → After
          (λ u d'. laws.view d' dir "results.jsonl" ≡ some (result_lines lines))
          (flushed_lines files dir lines d)
  flushed_lines-holds dir lines d none_yet =
      let flush = files.flush dir "results.jsonl" in
      continue-After
        (λ u d'. laws.given d' dir "results.jsonl" ≡ laws.given d dir "results.jsonl" ++ lines)
        (λ u d'. laws.view d' dir "results.jsonl" ≡ some (result_lines lines))
        (write_lines files dir lines d) (λ _. failing file_failed flush)
        (write_lines-given dir lines d)
        λ u d' h. failing-After _ file_failed flush d' (
          After-weaken _ _ (flush d') (laws.flush_holds dir "results.jsonl" d')
            λ u d'' q. q ∙ ap (λ ls. some (result_lines ls)) (h ∙ ap (λ ls. ls ++ lines) none_yet))

  write_results-holds :
      (dir : String) (lines : List (ResultLine F)) (d : D)
      → After
          (λ u d'. laws.view d' dir "results.jsonl" ≡ some (result_lines lines))
          (write_results files dir lines d)
  unfolding write_results
  write_results-holds dir lines d =
      let create = failing {E = WriterError} file_failed (files.create dir "results.jsonl") in
      let close = files.close dir "results.jsonl" in
      let write = λ (d : D). closed_on_error files dir (flushed_lines files dir lines d) in
      let all = λ (d' : D). laws.view d' dir "results.jsonl" ≡ some (result_lines lines) in
      continue-After (λ u. all) _ ((create >> write) d) (λ _. failing file_failed close)
        (continue-After (λ u d'. laws.given d' dir "results.jsonl" ≡ []) (λ u. all) (create d)
          (λ _. write)
          (failing-After _ file_failed (files.create dir "results.jsonl") d
            (laws.create_holds dir "results.jsonl" d))
          λ u d' h.
            closed_on_error-After dir all (flushed_lines files dir lines d')
              (flushed_lines-holds dir lines d' h))
        λ u d' h.
          failing-After (λ u. all) file_failed close d'
            (After-intro (λ u. all) (close d')
              λ u o. laws.close_holds dir "results.jsonl" dir "results.jsonl" d' ∙ h)

  -- The legacy report, if there is one.
  abbrev pub HoldsLegacy : Option (Content F) → Option (Report F) → Type 0
  HoldsLegacy found none = Unit
  HoldsLegacy found (some legacy) = found ≡ some (report_json legacy)

  write_legacy-holds :
      (dir : String) (legacy : Option (Report F)) (d : D)
      → After
          (λ u d'. HoldsLegacy (laws.view d' dir "report.legacy.json") legacy)
          (write_legacy files dir legacy d)
  unfolding write_legacy
  write_legacy-holds dir none d = tt
  write_legacy-holds dir (some legacy) d =
      let write = files.write_file dir "report.legacy.json" (report_json legacy) in
      let held = λ (d' : D). HoldsLegacy (laws.view d' dir "report.legacy.json") (some legacy) in
      if_cases (λ (m : Exec D WriterError (Unit {0})). After (λ u. held) (m d))
        (is_encodable files legacy.results) _ _
        (λ _.
          failing-After (λ u. held) file_failed write d
            (laws.write_holds dir "report.legacy.json" (report_json legacy) d))
        λ _. tt

  -- The three files of a run in a directory.
  abbrev pub HoldsRun : String → RunManifest → List (ResultLine F) → Option (Report F) → D → Type 0
  HoldsRun dir manifest lines legacy d =
      (laws.view d dir "manifest.json" ≡ some (manifest_json manifest))
      × (laws.view d dir "results.jsonl" ≡ some (result_lines lines))
      × HoldsLegacy (laws.view d dir "report.legacy.json") legacy

  pub stage-holds :
      (w : RunWriter F) (legacy : Option (Report F)) (d : D)
      → After (λ u. HoldsRun w.partial_dir w.manifest w.lines legacy) (stage files w legacy d)
  unfolding stage
  stage-holds w legacy d =
      let dir = w.partial_dir in
      let write = files.write_file dir "manifest.json" (manifest_json w.manifest) in
      let first = failing {E = WriterError} file_failed write in
      let lines = write_results files dir w.lines in
      let manifest =
        λ (d' : D). laws.view d' dir "manifest.json" ≡ some (manifest_json w.manifest) in
      let results = λ (d' : D). laws.view d' dir "results.jsonl" ≡ some (result_lines w.lines) in
      let apart_lines =
        λ (d' : D). (write_results-Keeps dir dir "manifest.json" w.lines (ground arith)).keeps d' in
      let legacy_keeps = λ (name : String) (other : ("report.legacy.json" == name) ≡ false).
        write_legacy-Keeps dir dir name legacy (ground (arith, other)) in
      continue-After (λ u d'. manifest d' × results d') _ ((first >> lines) d)
        (λ _. write_legacy files dir legacy)
        (continue-After (λ u d'. manifest d') _ (first d) (λ _. lines)
          (failing-After _ file_failed write d
            (laws.write_holds dir "manifest.json" (manifest_json w.manifest) d))
          λ u d' h.
            After-weaken _ _ (lines d')
              (After-and _
                (λ d''. laws.view d'' dir "manifest.json" ≡ laws.view d' dir "manifest.json")
                (lines d') (write_results-holds dir w.lines d') (apart_lines d'))
              λ u d'' q. (q.1 ∙ h, q.0))
        λ u d' h.
          After-weaken _ _ (write_legacy files dir legacy d')
            (After-and _
              (λ d''.
                (laws.view d'' dir "manifest.json" ≡ laws.view d' dir "manifest.json")
                × (laws.view d'' dir "results.jsonl" ≡ laws.view d' dir "results.jsonl"))
              (write_legacy files dir legacy d') (write_legacy-holds dir legacy d')
              (
                (legacy_keeps "manifest.json" refl).keeps d',
                (legacy_keeps "results.jsonl" refl).keeps d',
              ))
            λ u d'' q. (q.1.0 ∙ h.0, q.1.1 ∙ h.1, q.0)
