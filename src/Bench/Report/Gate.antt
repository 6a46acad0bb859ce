-- ===== src/Bench/Report/Gate.antt =====
-- The two integrity gates of a run, `hasIntegrityFail` of bench/embed_vs_sqlite/main.go and
-- `HasIntegrityFailure` of de_out.go, and the lines that they read.
use mathlib.Core.Path.{subst}
use f4kvs_ffi.Prelude.{
  ℕ, ◌+◌, String, false, List, [], ◌∷◌, ◌++◌, ◌≡◌, refl, sym, ◌∙◌, ◌||◌, not, ◌==◌, string_eq,
  if◌then◌else◌, if_cases, length, length-append, append-nil, append_assoc, All, All-append_intro,
  arith,
}
use f4kvs_ffi.Bench.Phase.{Float, PhaseResult}
use f4kvs_ffi.Bench.Report.{
  ResultLine, RunWriter, phase_result_to_long, append_phase_results, fails, has_integrity_fail,
  any_fails, has_integrity_failure,
}

no_metric : (m : String) → not (m == "") ≡ false → (m == "integrity_ok") ≡ false
no_metric m e =
    subst (λ x. (x == "integrity_ok") ≡ false)
      (sym ((string_eq.beq_iff m "").0 (ground (arith, e)))) refl

module _ {F : Type 0} ⦃float : Float F⦄ where
  any_fails-append :
      (xs ys : List (ResultLine F)) → any_fails (xs ++ ys) ≡ (any_fails xs || any_fails ys)
  unfolding any_fails
  any_fails-append [] ys = refl
  any_fails-append (x ∷ xs) ys = ground (arith, any_fails-append xs ys)

  -- A row fails exactly if one of its lines does.
  any_fails-phase_result_to_long :
      (run_id : String) (r : PhaseResult F)
      → any_fails (phase_result_to_long run_id r) ≡ fails r.phase r.metric_only r.value
  unfolding any_fails phase_result_to_long
  any_fails-phase_result_to_long run_id r =
      let P =
        λ (lines : List (ResultLine F)). any_fails lines ≡ fails r.phase r.metric_only r.value in
      if_cases P (not (r.metric_only == "")) _ _ (λ e. ground arith)
        λ e. ground (arith, no_metric r.metric_only)

  -- After the rows of a run are appended, the gate on the lines of the writer fails exactly if it
  -- failed before or the gate on the rows does.
  pub has_integrity_failure-append_phase_results :
      (results : List (PhaseResult F)) (w : RunWriter F)
      → has_integrity_failure (append_phase_results results w)
        ≡ (has_integrity_failure w || has_integrity_fail results)
  unfolding has_integrity_failure append_phase_results has_integrity_fail
  has_integrity_failure-append_phase_results [] w = ground arith
  has_integrity_failure-append_phase_results (r ∷ results) w = ground (
    arith,
    has_integrity_failure-append_phase_results results
        (record w { lines = w.lines ++ phase_result_to_long w.run_id r }),
    any_fails-append w.lines (phase_result_to_long w.run_id r),
    any_fails-phase_result_to_long w.run_id r,
  )

module _ {F : Type 0} where
  -- The lines that a row gives.
  abbrev pub lines_of : PhaseResult F → ℕ
  lines_of r = if r.metric_only == "" then 2 else 1

  abbrev pub lines_of_all : List (PhaseResult F) → ℕ
  lines_of_all [] = 0
  lines_of_all (r ∷ results) = lines_of r + lines_of_all results

  -- Every line of a run carries the id of the run.
  abbrev pub InRun : String → ResultLine F → Type 0
  InRun run_id line = line.run_id ≡ run_id

  phase_result_to_long-lines :
      (run_id : String) (r : PhaseResult F)
      → (length (phase_result_to_long run_id r) ≡ lines_of r)
        × All (InRun run_id) (phase_result_to_long run_id r)
  unfolding phase_result_to_long
  phase_result_to_long-lines run_id r =
      let P =
        λ (lines : List (ResultLine F)). (length lines ≡ lines_of r) × All (InRun run_id) lines in
      if_cases P (not (r.metric_only == "")) _ _ (λ e. (ground arith, (refl, tt)))
        λ e. (ground arith, (refl, (refl, tt)))

  -- Appending rows keeps the lines before them and adds lines with the id of the run: one for a
  -- row with a metric of its own, and two for any other.
  pub append_phase_results-lines :
      (results : List (PhaseResult F)) (w : RunWriter F)
      → (added : List (ResultLine F)) × ((append_phase_results results w).lines ≡ w.lines ++ added)
        × (length added ≡ lines_of_all results)
        × All (InRun w.run_id) added
  unfolding append_phase_results
  append_phase_results-lines [] w = ([], sym (append-nil w.lines), refl, tt)
  append_phase_results-lines (r ∷ results) w =
      let this = phase_result_to_long w.run_id r in
      let (count, ids) = phase_result_to_long-lines w.run_id r in
      let (added, same, length_added, all) =
        append_phase_results-lines results (record w { lines = w.lines ++ this }) in
      (
        this ++ added,
        same ∙ append_assoc w.lines this added,
        omega (arith, length-append this added),
        All-append_intro _ this added ids all,
      )
