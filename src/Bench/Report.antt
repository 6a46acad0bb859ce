-- ===== src/Bench/Report.antt =====
-- bench/embed_vs_sqlite/de_out.go and main.go: the rows of a run as lines of its result file, and
-- the integrity gate.
pub mod Gate
pub mod Engines
use f4kvs_ffi.Prelude.{
  ℕ, String, Bool, true, false, List, [], ◌∷◌, ◌++◌, ◌&&◌, ◌||◌, not, ◌==◌, leb, string_eq,
  if◌then◌else◌, length, contains, ℤ, pos, negsuc,
}
use f4kvs_ffi.Bench.Phase.{Float, PhaseResult}
use f4kvs_ffi.Bench.Manifest.{RunManifest}

pub record ResultLine (F : Type 0) : Type 0 where
  pub run_id : String
  pub engine : String
  pub phase : String
  pub metric : String
  pub value : F
  pub ops : ℕ
  pub unit : String
  pub notes : String

unfoldable pub metric_unit : String → String
metric_unit metric =
    if metric == "duration_ms"
    then "ms"
    else if metric == "ops_per_s"
    then "ops/s"
    else if metric == "row_count" || metric == "expected_row_count"
    then "count"
    else if metric == "integrity_ok"
    then "bool"
    else if metric == "bytes_on_disk"
    then "bytes"
    else ""

abbrev or_else : String → String → String
or_else text other = if text == "" then other else text

pub record RunWriter (F : Type 0) : Type 0 where
  pub runs_root : String
  pub run_id : String
  pub partial_dir : String
  pub final_dir : String
  pub manifest : RunManifest
  pub lines : List (ResultLine F)
  pub started : String

module _ {F : Type 0} where
  abbrev pub to_line : String → PhaseResult F → String → F → String → ResultLine F
  to_line run_id r metric value unit = record {
    run_id = run_id;
    engine = r.profile;
    phase = r.phase;
    metric = metric;
    value = value;
    ops = r.ops;
    unit = unit;
    notes = or_else r.extra r.durability;
  }

  unfoldable pub phase_result_to_long : String → PhaseResult F → List (ResultLine F)
  unfolding metric_unit
  phase_result_to_long run_id r =
      if not (r.metric_only == "")
      then to_line run_id r r.metric_only r.value (or_else r.unit (metric_unit r.metric_only)) ∷ []
      else (to_line run_id r "duration_ms" r.ms "ms"
          ∷ to_line run_id r "ops_per_s" r.ops_per_s "ops/s"
          ∷ [])

  unfoldable pub append_phase_results : List (PhaseResult F) → RunWriter F → RunWriter F
  unfolding phase_result_to_long
  append_phase_results [] w = w
  append_phase_results (r ∷ results) w =
      append_phase_results results (record w { lines = w.lines ++ phase_result_to_long w.run_id r })

  unfoldable pub append_line : ResultLine F → RunWriter F → RunWriter F
  append_line line w =
      let line' = (if line.run_id == "" then record line { run_id = w.run_id } else line) in
      record w { lines = w.lines ++ line' ∷ [] }

  unfoldable pub line_count : RunWriter F → ℕ
  line_count w = length w.lines

  -- `seen` is the map of the loop, `UniqueEngines` starts with an empty one.
  unfoldable pub unseen_engines : List String → List (PhaseResult F) → List String
  unseen_engines seen [] = []
  unseen_engines seen (r ∷ results) =
      let skip = r.profile == "" || contains seen r.profile in
      let rest = unseen_engines (if skip then seen else r.profile ∷ seen) results in
      if skip then rest else r.profile ∷ rest

  unfoldable pub unique_engines : List (PhaseResult F) → List String
  unfolding unseen_engines
  unique_engines results = unseen_engines [] results

module _ {F : Type 0} ⦃float : Float F⦄ where
  -- `… && … && ….Value == 0`
  abbrev pub fails : String → String → F → Bool
  fails phase metric value =
      phase == "post_restart_row_count" && metric == "integrity_ok" && float.is_zero value

  unfoldable pub has_integrity_fail : List (PhaseResult F) → Bool
  has_integrity_fail [] = false
  has_integrity_fail (r ∷ results) =
      let rest = has_integrity_fail results in
      if fails r.phase r.metric_only r.value then true else rest

  unfoldable pub any_fails : List (ResultLine F) → Bool
  any_fails [] = false
  any_fails (line ∷ lines) =
      let rest = any_fails lines in if fails line.phase line.metric line.value then true else rest

  unfoldable pub has_integrity_failure : RunWriter F → Bool
  unfolding any_fails
  has_integrity_failure w = any_fails w.lines

unfoldable pub derive_tier : ℤ → String
derive_tier (negsuc _) = "micro"
derive_tier (pos chunks) =
    if leb chunks 2000 then "micro" else if leb chunks 100000 then "meso" else "macro"
