-- ===== src/Bench/Compare.antt =====
-- bench/embed_vs_sqlite/main.go: the lines under a phase of the printed table that compare two
-- profiles. A line is the names and the ratio of its format; `none` is the empty line.
pub mod Winner
use f4kvs_ffi.Prelude.{
  String, Bool, true, false, Option, none, some, List, [], ◌∷◌, ◌++◌, ◌&&◌, ◌||◌, ◌==◌, string_eq,
  if◌then◌else◌,
}
use f4kvs_ffi.Bench.Phase.{Float, PhaseResult, zero_float}

-- "%s %.1f× faster than %s"
pub record Speedup (F : Type 0) : Type 0 where
  pub faster : String
  pub ratio : F
  pub slower : String

pub data Label : Type 0 where
  label : String → Label
  -- "bulk-import vs batch (" + profile + ")"
  bulk_vs_batch : String → Label

pub record CompareLine (F : Type 0) : Type 0 where
  pub label : Label
  pub line : Speedup F

abbrev pub is_batched : String → Bool
is_batched phase = phase == "chunk_batch_put_batched" || phase == "chunk_batch_put_bulk_import"

module _ {F : Type 0} where
  -- `if line != "" { out = append(out, …) }`
  abbrev pub with_label : Label → Option (Speedup F) → List (CompareLine F)
  with_label l none = []
  with_label l (some line) = record { label = l; line = line } ∷ []

module _ {F : Type 0} ⦃float : Float F⦄ where
  unfoldable pub phase_ms : List (PhaseResult F) → String → F
  phase_ms [] profile = zero_float
  phase_ms (r ∷ rows) profile =
      let rest = phase_ms rows profile in if r.profile == profile then r.ms else rest

  unfoldable pub speed_ratio_line : String → F → String → F → Option (Speedup F)
  speed_ratio_line faster_name faster_ms slower_name slower_ms =
      if float.is_zero faster_ms || float.is_zero slower_ms
      then none
      else if float.above faster_ms slower_ms
      then some (record {
        faster = slower_name;
        ratio = float.over faster_ms slower_ms;
        slower = faster_name;
      })
      else some (record {
        faster = faster_name;
        ratio = float.over slower_ms faster_ms;
        slower = slower_name;
      })

  -- The loop of `ratioLine`, with what it has found so far.
  unfoldable pub last_ms : List (PhaseResult F) → String → F → F
  last_ms [] profile found = found
  last_ms (r ∷ rows) profile found =
      last_ms rows profile (if r.profile == profile then r.ms else found)

  unfoldable pub ratio_line : List (PhaseResult F) → String → String → Option (Speedup F)
  unfolding last_ms
  ratio_line rows f4_profile sql_profile =
      let f4 = last_ms rows f4_profile zero_float in
      let sql = last_ms rows sql_profile zero_float in
      if float.is_zero f4 || float.is_zero sql
      then none
      else if float.above f4 sql
      then some (record { faster = sql_profile; ratio = float.over f4 sql; slower = f4_profile })
      else some (record { faster = f4_profile; ratio = float.over sql f4; slower = sql_profile })

  -- `if a > 0 && b > 0 { … speedRatioLine(…) }`
  abbrev pub if_positive : Label → String → F → String → F → List (CompareLine F)
  if_positive l a x b y =
      if float.above x zero_float && float.above y zero_float
      then with_label l (speed_ratio_line a x b y)
      else []

  unfoldable pub bulk_compares :
      List (PhaseResult F) → List (PhaseResult F) → List String → List (CompareLine F)
  unfolding phase_ms speed_ratio_line
  bulk_compares batched_rows rows [] = []
  bulk_compares batched_rows rows (profile ∷ profiles) =
      let rest = bulk_compares batched_rows rows profiles in
      if_positive (bulk_vs_batch profile) "chunk_batch_put_batched" (phase_ms batched_rows profile)
        "chunk_batch_put_bulk_import" (phase_ms rows profile)
      ++ rest

  -- The rows of each phase are the argument `by_phase`.
  unfoldable pub phase_compares :
      (String → List (PhaseResult F)) → List (PhaseResult F) → String → List (CompareLine F)
  unfolding ratio_line phase_ms speed_ratio_line bulk_compares
  phase_compares by_phase rows phase =
      with_label (label (if is_batched phase then "batched compare" else "fair compare (segment)"))
        (ratio_line rows "f4kvs_wal_segment" "sqlite_wal_full")
      ++ with_label
          (label
            (if is_batched phase then "batched compare (indexed)" else "fair compare (indexed v2)"))
          (ratio_line rows "f4kvs_wal_indexed" "sqlite_wal_full")
      ++ (if phase == "chunk_batch_put"
          then if_positive (label "indexed v2 vs segment") "f4kvs_wal_indexed"
              (phase_ms rows "f4kvs_wal_indexed") "f4kvs_wal_segment"
              (phase_ms rows "f4kvs_wal_segment")
          else [])
      ++ with_label (label "fair compare (frame)")
          (ratio_line rows "f4kvs_wal_frame" "sqlite_wal_full")
      ++ with_label (label "segment vs frame")
          (ratio_line rows "f4kvs_wal_segment" "f4kvs_wal_frame")
      ++ (if phase == "chunk_batch_put_bulk_import"
          then bulk_compares (by_phase "chunk_batch_put_batched") rows
              ("f4kvs_wal_segment" ∷ "f4kvs_wal_frame" ∷ "f4kvs_group_commit_10ms" ∷ [])
          else [])
      ++ with_label (label "group-commit compare")
          (ratio_line rows "f4kvs_group_commit_10ms" "sqlite_wal_full")
      ++ (if phase == "chunk_batch_put_durable"
          then with_label (label "durable ingest compare")
              (ratio_line rows "f4kvs_group_commit_10ms" "sqlite_wal_full")
          else [])
      ++ (if phase == "chunk_batch_put_flush"
          then with_label (label "wal-flush compare")
              (ratio_line rows "f4kvs_group_commit_10ms" "sqlite_wal_full")
          else [])
