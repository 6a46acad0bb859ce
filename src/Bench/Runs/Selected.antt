-- ===== src/Bench/Runs/Selected.antt =====
-- The rows of a run of bench/embed_vs_sqlite/main.go are of the profiles that it wants.
use mathlib.Core.Path.{subst}
use f4kvs_ffi.Prelude.{
  ℕ, suc, Bytes, String, Bool, true, false, List, [], ◌∷◌, ◌≡◌, refl, sym, ap, ◌∙◌, not, ◌&&◌,
  Bool-cases, inl, inr, All, ℤ, if◌then◌else◌, if_cases, contains, ◌==◌, string_eq,
  All-append_intro, arith,
}
use f4kvs_ffi.Prelude.Exec.{ok}
use f4kvs_ffi.Prelude.After.{After_ok, After-weaken}
use f4kvs_ffi.Ffi.Lsm.{Lsm}
use f4kvs_ffi.Bench.Phase.{Float, PhaseResult}
use f4kvs_ffi.Bench.Profiles.{want_profile, known_profiles}
use f4kvs_ffi.Bench.Run.{Disk, World, Program}
use f4kvs_ffi.Bench.Phases.{Load, join}
use f4kvs_ffi.Bench.Sqlite.{Sql, SqliteProfile}
use f4kvs_ffi.Bench.Plan.{
  without, EngineRun, ascii, expand_all, engine_runs, restart_runs, sqlite_full, sqlite_normal,
}
use f4kvs_ffi.Bench.Runs.{
  if_wanted, sqlite_profiles, run_engines, run_sqlite, restart_engines, restart_sqlite,
  run_benchmarks,
}
use f4kvs_ffi.Bench.Rows.{Emits, OfProfile, no_rows-Emits, and_rows-Emits}
use f4kvs_ffi.Bench.Rows.Emitted.{
  bench_f4kvs-Emits, bench_f4kvs_post_restart-Emits, bench_sqlite_post_restart-Emits,
}
use f4kvs_ffi.Bench.Rows.Stored.{bench_sqlite-Emits}

abbrev pub IsWanted : {F : Type 0} → List String → PhaseResult F → Type 0
IsWanted want r = want_profile want r.profile ≡ true

own_rows-IsWanted :
    {F : Type 0} (want : List String) (name : String) (rows : List (PhaseResult F))
    → want_profile want name ≡ true
    → All (OfProfile name) rows
    → All (IsWanted want) rows
own_rows-IsWanted want name [] h all = tt
own_rows-IsWanted want name (r ∷ rows) h all = (
  subst (λ p. want_profile want p ≡ true) (sym all.0) h,
  own_rows-IsWanted want name rows h all.1,
)

module _ {D F : Type 0} (want : List String) where
  IsWanted-Emits :
      (name : String) (m : Program D (List (PhaseResult F)))
      → want_profile want name ≡ true
      → Emits (OfProfile name) m
      → Emits (IsWanted want) m
  IsWanted-Emits name m h f = record {
    emits = λ w.
        After-weaken _ _ (m w) (f.emits w) λ rows w' all. own_rows-IsWanted want name rows h all;
  }

  if_wanted-Emits :
      (name : String) (m : Program D (List (PhaseResult F)))
      → Emits (OfProfile name) m
      → Emits (IsWanted want) (if_wanted want name m)
  if_wanted-Emits name m f =
      if_cases (Emits (IsWanted want)) (want_profile want name) m _ (λ h. IsWanted-Emits name m h f)
        λ _. no_rows-Emits

sqlite_profiles-wanted :
    (want : List String) → All (λ p. want_profile want p.name ≡ true) (sqlite_profiles want)
unfolding sqlite_profiles sqlite_full sqlite_normal
sqlite_profiles-wanted want =
    let P = λ (profs : List SqliteProfile). All (λ p. want_profile want p.name ≡ true) profs in
    All-append_intro _ (if want_profile want "sqlite_wal_full" then sqlite_full ∷ [] else []) _
      (if_cases P (want_profile want "sqlite_wal_full") _ _ (λ h. (h, tt)) λ _. tt)
      (if_cases P (want_profile want "sqlite_wal_normal") _ _ (λ h. (h, tt)) λ _. tt)

module _ {D S Db F : Type 0} (on : Disk D S) (sql : Sql D Db) ⦃lsm : Lsm S⦄ ⦃float : Float F⦄
    (size : ℤ) (want : List String) (tmp : Bytes) (load : Load) where
  run_engines-Emits :
      (skip : Bool) (runs : List EngineRun)
      → Emits (IsWanted {F = F} want) (run_engines on sql size want tmp load skip runs)
  unfolding run_engines
  run_engines-Emits skip [] = no_rows-Emits
  run_engines-Emits skip (r ∷ runs) =
      and_rows-Emits
        (if_wanted-Emits want r.profile _ (
          bench_f4kvs-Emits on size (join tmp (ascii r.dir)) r.profile load r.durability r.opts
            skip))
        (run_engines-Emits skip runs)

  restart_engines-Emits :
      (runs : List EngineRun)
      → Emits (IsWanted {F = F} want) (restart_engines on sql size want tmp load runs)
  unfolding restart_engines
  restart_engines-Emits [] = no_rows-Emits
  restart_engines-Emits (r ∷ runs) =
      and_rows-Emits
        (if_wanted-Emits want r.profile _
          (bench_f4kvs_post_restart-Emits on size (join tmp (ascii r.dir)) r.profile r.opts load))
        (restart_engines-Emits runs)

  run_sqlite-Emits :
      (skip : Bool) (i : ℕ) (profs : List SqliteProfile)
      → All (λ p. want_profile want p.name ≡ true) profs
      → Emits (IsWanted {F = F} want) (run_sqlite on sql size want tmp load skip i profs)
  unfolding run_sqlite
  run_sqlite-Emits skip i [] h = no_rows-Emits
  run_sqlite-Emits true i (prof ∷ profs) h =
      and_rows-Emits
        (IsWanted-Emits want prof.name _ h.0
          (bench_sqlite-Emits sql (record prof { per_commit = false }) load _))
        (run_sqlite-Emits true (suc i) profs h.1)
  run_sqlite-Emits false i (prof ∷ profs) h =
      and_rows-Emits (IsWanted-Emits want prof.name _ h.0 (bench_sqlite-Emits sql prof load _))
        (run_sqlite-Emits false (suc i) profs h.1)

  restart_sqlite-Emits :
      (file : String) (prof : SqliteProfile)
      → Emits (IsWanted {F = F} want) (restart_sqlite on sql size want tmp load file prof)
  restart_sqlite-Emits file prof =
      if_wanted-Emits want prof.name _
        (bench_sqlite_post_restart-Emits sql (join tmp (ascii file)) prof load)

  run_benchmarks-Emits :
      (skip : Bool) → Emits (IsWanted {F = F} want) (run_benchmarks on sql size want tmp load skip)
  unfolding run_benchmarks
  run_benchmarks-Emits skip = and_rows-Emits (run_engines-Emits skip engine_runs) (
      and_rows-Emits (run_sqlite-Emits skip 0 (sqlite_profiles want) (sqlite_profiles-wanted want))
        (and_rows-Emits (restart_engines-Emits restart_runs) (
          and_rows-Emits (restart_sqlite-Emits "restart_sqlite_full.db" sqlite_full)
            (restart_sqlite-Emits "restart_sqlite_normal.db" sqlite_normal))))

  -- Every row that a run gives, of the measured phases and of the integrity checks, is of a profile
  -- that the run wants.
  pub run_benchmarks-IsWanted :
      (skip : Bool) (w : World D) (rows : List (PhaseResult F))
      → (run_benchmarks on sql size want tmp load skip w).0 ≡ ok rows
      → All (IsWanted want) rows
  run_benchmarks-IsWanted skip w rows o =
      After_ok _ (run_benchmarks on sql size want tmp load skip w) rows
        ((run_benchmarks-Emits skip).emits w) o

all_but_relaxed :
    (choice : List String)
    → contains choice "all" ≡ true
    → expand_all false choice ≡ without "sqlite_wal_normal" known_profiles
unfolding expand_all
all_but_relaxed choice all = ground (arith, all)

seven :
    (name : String)
    → want_profile (without "sqlite_wal_normal" known_profiles) name
      ≡ (contains known_profiles name && not (name == "sqlite_wal_normal"))
unfolding want_profile without
seven name = elim (Bool-cases (name == "sqlite_wal_normal")) [
  | inl relaxed ↦
      let same = (string_eq.beq_iff name "sqlite_wal_normal").0 relaxed in
      subst
        (λ n.
          want_profile (without "sqlite_wal_normal" known_profiles) n
          ≡ (contains known_profiles n && not (n == "sqlite_wal_normal")))
        (sym same) refl
  | inr other ↦ ground (
    arith,
    other,
    string_eq.beq_iff name "sqlite_wal_normal",
    string_eq.beq_iff "sqlite_wal_normal" name,
  )
]

-- Of all profiles without the relaxed ones, "sqlite_wal_normal" is not wanted, and every other
-- known one is.
pub expand_all-relaxed :
    (choice : List String) (name : String)
    → contains choice "all" ≡ true
    → want_profile (expand_all false choice) name
      ≡ (contains known_profiles name && not (name == "sqlite_wal_normal"))
expand_all-relaxed choice name all =
    ap (λ want. want_profile want name) (all_but_relaxed choice all) ∙ seven name
