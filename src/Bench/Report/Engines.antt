-- ===== src/Bench/Report/Engines.antt =====
-- `UniqueEngines` of bench/embed_vs_sqlite/de_out.go: the engines of a run, once each, in the order
-- in which they are first seen.
use f4kvs_ffi.Prelude.{
  String, true, List, [], ◌∷◌, ◌≡◌, refl, ◌==◌, string_eq, if◌then◌else◌, contains, ap, ◌∙◌, arith,
}
use f4kvs_ffi.Bench.Phase.{PhaseResult}
use f4kvs_ffi.Bench.Report.{unseen_engines, unique_engines}

-- The names without one of them.
abbrev pub without : String → List String → List String
without x [] = []
without x (y ∷ ys) = let rest = without x ys in if x == y then rest else y ∷ rest

-- Each name but the empty one where it first stands.
abbrev pub firsts : List String → List String
firsts [] = []
firsts (x ∷ xs) = let rest = firsts xs in if x == "" then rest else x ∷ without x rest

-- The names that are not among some others.
abbrev without_all : List String → List String → List String
without_all seen [] = []
without_all seen (y ∷ ys) =
    let rest = without_all seen ys in if contains seen y then rest else y ∷ rest

without_all-seen :
    (seen : List String) (x : String) (ys : List String)
    → contains seen x ≡ true
    → without_all seen (without x ys) ≡ without_all seen ys
without_all-seen seen x [] h = refl
without_all-seen seen x (y ∷ ys) h =
    ground (arith, without_all-seen seen x ys h, string_eq.beq_iff x y)

without_all-cons :
    (seen : List String) (x : String) (ys : List String)
    → without_all (x ∷ seen) ys ≡ without_all seen (without x ys)
without_all-cons seen x [] = refl
without_all-cons seen x (y ∷ ys) = ground (arith, without_all-cons seen x ys)

without_all-none : (ys : List String) → without_all [] ys ≡ ys
without_all-none [] = refl
without_all-none (y ∷ ys) = ap (λ rest. y ∷ rest) (without_all-none ys)

module _ {F : Type 0} where
  abbrev pub profiles : List (PhaseResult F) → List String
  profiles [] = []
  profiles (r ∷ results) = r.profile ∷ profiles results

  unseen_engines-firsts :
      (seen : List String) (results : List (PhaseResult F))
      → unseen_engines seen results ≡ without_all seen (firsts (profiles results))
  unfolding unseen_engines
  unseen_engines-firsts seen [] = refl
  unseen_engines-firsts seen (r ∷ results) = ground (
    arith,
    unseen_engines-firsts seen results,
    unseen_engines-firsts (r.profile ∷ seen) results,
    without_all-seen seen r.profile (firsts (profiles results)),
    without_all-cons seen r.profile (firsts (profiles results)),
  )

  -- The engines are the profiles of the rows, each at its first place, without the empty one.
  pub unique_engines-firsts :
      (results : List (PhaseResult F)) → unique_engines results ≡ firsts (profiles results)
  unfolding unique_engines
  unique_engines-firsts results =
      unseen_engines-firsts [] results ∙ without_all-none (firsts (profiles results))
