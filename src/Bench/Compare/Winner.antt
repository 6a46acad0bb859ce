-- ===== src/Bench/Compare/Winner.antt =====
-- That the comparisons of bench/embed_vs_sqlite/main.go name the right profile as the faster one.
use f4kvs_ffi.Prelude.{
  String, true, false, some, List, [], ◌∷◌, ◌≡◌, ◌⊎◌, refl, string_eq, contains, arith,
}
use f4kvs_ffi.Bench.Phase.{Float, PhaseResult, zero_float}
use f4kvs_ffi.Bench.Compare.{Speedup, last_ms, ratio_line}
use f4kvs_ffi.Bench.Report.Engines.{profiles}

module _ {F : Type 0} ⦃float : Float F⦄ where
  -- By the times of the names, the one that is named faster is not the slower one, and the ratio is
  -- the longer time over the shorter.
  abbrev pub IsFair : (String → F) → Speedup F → Type 0
  IsFair time line =
      ((float.above (time line.slower) (time line.faster) ≡ true)
        ⊎ (float.above (time line.faster) (time line.slower) ≡ false))
      × (line.ratio ≡ float.over (time line.slower) (time line.faster))

  last_ms-missing :
      (rows : List (PhaseResult F)) (p : String) (x : F)
      → contains (profiles rows) p ≡ false
      → last_ms rows p x ≡ x
  unfolding last_ms
  last_ms-missing [] p x h = refl
  last_ms-missing (r ∷ rows) p x h =
      ground (arith, last_ms-missing rows p x, string_eq.beq_iff r.profile p)

  measured :
      (rows : List (PhaseResult F)) (p : String)
      → float.is_zero zero_float ≡ true
      → float.is_zero (last_ms rows p zero_float) ≡ false
      → contains (profiles rows) p ≡ true
  measured rows p z h = ground (arith, last_ms-missing rows p zero_float)

  -- A line that compares two profiles is about rows of the phase, by the last row of each: the
  -- profile named faster is not the slower one, and the ratio is the longer time over the shorter.
  -- Zero is a zero of `float64`.
  pub ratio_line-IsFair :
      (rows : List (PhaseResult F)) (a b : String) (line : Speedup F)
      → float.is_zero zero_float ≡ true
      → ratio_line rows a b ≡ some line
      → IsFair (λ p. last_ms rows p zero_float) line
        × (contains (profiles rows) line.faster ≡ true)
        × (contains (profiles rows) line.slower ≡ true)
  unfolding ratio_line
  ratio_line-IsFair rows a b line z h = ground (arith, measured rows a z, measured rows b z)
