-- ===== src/Bench/Phase.antt =====
-- bench/embed_vs_sqlite/main.go: one measured row. The type `F` stands for `float64`.
use f4kvs_ffi.Prelude.{ℕ, String, Bool, ◌==◌, string_eq, if◌then◌else◌}

-- The operations of `float64` that the program uses.
pub record Float (F : Type 0) : Type 0 where
  pub of_nat : ℕ → F
  pub above : F → F → Bool
  pub is_zero : F → Bool
  pub over : F → F → F

pub record PhaseResult (F : Type 0) : Type 0 where
  pub phase : String
  pub profile : String
  pub ops : ℕ
  pub ms : F
  pub ops_per_s : F
  pub durability : String
  pub extra : String
  pub metric_only : String
  pub value : F
  pub unit : String

module _ {F : Type 0} ⦃float : Float F⦄ where
  abbrev pub zero_float : F
  zero_float = float.of_nat 0

  -- The time comes as its microseconds.
  unfoldable pub result : String → String → ℕ → ℕ → String → String → PhaseResult F
  result phase profile ops microseconds durability extra =
      let thousand = float.of_nat 1000 in
      let ms = float.over (float.of_nat microseconds) thousand in
      record {
        phase = phase;
        profile = profile;
        ops = ops;
        ms = ms;
        ops_per_s =
            (if float.above ms zero_float
              then float.over (float.of_nat ops) (float.over ms thousand)
              else zero_float);
        durability = durability;
        extra = extra;
        metric_only = "";
        value = zero_float;
        unit = "";
      }

  unfoldable pub metric_result : String → String → String → F → ℕ → String → String → PhaseResult F
  metric_result phase profile metric value ops unit notes = record {
    phase = phase;
    profile = profile;
    ops = ops;
    ms = (if metric == "duration_ms" then value else zero_float);
    ops_per_s = zero_float;
    durability = "";
    extra = notes;
    metric_only = metric;
    value = value;
    unit = unit;
  }
