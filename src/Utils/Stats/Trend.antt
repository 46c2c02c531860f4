-- ===== src/Utils/Stats/Trend.antt =====
-- internal/utils/metrics.go: GetMemoryTrend, over an abstract float64.
use lemmings.Common.{ℕ, suc, ◌-◌, List, [], ◌∷◌, length, drop, pos, negsuc, ltb, if◌then◌else◌}
use lemmings.Utils.Floats.{Floats}
use lemmings.Utils.Stats.{MemStats, SystemStats}

module _ (floats : Floats) where
  open floats use {Float, lt, tenths, plus, minus, times, over, of_int}

  -- sumX, sumY, sumXY and sumXX
  pub record Sums : Type 0 where
    pub x : Float
    pub y : Float
    pub xy : Float
    pub xx : Float

  -- The loop of GetMemoryTrend over the samples from number `i` on.
  unfoldable pub add_samples : ℕ → List (MemStats Float) → Sums → Sums
  add_samples i [] sums = sums
  add_samples i (sample ∷ samples) sums =
      let x = of_int (pos i) in
      let y = sample.usage_percent in
      add_samples (suc i) samples (record {
        x = plus sums.x x;
        y = plus sums.y y;
        xy = plus sums.xy (times x y);
        xx = plus sums.xx (times x x);
      })

  -- GetMemoryTrend
  unfoldable pub get_memory_trend : SystemStats Float → Float
  unfolding add_samples
  get_memory_trend s =
      let recorded = length s.memory_history in
      let sample_count = if ltb recorded 5 then recorded else 5 in
      let samples = drop (recorded - sample_count) s.memory_history in
      let n = of_int (pos (length samples)) in
      let o = tenths (pos 0) in
      let sums = add_samples 0 samples (record { x = o; y = o; xy = o; xx = o }) in
      let slope =
        over (minus (times n sums.xy) (times sums.x sums.y))
          (minus (times n sums.xx) (times sums.x sums.x)) in
      let normalized = over slope (tenths (pos 100)) in
      if ltb recorded 2
      then o
      else if lt (tenths (pos 10)) normalized
      then tenths (pos 10)
      else if lt normalized (tenths (negsuc 9))
      then tenths (negsuc 9)
      else normalized
