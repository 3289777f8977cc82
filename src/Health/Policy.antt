-- ===== src/Health/Policy.antt =====
-- internal/health/v3.go: the thresholds of a decision, and the penalties on the quality score.
pub mod Dedup
use sub2api_account_schedule.Base.{
  ℕ, zero, suc, ◌==◌, ◌+◌, ◌-◌, ◌*◌, ◌/◌, ◌%◌, ◌^◌, Bool, true, false, not, ◌&&◌, ◌||◌, Option,
  none, some, List, [], ◌∷◌, Text, codes, ltb, leb, if◌then◌else◌, length, sort,
}
use sub2api_account_schedule.Base.Int.{ℤ, pos, negsuc, leb_ℤ, ltb_ℤ, wrap_int64, times}
use sub2api_account_schedule.Health.Floats.{Floats, lit}
use sub2api_account_schedule.Health.Classify.{Check}

pub record RealTraffic : Type 0 where
  pub sample_count : ℤ
  pub successes : ℤ

pub record V3Input (f : Floats) : Type 0 where
  pub checks : List Check
  pub baseline_latency_ms : f.Float
  pub long_term_success_rate : Option f.Float
  pub real_traffic : RealTraffic
  pub real_traffic_min_samples : ℤ
  pub hard_failure_streak : ℤ
  pub hard_failures_in_window : ℤ
  pub traffic_pause_below : f.Float
  pub traffic_healthy_at : f.Float
  pub latency_warning_ms : ℤ
  pub latency_critical_ms : ℤ
  pub quality_full_at : f.Float
  pub quality_reduce_80_at : f.Float
  pub quality_reduce_50_at : f.Float
  pub persistent_slow_rate : f.Float

-- `normalizedV3Policy`
pub record V3Policy (f : Floats) : Type 0 where
  pub minimum_traffic_samples : ℤ
  pub hard_failure_streak : ℤ
  pub hard_failures_in_window : ℤ
  pub traffic_pause_below : f.Float
  pub traffic_healthy_at : f.Float
  pub latency_warning_ms : ℤ
  pub latency_critical_ms : ℤ
  pub quality_full_at : f.Float
  pub quality_reduce_80_at : f.Float
  pub quality_reduce_50_at : f.Float
  pub persistent_slow_rate : f.Float

-- `if value > 0 { policy.field = value }`
abbrev pub positive_or : ℤ → ℤ → ℤ
positive_or default value = if ltb_ℤ (pos 0) value then value else default

module _ (f : Floats) where
  -- `RealTraffic.SuccessRate`
  unfoldable pub success_rate : RealTraffic → f.Float
  success_rate t =
      let successes = if ltb_ℤ t.successes (pos 0) then pos 0 else t.successes in
      if leb_ℤ t.sample_count (pos 0)
      then lit f 0
      else f.multiply
          (f.divide
            (f.of_int (if ltb_ℤ t.sample_count successes then t.sample_count else successes))
            (f.of_int t.sample_count))
          (lit f 100)

  -- `if value > low && value <= high { policy.field = value }`
  abbrev up_to : f.Float → f.Float → f.Float → f.Float → f.Float
  up_to low high default value =
      if f.below low value && f.at_most value high then value else default

  -- `if value > low && value < high { policy.field = value }`
  abbrev between : f.Float → f.Float → f.Float → f.Float → f.Float
  between low high default value =
      if f.below low value && f.below value high then value else default

  -- `normalizeV3Policy`
  unfoldable pub normalize_v3_policy : V3Input f → V3Policy f
  normalize_v3_policy input =
      let pause_below = between (lit f 0) (lit f 100) (lit f 80) input.traffic_pause_below in
      let warning = positive_or (pos 5000) input.latency_warning_ms in
      let full_at = up_to (lit f 0) (lit f 100) (lit f 85) input.quality_full_at in
      let reduce_80_at = between (lit f 0) full_at (lit f 70) input.quality_reduce_80_at in
      record {
        minimum_traffic_samples = positive_or (pos 20) input.real_traffic_min_samples;
        hard_failure_streak = positive_or (pos 3) input.hard_failure_streak;
        hard_failures_in_window = positive_or (pos 5) input.hard_failures_in_window;
        traffic_pause_below = pause_below;
        traffic_healthy_at = up_to pause_below (lit f 100) (lit f 95) input.traffic_healthy_at;
        latency_warning_ms = warning;
        latency_critical_ms =
            if ltb_ℤ warning input.latency_critical_ms
            then input.latency_critical_ms
            else pos 15000;
        quality_full_at = full_at;
        quality_reduce_80_at = reduce_80_at;
        quality_reduce_50_at = between (lit f 0) reduce_80_at (lit f 55) input.quality_reduce_50_at;
        persistent_slow_rate = up_to (lit f 0) (lit f 100) (lit f 10) input.persistent_slow_rate;
      }

  -- `absoluteLatencyPenalty` and `relativeLatencyPenalty`: points and their reason.
  unfoldable pub absolute_latency_penalty : ℤ → ℤ → ℤ → f.Float × Text
  absolute_latency_penalty latency warning critical =
      let warn = if leb_ℤ warning (pos 0) then pos 5000 else warning in
      let limit = if leb_ℤ critical warn then pos 15000 else critical in
      if leb_ℤ latency (pos 0) || ltb_ℤ latency warn
      then (lit f 0, [])
      else if ltb_ℤ latency limit
      then (lit f 4, codes "九成响应时间超过延迟警戒线")
      else if ltb_ℤ latency (wrap_int64 (times 2 limit))
      then (lit f 8, codes "九成响应时间超过延迟严重线")
      else if ltb_ℤ latency (wrap_int64 (times 4 limit))
      then (lit f 16, codes "九成响应时间长期高于严重线")
      else (lit f 30, codes "九成响应时间远高于严重线")

  unfoldable pub relative_latency_penalty : ℤ → f.Float → f.Float × Text
  relative_latency_penalty latency baseline =
      let ratio = f.divide (f.of_int latency) baseline in
      if leb_ℤ latency (pos 0) || f.at_most baseline (lit f 0)
      then (lit f 0, [])
      else if f.at_most ratio (f.divide (lit f 3) (lit f 2))
      then (lit f 0, [])
      else if f.at_most ratio (lit f 2)
      then (lit f 4, codes "九成响应时间超过自身基线一点五倍")
      else if f.at_most ratio (lit f 3)
      then (lit f 8, codes "九成响应时间超过自身基线两倍")
      else if f.at_most ratio (lit f 5)
      then (lit f 14, codes "九成响应时间超过自身基线三倍")
      else if f.at_most ratio (lit f 8)
      then (lit f 22, codes "九成响应时间超过自身基线五倍")
      else (lit f 30, codes "九成响应时间超过自身基线八倍")

  unfoldable pub long_term_penalty : f.Float → f.Float
  long_term_penalty rate =
      if f.at_most (lit f 99) rate
      then lit f 0
      else if f.at_most (lit f 97) rate
      then lit f 1
      else if f.at_most (lit f 95) rate
      then lit f 2
      else if f.at_most (lit f 90) rate
      then lit f 5
      else if f.at_most (lit f 80) rate
      then lit f 8
      else lit f 10

-- `deduplicateChecks`: a later check at the same non-zero time takes the place of the earlier one.
unfoldable pub place : Check → List Check → List Check
place c [] = c ∷ []
place c (d ∷ l) =
    let rest = place c l in
    if not (c.checked_at == 0) && d.checked_at == c.checked_at then c ∷ l else d ∷ rest

unfoldable pub place_all : List Check → List Check → List Check
unfolding place
place_all placed [] = placed
place_all placed (c ∷ l) = place_all (place c placed) l

unfoldable pub deduplicate_checks : List Check → List Check
unfolding place_all
deduplicate_checks l = place_all [] l

-- The element at an index, or 0 past the end.
unfoldable pub value_at : ℕ → List ℤ → ℤ
value_at n [] = pos 0
value_at zero (v ∷ l) = v
value_at (suc n) (v ∷ l) = value_at n l

-- `math.Ceil(float64(n)*0.9)`: for the lengths of slices that there are the product is rounded to
-- at most the next integer, so that this is the least integer that is not below nine tenths of n.
abbrev pub nine_tenths : ℕ → ℕ
nine_tenths n = (9 * n + 9) / 10

unfoldable pub percentile_90 : List ℤ → ℤ
unfolding value_at sort
percentile_90 values = value_at (nine_tenths (length values) - 1) (sort ltb_ℤ values)
