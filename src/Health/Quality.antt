-- ===== src/Health/Quality.antt =====
-- internal/health/v3.go: reasons and limits of a result, and the load that its quality gives.
use sub2api_account_schedule.Base.{
  ℕ, ◌==◌, Bool, true, false, ◌&&◌, Option, none, some, List, [], ◌∷◌, ◌++◌, Text, codes, ltb,
  if◌then◌else◌,
}
use sub2api_account_schedule.Base.Int.{ℤ, pos, eq_ℤ}
use sub2api_account_schedule.Health.Floats.{Floats, lit}
use sub2api_account_schedule.Health.Classify.{performance_slow, ClassifiedCheck}
use sub2api_account_schedule.Health.Policy.{
  V3Input, V3Policy, absolute_latency_penalty, relative_latency_penalty, long_term_penalty,
  percentile_90,
}
use sub2api_account_schedule.Health.Window.{
  Recommendation, full, reduce_80, reduce_50, reduce_25, pause_traffic, V3Result, count_class,
  latencies, availability_of,
}

abbrev pub cap_name : ℕ → Recommendation
cap_name maximum =
    if maximum == 80 then reduce_80 else if maximum == 50 then reduce_50 else reduce_25

module _ (f : Floats) where
  abbrev pub add_reason : Text → Text → V3Result f → V3Result f
  add_reason code why r = record r {
    reasons = r.reasons ++ (record { code = code; explanation = why } ∷ []);
  }

  -- `capLoad`
  unfoldable pub cap_load : ℕ → Text → Text → V3Result f → V3Result f
  cap_load maximum code why r =
      if r.pause
      then r
      else add_reason code why (
          if ltb maximum r.recommended_load
          then record r { recommended_load = maximum; recommendation = cap_name maximum }
          else r)

  abbrev pub cap_if : Bool → ℕ → Text → Text → V3Result f → V3Result f
  cap_if b maximum code why r = if b then cap_load maximum code why r else r

  -- `pause`
  unfoldable pub pause_load : Text → Text → V3Result f → V3Result f
  pause_load code why r =
      add_reason code why
        (record r { pause = true; recommended_load = 0; recommendation = pause_traffic })

  abbrev pub set_load : ℕ → Recommendation → V3Result f → V3Result f
  set_load load name r = record r { recommended_load = load; recommendation = name }

  -- `setLoadFromQuality`
  unfoldable pub set_load_from_quality : V3Policy f → V3Result f → V3Result f
  set_load_from_quality policy r =
      if f.at_most policy.quality_full_at r.quality_score
      then set_load 100 full r
      else if f.at_most policy.quality_reduce_80_at r.quality_score
      then set_load 80 reduce_80 r
      else if f.at_most policy.quality_reduce_50_at r.quality_score
      then set_load 50 reduce_50 r
      else set_load 25 reduce_25 r

  -- The result before its quality is known: the fields that are set at the end are zero values.
  abbrev pub first_result : List ClassifiedCheck → ℤ → V3Result f
  first_result l p90 = record {
    checks = l;
    availability = availability_of f l;
    quality_score = lit f 0;
    p90_latency_ms = p90;
    latency_penalty = lit f 0;
    recommended_load = 100;
    recommendation = full;
    pause = false;
    monitor_pause_suppressed = false;
    real_traffic_success_rate = lit f 0;
    reasons = [];
    hard_success_rate_10 = lit f 0;
    hard_success_rate_60 = lit f 0;
    degraded_rate_10 = lit f 0;
    degraded_rate_60 = lit f 0;
    traffic_success_rate = lit f 0;
    traffic_sample_count = pos 0;
    hard_failure_streak = 0;
    hard_failures_10 = 0;
    suggested_load_percent = 0;
    action = full;
    disagreement = false;
    response_p90_ms = pos 0;
    baseline_latency_ms = lit f 0;
    reason_codes = [];
    error_category_counts = λ k. 0;
    checked_at = 0;
  }

  abbrev pub lower_quality : f.Float → V3Result f → V3Result f
  lower_quality points r = record r { quality_score = f.subtract r.quality_score points }

  -- The latency's penalty is subtracted from 100, with the reason of the larger one.
  abbrev pub penalize_latency : V3Policy f → V3Input f → V3Result f → V3Result f
  penalize_latency policy input r =
      let absolute =
        absolute_latency_penalty f r.p90_latency_ms policy.latency_warning_ms
          policy.latency_critical_ms in
      let relative = relative_latency_penalty f r.p90_latency_ms input.baseline_latency_ms in
      let penalty = f.max absolute.0 relative.0 in
      let r = record r {
        latency_penalty = penalty;
        quality_score = f.subtract (lit f 100) penalty;
      } in
      if f.below (lit f 0) penalty
      then add_reason (codes "latency_quality_penalty")
          (if f.below absolute.0 relative.0 then relative.1 else absolute.1) r
      else r

  abbrev pub penalize_slow : List ClassifiedCheck → V3Result f → V3Result f
  penalize_slow l r =
      if eq_ℤ r.p90_latency_ms (pos 0) && ltb 0 (count_class l performance_slow)
      then add_reason (codes "slow_without_latency") (codes "监控报告性能下降，但没有可用响应时间")
          (lower_quality (lit f 4) r)
      else r

  abbrev pub penalize_long_term : Option f.Float → V3Result f → V3Result f
  penalize_long_term none r = r
  penalize_long_term (some rate) r =
      let penalty = long_term_penalty f rate in
      if f.below (lit f 0) penalty
      then add_reason (codes "long_term_quality") (codes "长期成功率仍需观察") (lower_quality penalty r)
      else lower_quality penalty r

  abbrev pub clamp_quality : V3Result f → V3Result f
  clamp_quality r = record r { quality_score = f.max (lit f 0) (f.min (lit f 100) r.quality_score) }

  unfoldable pub quality_result : V3Policy f → V3Input f → List ClassifiedCheck → V3Result f
  unfolding set_load_from_quality absolute_latency_penalty relative_latency_penalty
      long_term_penalty percentile_90 latencies count_class availability_of
  quality_result policy input l = set_load_from_quality policy (
      clamp_quality (
        penalize_long_term input.long_term_success_rate (
          penalize_slow l
            (penalize_latency policy input (first_result l (percentile_90 (latencies l)))))))
