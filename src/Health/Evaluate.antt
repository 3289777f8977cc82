-- ===== src/Health/Evaluate.antt =====
-- internal/health/v3.go: the decision on a window of checks.
pub mod Load
pub mod Verdict
pub mod Bounds
use sub2api_account_schedule.Base.{
  ℕ, ◌==◌, Bool, true, false, not, ◌&&◌, ◌||◌, Option, none, some, List, [], ◌∷◌, ◌++◌, map, Text,
  codes, ltb, leb, if◌then◌else◌, is_empty,
}
use sub2api_account_schedule.Base.Int.{ℤ, pos, leb_ℤ, ltb_ℤ, eq_ℤ}
use sub2api_account_schedule.Health.Floats.{Floats, lit}
use sub2api_account_schedule.Health.Classify.{
  performance_slow, credential_failure, infrastructure_failure, capacity_limited, semantic_mismatch,
  ClassifiedCheck, classify_check,
}
use sub2api_account_schedule.Health.Policy.{
  V3Input, V3Policy, success_rate, normalize_v3_policy, absolute_latency_penalty,
  relative_latency_penalty, long_term_penalty, deduplicate_checks, percentile_90,
}
use sub2api_account_schedule.Health.Window.{
  Recommendation, full, reduce_80, reduce_50, reduce_25, pause_traffic, DecisionReason,
  HardAvailability, V3Result, count_class, classified_window, latest_is, latencies, latest_time,
  rate_of, hard_success_rate, class_rate, availability_of,
}
use sub2api_account_schedule.Health.Quality.{
  cap_name, add_reason, cap_load, cap_if, pause_load, set_load, set_load_from_quality, first_result,
  lower_quality, penalize_latency, penalize_slow, penalize_long_term, clamp_quality, quality_result,
}

module _ (f : Floats) where
  -- The slow results of the last ten or sixty checks are many.
  unfoldable pub is_persistently_slow : V3Policy f → List ClassifiedCheck → Bool
  unfolding rate_of classified_window
  is_persistently_slow policy l =
      f.at_most policy.persistent_slow_rate (class_rate f performance_slow (classified_window 10 l))
      || f.at_most policy.persistent_slow_rate
          (class_rate f performance_slow (classified_window 60 l))

  -- The limits for failures, refusals and slowness that do not pause.
  unfoldable pub limit_load : V3Policy f → List ClassifiedCheck → V3Result f → V3Result f
  unfolding cap_load is_persistently_slow
  limit_load policy l r =
      let failures = r.availability.infrastructure_failures_last_10 in
      let refusals = r.availability.capacity_failures_last_10 in
      cap_if f (is_persistently_slow policy l) 80 (codes "persistent_performance_slow")
        (codes "近期性能下降结果较多，先降低流量观察")
        (cap_if f (leb 2 refusals) 25 (codes "repeated_capacity_pressure") (codes "最近十次检测多次出现容量不足")
          (cap_if f (leb 1 refusals) 50 (codes "capacity_pressure") (codes "最近检测出现上游容量不足") (
            cap_if f (leb 2 failures) 25 (codes "repeated_hard_failure") (codes "最近十次检测中存在多次基础设施故障")
              (cap_if f (leb 1 failures) 50 (codes "recent_hard_failure")
                (codes "最近十次检测中存在一次基础设施故障") r))))

  -- `hasEnoughTraffic`
  abbrev pub has_enough_traffic : V3Policy f → V3Input f → Bool
  has_enough_traffic policy input =
      leb_ℤ
        (if ltb_ℤ input.real_traffic_min_samples policy.minimum_traffic_samples
          then policy.minimum_traffic_samples
          else input.real_traffic_min_samples)
        input.real_traffic.sample_count

  abbrev pub has_failure_streak : V3Policy f → HardAvailability f → Bool
  has_failure_streak policy a = leb_ℤ policy.hard_failure_streak (pos a.consecutive_infrastructure)

  -- `monitorWantsPause`
  abbrev pub monitor_wants_pause : V3Policy f → HardAvailability f → Bool
  monitor_wants_pause policy a =
      has_failure_streak policy a
      || leb_ℤ policy.hard_failures_in_window (pos a.infrastructure_failures_last_10)

  unfoldable pub decide_pause :
      V3Policy f → V3Input f → List ClassifiedCheck → V3Result f → V3Result f
  unfolding cap_load pause_load success_rate latest_is
  decide_pause policy input l r =
      let rate = success_rate f input.real_traffic in
      let enough = has_enough_traffic policy input in
      let r = record r { real_traffic_success_rate = rate } in
      if latest_is credential_failure l
      then pause_load f (codes "credential_failure_pause") (codes "最新检测确认凭据失效，立即暂停账号") r
      else if enough && f.below rate policy.traffic_pause_below
      then pause_load f (codes "real_traffic_unhealthy") (codes "真实业务请求成功率低于百分之八十") r
      else if monitor_wants_pause policy r.availability
      then (if enough && f.at_most policy.traffic_healthy_at rate
          then cap_load f 25 (codes "real_traffic_healthy_override")
              (codes "监控达到暂停门槛，但真实业务成功率不低于百分之九十五") (record r { monitor_pause_suppressed = true })
          else if has_failure_streak policy r.availability
          then pause_load f (codes "consecutive_hard_failures") (codes "连续三次基础设施故障") r
          else pause_load f (codes "hard_failures_in_window") (codes "最近十次检测中至少五次基础设施故障") r)
      else r

  unfoldable pub observe_mismatch :
      V3Policy f → V3Input f → List ClassifiedCheck → V3Result f → V3Result f
  unfolding cap_load success_rate count_class classified_window
  observe_mismatch policy input l r =
      if not r.pause && ltb 0 (count_class (classified_window 10 l) semantic_mismatch)
      then (if has_enough_traffic policy input
            && f.at_most policy.traffic_healthy_at (success_rate f input.real_traffic)
          then add_reason f (codes "semantic_mismatch_overridden") (codes "内容校验异常，但真实业务流量健康") r
          else cap_load f 80 (codes "semantic_mismatch_observe") (codes "内容校验异常仅进入观察，不作为暂停依据") r)
      else r

  abbrev pub explain_healthy : V3Result f → V3Result f
  explain_healthy r = elim r.reasons [
    | [] ↦ add_reason f (codes "healthy") (codes "硬可用性与性能质量均正常") r
    | _ ↦ r
  ]

  -- `finalizeV3Result`
  unfoldable pub finalize_v3_result : V3Input f → List ClassifiedCheck → V3Result f → V3Result f
  unfolding rate_of classified_window count_class latest_time
  finalize_v3_result input l r =
      let last10 = classified_window 10 l in
      let last60 = classified_window 60 l in
      record r {
        hard_success_rate_10 = hard_success_rate f last10;
        hard_success_rate_60 = hard_success_rate f last60;
        degraded_rate_10 = class_rate f performance_slow last10;
        degraded_rate_60 = class_rate f performance_slow last60;
        traffic_success_rate = r.real_traffic_success_rate;
        traffic_sample_count = input.real_traffic.sample_count;
        hard_failure_streak = r.availability.consecutive_infrastructure;
        hard_failures_10 = r.availability.infrastructure_failures_last_10;
        suggested_load_percent = r.recommended_load;
        action = r.recommendation;
        disagreement =
            r.monitor_pause_suppressed
            || (ltb 0 r.availability.semantic_mismatches
                && leb_ℤ
                    (if ltb_ℤ input.real_traffic_min_samples (pos 20)
                      then pos 20
                      else input.real_traffic_min_samples)
                    input.real_traffic.sample_count
                && f.at_most (lit f 95) r.real_traffic_success_rate);
        response_p90_ms = r.p90_latency_ms;
        baseline_latency_ms = input.baseline_latency_ms;
        reason_codes = map (λ d. d.code) r.reasons;
        error_category_counts = count_class l;
        checked_at = latest_time 0 l;
      }

  abbrev pub classified : V3Input f → List ClassifiedCheck
  classified input = map classify_check (deduplicate_checks input.checks)

  -- `EvaluateV3`
  unfoldable pub evaluate_v3 : V3Input f → V3Result f
  unfolding normalize_v3_policy deduplicate_checks classify_check quality_result limit_load
      decide_pause observe_mismatch finalize_v3_result
  evaluate_v3 input =
      let policy = normalize_v3_policy f input in
      let l = classified input in
      finalize_v3_result input l (
        explain_healthy (
          observe_mismatch policy input l
            (decide_pause policy input l (limit_load policy l (quality_result f policy input l)))))
