-- ===== src/Health/Score.antt =====
-- internal/health/health.go: the score of an observation and the stage that it suggests.
use sub2api_account_schedule.Base.{
  ℕ, ◌+◌, ◌*◌, Bool, true, false, not, ◌&&◌, ◌||◌, List, [], ◌∷◌, ◌++◌, Text, codes, text_eq, ltb,
  if◌then◌else◌,
}
use sub2api_account_schedule.Base.Int.{ℤ, pos, leb_ℤ, ltb_ℤ}
use sub2api_account_schedule.Health.Floats.{Floats, lit}
use sub2api_account_schedule.Health.Settings.{Settings}
use sub2api_account_schedule.Health.Stage.{HealthStage, healthy, watch, degraded, quarantined}
use sub2api_account_schedule.Health.Observe.{
  MonitorObservation, normalized_status, is_degraded, consecutive_failures, low_scores,
}

module _ (f : Floats) where
  -- A score and the reasons of what it has lost.
  abbrev pub Scored : Type 0
  Scored = f.Float × List Text

  -- `penalize`
  abbrev pub penalize : f.Float → Text → Scored → Scored
  penalize points reason s =
      if f.at_most points (lit f 0) then s else (f.subtract s.0 points, s.1 ++ (reason ∷ []))

  abbrev penalize_status : Text → Scored → Scored
  penalize_status status s =
      if is_degraded status
      then penalize (lit f 25) (codes "本次检测结果为性能下降") s
      else if text_eq (normalized_status status) (codes "failed")
      then penalize (lit f 55) (codes "本次检测失败") s
      else if text_eq (normalized_status status) (codes "error")
      then penalize (lit f 65) (codes "本次检测发生错误") s
      else s

  abbrev penalize_decrypt : Bool → Scored → Scored
  penalize_decrypt failed s = if failed then penalize (lit f 100) (codes "监控密钥解密失败，需要立即隔离") s else s

  abbrev penalize_extra : MonitorObservation f → Scored → Scored
  penalize_extra o s =
      let points = f.min (lit f 40) (lit f (o.extra_degraded * 8 + o.extra_failed * 20)) in
      if f.below (lit f 0) points then penalize points (codes "附加模型存在异常") s else s

  abbrev penalize_quarter : f.Float × ℕ → Scored → Scored
  penalize_quarter a s =
      if not (ltb 0 a.1)
      then s
      else if f.below a.0 (lit f 70)
      then penalize (lit f 45) (codes "最近十五分钟可用率低于70%") s
      else if f.below a.0 (lit f 80)
      then penalize (lit f 30) (codes "最近十五分钟可用率低于80%") s
      else if f.below a.0 (lit f 90)
      then penalize (lit f 15) (codes "最近十五分钟可用率低于90%") s
      else if f.below a.0 (lit f 95)
      then penalize (lit f 5) (codes "最近十五分钟可用率低于95%") s
      else s

  abbrev penalize_hour : f.Float × ℕ → ℤ → Scored → Scored
  penalize_hour a minimum s =
      if ltb_ℤ (pos a.1) minimum
      then s
      else if f.below a.0 (lit f 70)
      then penalize (lit f 10) (codes "最近一小时稳定性持续偏低") s
      else if f.below a.0 (lit f 80)
      then penalize (lit f 7) (codes "最近一小时稳定性偏低") s
      else if f.below a.0 (lit f 90)
      then penalize (lit f 4) (codes "最近一小时稳定性需要观察") s
      else if f.below a.0 (lit f 95)
      then penalize (lit f 2) (codes "最近一小时存在轻微波动") s
      else s

  -- The penalty of the latency alone, and a larger one for its ratio to the baseline.
  abbrev absolute_latency : ℤ → Settings → f.Float × Text
  absolute_latency latency settings =
      if leb_ℤ settings.latency_critical_ms latency
      then (lit f 30, codes "当前响应时间超过严重阈值")
      else if leb_ℤ settings.latency_warning_ms latency
      then (lit f 15, codes "当前响应时间超过警告阈值")
      else (lit f 0, [])

  abbrev raise_to : ℕ → Text → f.Float × Text → f.Float × Text
  raise_to points reason p = if f.below p.0 (lit f points) then (lit f points, reason) else p

  abbrev relative_latency : f.Float → f.Float × Text → f.Float × Text
  relative_latency ratio p =
      if f.at_most (lit f 3) ratio
      then raise_to 30 (codes "当前响应时间超过正常基准三倍") p
      else if f.at_most (lit f 2) ratio
      then raise_to 15 (codes "当前响应时间超过正常基准两倍") p
      else if f.at_most (f.divide (lit f 3) (lit f 2)) ratio
      then raise_to 5 (codes "当前响应时间超过正常基准一点五倍") p
      else p

  abbrev penalize_latency : ℤ → f.Float × ℕ → Settings → Scored → Scored
  penalize_latency latency baseline settings s =
      let p = absolute_latency latency settings in
      let q =
        if leb_ℤ settings.min_samples (pos baseline.1)
          && f.below (lit f 0) baseline.0
          && ltb_ℤ (pos 0) latency
        then relative_latency (f.divide (f.of_int latency) baseline.0) p
        else p in
      penalize q.0 q.1 s

  abbrev penalize_week : f.Float → Scored → Scored
  penalize_week a s =
      if not (f.below (lit f 0) a)
      then s
      else if f.below a (lit f 80)
      then penalize (lit f 10) (codes "七天可用率低于80%") s
      else if f.below a (lit f 90)
      then penalize (lit f 6) (codes "七天可用率低于90%") s
      else if f.below a (lit f 95)
      then penalize (lit f 3) (codes "七天可用率低于95%") s
      else s

  abbrev close_score : Scored → Scored
  close_score (score, []) = (f.max (lit f 0) (f.min (lit f 100) score), codes "各项健康指标正常" ∷ [])
  close_score (score, r ∷ l) = (f.max (lit f 0) (f.min (lit f 100) score), r ∷ l)

  -- `scoreObservation`
  unfoldable pub score_observation :
      MonitorObservation f → f.Float × ℕ → f.Float × ℕ → f.Float × ℕ → Settings → Scored
  score_observation o quarter last_hour baseline settings = close_score (
      penalize_week o.availability_7d (
        penalize_latency o.latency_ms baseline settings (
          penalize_hour last_hour settings.min_samples (
            penalize_quarter quarter (
              penalize_extra o
                (penalize_decrypt o.decrypt_failed (penalize_status o.status (lit f 100, []))))))))

  -- `classifyStage`: the candidate, and whether it is severe.
  unfoldable pub classify_stage :
      MonitorObservation f → List (MonitorObservation f) → f.Float → Settings → HealthStage × Bool
  unfolding consecutive_failures low_scores
  classify_stage o history confidence settings =
      if o.decrypt_failed
        || consecutive_failures f history 2
        || low_scores f history 5 3 settings.quarantine_score
      then (quarantined, true)
      else if f.at_most (f.of_int settings.healthy_score) o.score
      then (healthy, false)
      else if f.at_most (f.of_int settings.watch_score) o.score
      then (watch, false)
      else if f.at_most (f.of_int settings.quarantine_score) o.score
      then (degraded, false)
      else if f.below confidence (lit f 1)
      then (degraded, false)
      else (quarantined, false)
