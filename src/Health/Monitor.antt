-- ===== src/Health/Monitor.antt =====
-- internal/health/health.go: the evaluation of a fresh monitor result.
pub mod Staged
use sub2api_account_schedule.Base.{
  ℕ, ◌+◌, ◌-◌, ◌*◌, ◌==◌, Bool, true, false, not, ◌&&◌, ◌||◌, Option, none, some, List, [], ◌∷◌,
  Text, codes, is_empty, ltb, leb, if◌then◌else◌, length, keep,
}
use sub2api_account_schedule.Base.Int.{ℤ, pos, leb_ℤ, ltb_ℤ}
use sub2api_account_schedule.Health.Floats.{Floats, lit}
use sub2api_account_schedule.Health.Settings.{Settings, normalize_settings}
use sub2api_account_schedule.Health.Stage.{
  HealthStage, frozen, same_stage, RecoveryResult, StageState, transition_stage,
}
use sub2api_account_schedule.Health.Observe.{
  MonitorObservation, Monitor, is_operational, minute, hour, observation_from_monitor,
  contains_checked_at, merge_observations, availability, latency_baseline, drop_first,
  frozen_reason,
}
use sub2api_account_schedule.Health.Score.{Scored, score_observation, classify_stage}

pub record MonitorHealthState (f : Floats) : Type 0 where
  pub monitor_id : ℤ
  pub stages : StageState
  pub score : f.Float
  pub confidence : f.Float
  pub current_latency_ms : ℤ
  pub baseline_latency_ms : f.Float
  pub availability_15m : f.Float
  pub availability_1h : f.Float
  pub availability_24h : f.Float
  pub sample_count : ℕ
  pub recovery_healthy_count : ℤ
  pub last_two_healthy : Bool
  pub recovery_eligible : Bool
  pub next_recovery_condition : Text
  pub reason_json : Text
  pub updated_at : ℕ

module _ (f : Floats) where
  -- The last `recovery_window` observations, which is not negative.
  abbrev pub trim_window : ℤ → List (MonitorObservation f) → List (MonitorObservation f)
  trim_window (pos n) l = drop_first f (length l - n) l
  trim_window _ l = l

  abbrev pub last_two : List (MonitorObservation f) → Bool
  last_two [] = false
  last_two (a ∷ []) = false
  last_two (a ∷ b ∷ []) = is_operational b.status && is_operational a.status
  last_two (a ∷ b ∷ c ∷ l) = last_two (b ∷ c ∷ l)

  abbrev pub latest : List (MonitorObservation f) → Option (MonitorObservation f)
  latest [] = none
  latest (a ∷ []) = some a
  latest (a ∷ b ∷ l) = latest (b ∷ l)

  abbrev pub is_latency_ok : Option (MonitorObservation f) → f.Float → Settings → Bool
  is_latency_ok none baseline settings = false
  is_latency_ok (some o) baseline settings =
      if f.below (lit f 0) baseline
      then ltb_ℤ (pos 0) o.latency_ms
        && f.at_most (f.of_int o.latency_ms) (f.multiply baseline (f.divide (lit f 3) (lit f 2)))
      else ltb_ℤ (pos 0) o.latency_ms && ltb_ℤ o.latency_ms settings.latency_warning_ms

  abbrev pub has_elapsed : Option ℕ → ℕ → Bool
  has_elapsed none now = true
  has_elapsed (some hold) now = not (ltb now hold)

  abbrev pub next_condition : Bool → Bool → Bool → Bool → Bool → Bool → Text
  next_condition elapsed enough count two availability latency =
      if not elapsed
      then codes "等待最短隔离时间结束"
      else if not enough
      then codes "等待收集最近检测样本"
      else if not count
      then codes "最近检测中正常次数不足"
      else if not two
      then codes "最后两次检测必须连续正常"
      else if not availability
      then codes "最近十五分钟可用率需要达到90%"
      else if not latency
      then codes "当前响应时间尚未恢复到正常范围"
      else codes "已满足恢复试运行条件"

  abbrev required_of : Settings → Option f.Float → ℤ
  required_of settings none = settings.recovery_successes
  required_of settings (some a) =
      if f.below a (lit f 80) then settings.recovery_window else settings.recovery_successes

  -- `CheckRecovery`; the normalised window is positive.
  unfoldable pub check_recovery :
      List (MonitorObservation f)
      → Option ℕ
      → Option f.Float
      → f.Float
      → Settings
      → ℕ
      → RecoveryResult
  unfolding normalize_settings merge_observations availability drop_first
  check_recovery observations hold_until availability_7d baseline given now =
      let settings = normalize_settings given in
      let unique = merge_observations f observations none now in
      let ordered = trim_window settings.recovery_window unique in
      let required = required_of settings availability_7d in
      let count = pos (length (keep (λ o. is_operational o.status) ordered)) in
      let quarter = availability f unique (now - 15 * minute) in
      let enough = leb_ℤ settings.recovery_window (pos (length ordered)) in
      let two = last_two ordered in
      let available =
        leb_ℤ settings.min_samples (pos quarter.1) && f.at_most (lit f 90) quarter.0 in
      let latency = is_latency_ok (latest ordered) baseline settings in
      let elapsed = has_elapsed hold_until now in
      record {
        eligible = enough && leb_ℤ required count && two && available && latency && elapsed;
        healthy_count = count;
        required_healthy = required;
        last_two_healthy = two;
        availability_ok = available;
        latency_ok = latency;
        enough_samples = enough;
        quarantine_elapsed = elapsed;
        next_condition = next_condition elapsed enough (leb_ℤ required count) two available latency;
      }

  module _ (reasons_json : List Text → Text) where
    -- A monitor that is frozen keeps its data; the observation is none, which the source returns as
    -- one with the zero time.
    unfoldable pub freeze_state : MonitorHealthState f → Text → Monitor f → ℕ → MonitorHealthState f
    freeze_state previous reason m now = record previous {
      monitor_id = m.id;
      updated_at = now;
      stages = record {
        stage = frozen;
        last_transition_at =
            if same_stage previous.stages.stage frozen
            then previous.stages.last_transition_at
            else now;
        hold_until = previous.stages.hold_until;
      };
      score = lit f 0;
      confidence = lit f 0;
      recovery_eligible = false;
      next_recovery_condition = reason;
      reason_json = reasons_json (reason ∷ []);
    }

    -- What is computed of the observation before the stage is decided.
    abbrev pub scored_observation : MonitorObservation f → Scored f → f.Float → MonitorObservation f
    scored_observation o s confidence = record o {
      score = s.0;
      confidence = confidence;
      reason_json = reasons_json s.1;
    }

    -- The new observation, its history, and what is decided on it.
    abbrev pub current_of :
        Monitor f → List (MonitorObservation f) → Settings → ℕ → ℕ → MonitorObservation f
    current_of m observations settings at now =
        let raw = observation_from_monitor f m at now in
        let history = merge_observations f observations (some raw) now in
        let day = availability f history (now - 24 * hour) in
        scored_observation raw
          (score_observation f raw (availability f history (now - 15 * minute))
            (availability f history (now - hour))
            (latency_baseline f observations now settings.min_samples) settings)
          (f.min (lit f 1) (f.divide (lit f day.1) (f.of_int settings.min_samples)))

    abbrev pub merged_of :
        Monitor f → List (MonitorObservation f) → Settings → ℕ → ℕ → List (MonitorObservation f)
    merged_of m observations settings at now =
        merge_observations f observations (some (current_of m observations settings at now)) now

    abbrev pub recovery_of :
        Monitor f
        → List (MonitorObservation f)
        → MonitorHealthState f
        → Settings
        → ℕ
        → ℕ
        → RecoveryResult
    recovery_of m observations previous settings at now =
        check_recovery (merged_of m observations settings at now) previous.stages.hold_until
          m.availability_7d (latency_baseline f observations now settings.min_samples).0 settings
          now

    abbrev pub candidate_of :
        Monitor f → List (MonitorObservation f) → Settings → ℕ → ℕ → HealthStage × Bool
    candidate_of m observations settings at now =
        let current = current_of m observations settings at now in
        classify_stage f current (merged_of m observations settings at now) current.confidence
          settings

    unfoldable pub evaluate_at :
        Monitor f
        → List (MonitorObservation f)
        → MonitorHealthState f
        → Settings
        → ℕ
        → ℕ
        → MonitorHealthState f × Option (MonitorObservation f)
    unfolding observation_from_monitor merge_observations latency_baseline availability
        score_observation classify_stage check_recovery transition_stage
    evaluate_at m observations previous settings at now =
        let raw = observation_from_monitor f m at now in
        let history = merge_observations f observations (some raw) now in
        let day = availability f history (now - 24 * hour) in
        let current = current_of m observations settings at now in
        let recovery = recovery_of m observations previous settings at now in
        let candidate = candidate_of m observations settings at now in
        (
          record {
            monitor_id = m.id;
            stages =
                transition_stage previous.stages candidate.0 candidate.1 recovery settings now
                  (not (contains_checked_at f observations raw.checked_at));
            score = current.score;
            confidence = current.confidence;
            current_latency_ms = current.latency_ms;
            baseline_latency_ms = (latency_baseline f observations now settings.min_samples).0;
            availability_15m = (availability f history (now - 15 * minute)).0;
            availability_1h = (availability f history (now - hour)).0;
            availability_24h = day.0;
            sample_count = day.1;
            recovery_healthy_count = recovery.healthy_count;
            last_two_healthy = recovery.last_two_healthy;
            recovery_eligible = recovery.eligible;
            next_recovery_condition = recovery.next_condition;
            reason_json = current.reason_json;
            updated_at = now;
          },
          some current,
        )

    -- The time of the last check, which a monitor that is not frozen has.
    abbrev pub checked_time : Option ℕ → ℕ
    checked_time none = 0
    checked_time (some at) = at

    -- `Evaluate`
    unfoldable pub evaluate :
        Monitor f
        → List (MonitorObservation f)
        → MonitorHealthState f
        → Settings
        → ℕ
        → MonitorHealthState f × Option (MonitorObservation f)
    unfolding frozen_reason freeze_state evaluate_at normalize_settings
    evaluate m observations previous given now =
        let reason = frozen_reason f m now in
        if not (is_empty reason)
        then (freeze_state previous reason m now, none)
        else evaluate_at m observations previous (normalize_settings given)
            (checked_time m.last_checked_at) now
