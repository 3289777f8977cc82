-- ===== src/Health/Examples.antt =====
-- internal/health: tests and witnesses.
use sub2api_account_schedule.Base.{
  ℕ, ◌+◌, ◌-◌, ◌*◌, ◌/◌, ◌≡◌, ◌≤◌, ◌⊎◌, refl, true, false, none, some, List, [], ◌∷◌, Text, codes,
  ltb, leb, if◌then◌else◌, find, arith, contains, to_lower, trim, text_eq,
}
use sub2api_account_schedule.Base.Int.{pos, pos_part}
use sub2api_account_schedule.Health.Floats.{Floats}
use sub2api_account_schedule.Health.Classify.{
  Check, classify_check, classify_message, classify_status, is_rejected, is_unsupported,
  is_mismatch, is_client_message, is_limited, is_unreachable, is_server_error, is_client_status,
  is_slow, is_normal, is_failed,
}
use sub2api_account_schedule.Health.Classify.Consistent.{IsConsistent, classify_check-IsConsistent}
use sub2api_account_schedule.Health.Policy.{
  RealTraffic, V3Input, normalize_v3_policy, deduplicate_checks, place_all, place,
}
use sub2api_account_schedule.Health.Policy.Dedup.{is_at, count_at, last_at, deduplicate_keeps_last}
use sub2api_account_schedule.Health.Window.{availability_of}
use sub2api_account_schedule.Health.Evaluate.{classified, evaluate_v3}
use sub2api_account_schedule.Health.Evaluate.Load.{HasLoad, pauses, lowest, all_limits}
use sub2api_account_schedule.Health.Evaluate.Verdict.{evaluate_v3-HasLoad}
use sub2api_account_schedule.Health.Evaluate.Bounds.{
  is_open_load, evaluate_v3_load, slow_never_pauses,
}
use sub2api_account_schedule.Health.Settings.{
  Policy, default_settings, normalize_settings, resolve_settings,
}
use sub2api_account_schedule.Health.Stage.{
  healthy, quarantined, recovering_25, recovering_50, RecoveryResult, StageState, first_transition,
  trial_elapsed, transition_stage, time_since, minutes_duration,
}
use sub2api_account_schedule.Health.Stage.Moves.{Move, transition_stage-Move}
use sub2api_account_schedule.Health.Observe.{Monitor, frozen_reason, stale_after}
use sub2api_account_schedule.Base.{any, ◌==◌, not, ◌&&◌, ◌||◌, keep, weigh}
use sub2api_account_schedule.Health.Observe.{
  MonitorObservation, observation_from_monitor, merge_observations, is_recent,
}
use sub2api_account_schedule.Health.Observe.Merge
use sub2api_account_schedule.Health.Observe.Merge.{at_weight, merge_observations_times}
use sub2api_account_schedule.Health.Monitor.{
  MonitorHealthState, evaluate, candidate_of, checked_time,
}
use sub2api_account_schedule.Health.Monitor.Staged.{
  quarantine_needs_trial, freeze_forgets_stage, decrypt_failure_quarantines,
}

-- Numbers that count thousandths and stop at 0.
abbrev decimals : Floats
decimals = record {
  Float = ℕ;
  of_int = λ a. 1000 * pos_part a;
  add = λ a b. a + b;
  subtract = λ a b. a - b;
  multiply = λ a b. a * b / 1000;
  divide = λ a b. a * 1000 / b;
  at_most = leb;
  below = ltb;
  max = λ a b. if ltb a b then b else a;
  min = λ a b. if ltb a b then a else b;
}

abbrev slow_check : Check
slow_check = record {
  checked_at = 7;
  status = codes " Degraded";
  http_status = pos 200;
  message = codes "";
  latency_ms = pos 9000;
  decrypt_failed = false;
  slow_threshold_ms = pos 0;
}

abbrev refused_check : Check
refused_check = record slow_check { checked_at = 8; http_status = pos 429; status = codes "error" }

abbrev rejected_check : Check
rejected_check = record slow_check { checked_at = 9; message = codes "Invalid API Key" }

abbrev no_traffic : RealTraffic
no_traffic = record { sample_count = pos 0; successes = pos 0 }

abbrev window_input : List Check → V3Input decimals
window_input l = record {
  checks = l;
  baseline_latency_ms = 0;
  long_term_success_rate = none;
  real_traffic = no_traffic;
  real_traffic_min_samples = pos 0;
  hard_failure_streak = pos 0;
  hard_failures_in_window = pos 0;
  traffic_pause_below = 0;
  traffic_healthy_at = 0;
  latency_warning_ms = pos 0;
  latency_critical_ms = pos 0;
  quality_full_at = 0;
  quality_reduce_80_at = 0;
  quality_reduce_50_at = 0;
  persistent_slow_rate = 0;
}

abbrev mixed_input : V3Input decimals
mixed_input = window_input (slow_check ∷ refused_check ∷ rejected_check ∷ [])

abbrev slow_input : V3Input decimals
slow_input = window_input (slow_check ∷ record slow_check { checked_at = 12 } ∷ [])

classify_check-IsConsistent_example : IsConsistent (classify_check rejected_check)
classify_check-IsConsistent_example = classify_check-IsConsistent rejected_check

deduplicate_keeps_last_example :
    (find
        (is_at 7)
        (deduplicate_checks (slow_check ∷ record slow_check { status = codes "ok" } ∷ []))
      ≡ last_at 7 none (slow_check ∷ record slow_check { status = codes "ok" } ∷ []))
    × (count_at 7 (deduplicate_checks (slow_check ∷ record slow_check { status = codes "ok" } ∷ []))
        ≤ 1)
deduplicate_keeps_last_example =
    deduplicate_keeps_last 7 (omega arith)
      (slow_check ∷ record slow_check { status = codes "ok" } ∷ [])

evaluate_v3-HasLoad_example :
    HasLoad decimals
      (normalize_v3_policy decimals mixed_input)
      mixed_input
      (classified decimals mixed_input)
      (evaluate_v3 decimals mixed_input).quality_score
      (pauses decimals
        (normalize_v3_policy decimals mixed_input)
        mixed_input
        (classified decimals mixed_input)
        (availability_of decimals (classified decimals mixed_input)))
      (lowest (
        all_limits decimals
          (normalize_v3_policy decimals mixed_input)
          mixed_input
          (classified decimals mixed_input)
          (evaluate_v3 decimals mixed_input).quality_score))
      (evaluate_v3 decimals mixed_input)
evaluate_v3-HasLoad_example = evaluate_v3-HasLoad decimals mixed_input

evaluate_v3_load_example :
    (((evaluate_v3 decimals mixed_input).pause ≡ true)
      × ((evaluate_v3 decimals mixed_input).recommended_load ≡ 0))
    ⊎ (((evaluate_v3 decimals mixed_input).pause ≡ false)
        × (is_open_load (evaluate_v3 decimals mixed_input).recommended_load ≡ true))
evaluate_v3_load_example = evaluate_v3_load decimals mixed_input

slow_never_pauses_example : (evaluate_v3 decimals slow_input).pause ≡ false
unfolding normalize_v3_policy classify_check classify_message classify_status is_rejected
    is_unsupported is_mismatch is_client_message is_limited is_unreachable is_server_error
    is_client_status is_slow is_normal is_failed deduplicate_checks place_all place contains
    to_lower trim text_eq
slow_never_pauses_example =
    slow_never_pauses decimals slow_input (refl, (refl, tt)) (refl, (refl, tt)) refl

-- The scores of a policy that fit neither each other nor the defaults.
abbrev odd_policy : Policy
odd_policy = record {
  healthy_score = some (pos 50);
  watch_score = some (pos 55);
  quarantine_score = none;
  min_samples = some (pos 0);
  latency_warning_ms = some (pos 20000);
  latency_critical_ms = none;
  traffic_pause_below = none;
  traffic_healthy_at = none;
  hard_failures_10 = none;
  persistent_slow_rate = some (pos 300);
}

-- The watch score is repaired to 60, which is above the healthy score.
odd_watch : (resolve_settings default_settings odd_policy).watch_score ≡ pos 60
unfolding resolve_settings normalize_settings
odd_watch = refl

abbrev able : RecoveryResult
able = record {
  eligible = true;
  healthy_count = pos 9;
  required_healthy = pos 8;
  last_two_healthy = true;
  availability_ok = true;
  latency_ok = true;
  enough_samples = true;
  quarantine_elapsed = true;
  next_condition = [];
}

abbrev in_trial : StageState
in_trial = record { stage = recovering_25; last_transition_at = 5; hold_until = none }

abbrev in_quarantine : StageState
in_quarantine = record { stage = quarantined; last_transition_at = 5; hold_until = some 9 }

transition_stage-Move_example :
    Move healthy true true
      (trial_elapsed default_settings 400000000000 (first_transition in_trial 400000000000))
      recovering_25
      (transition_stage in_trial healthy false able default_settings 400000000000 true).stage
transition_stage-Move_example =
    transition_stage-Move in_trial healthy false able default_settings 400000000000 true

-- After the time of a trial the second one begins.
raised :
    (transition_stage in_trial healthy false able default_settings 400000000000 true).stage
    ≡ recovering_50
unfolding transition_stage trial_elapsed first_transition time_since minutes_duration
raised = refl

abbrev fresh_monitor : Monitor decimals
fresh_monitor = record {
  id = pos 3;
  enabled = true;
  interval_seconds = pos 60;
  last_checked_at = some 1000;
  primary_status = codes "operational";
  primary_latency_ms = pos 900;
  availability_7d = none;
  extra_models = [];
  extra_models_status = [];
  decrypt_failed = true;
}

abbrev quarantined_state : MonitorHealthState decimals
quarantined_state = record {
  monitor_id = pos 3;
  stages = in_quarantine;
  score = 0;
  confidence = 0;
  current_latency_ms = pos 0;
  baseline_latency_ms = 0;
  availability_15m = 0;
  availability_1h = 0;
  availability_24h = 0;
  sample_count = 0;
  recovery_healthy_count = pos 0;
  last_two_healthy = false;
  recovery_eligible = false;
  next_recovery_condition = [];
  reason_json = [];
  updated_at = 0;
}

abbrev first_reason : List Text → Text
first_reason [] = []
first_reason (s ∷ l) = s

quarantine_needs_trial_example :
    ((evaluate decimals first_reason fresh_monitor [] quarantined_state default_settings
        2000).0.stages.stage
      ≡ quarantined)
    ⊎ (((evaluate decimals first_reason fresh_monitor [] quarantined_state default_settings
            2000).0.stages.stage
          ≡ recovering_25)
        × ((evaluate decimals first_reason fresh_monitor [] quarantined_state default_settings
              2000).0.recovery_eligible
            ≡ true))
unfolding frozen_reason stale_after time_since text_eq to_lower trim
quarantine_needs_trial_example =
    quarantine_needs_trial decimals first_reason fresh_monitor [] quarantined_state default_settings
      2000 refl refl

decrypt_failure_quarantines_example :
    (evaluate decimals first_reason fresh_monitor [] quarantined_state default_settings
      2000).0.stages.stage
    ≡ quarantined
unfolding frozen_reason stale_after time_since text_eq to_lower trim
decrypt_failure_quarantines_example =
    decrypt_failure_quarantines decimals first_reason fresh_monitor [] quarantined_state
      default_settings 2000 refl refl

abbrev closed_monitor : Monitor decimals
closed_monitor = record fresh_monitor { enabled = false }

freeze_forgets_stage_example :
    let held =
      (evaluate decimals first_reason closed_monitor [] quarantined_state default_settings
        1990).0 in
    (evaluate decimals first_reason fresh_monitor [] held default_settings 2000).0.stages.stage
    ≡ (candidate_of decimals first_reason fresh_monitor []
        (normalize_settings default_settings)
        (checked_time decimals first_reason fresh_monitor.last_checked_at)
        2000).0
unfolding frozen_reason stale_after time_since text_eq to_lower trim
freeze_forgets_stage_example =
    freeze_forgets_stage decimals first_reason default_settings quarantined_state closed_monitor
      fresh_monitor [] [] 1990 2000 refl refl

abbrev observed : ℕ → MonitorObservation decimals
observed at = observation_from_monitor decimals fresh_monitor at 2000

merge_observations_times_example :
    (any (Merge.is_at decimals 1000) (
        merge_observations decimals (observed 900 ∷ observed 1000 ∷ []) (some (observed 1000)) 2000)
      ≡ ((not ((observed 1000).checked_at == 0) && Merge.is_at decimals 1000 (observed 1000))
          || any
              (Merge.is_at decimals 1000)
              (keep (is_recent decimals 2000) (observed 900 ∷ observed 1000 ∷ []))))
    × (weigh (at_weight decimals 1000) (
          merge_observations decimals
            (observed 900 ∷ observed 1000 ∷ [])
            (some (observed 1000))
            2000)
        ≤ 1)
merge_observations_times_example =
    merge_observations_times decimals 1000 (observed 900 ∷ observed 1000 ∷ []) (observed 1000) 2000
