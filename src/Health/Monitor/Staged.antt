-- ===== src/Health/Monitor/Staged.antt =====
-- internal/health/health.go: what an evaluation makes of a quarantine.
use sub2api_account_schedule.Base.{
  sym, ℕ, ◌≡◌, ◌⊎◌, inl, inr, refl, Bool, true, false, not, ◌||◌, ◌&&◌, Option, some, List, [],
  is_empty, Text, if◌then◌else◌, arith,
}
use sub2api_account_schedule.Health.Floats.{Floats}
use sub2api_account_schedule.Health.Settings.{Settings, normalize_settings}
use sub2api_account_schedule.Health.Stage.{
  HealthStage, quarantined, recovering_25, frozen, StageState, same_stage, at_stage, after,
  minutes_duration, RecoveryResult, trial_elapsed, first_transition, transition_stage,
}
use sub2api_account_schedule.Health.Stage.Moves.{
  Move, isolate, begin_trial, stay_quarantined, raise_trial, complete_trial, stay_25, stay_50,
  lower_trial, follow, transition_stage-Move,
}
use sub2api_account_schedule.Health.Observe.{
  MonitorObservation, Monitor, frozen_reason, observation_from_monitor,
}
use sub2api_account_schedule.Health.Observe.{contains_checked_at}
use sub2api_account_schedule.Health.Score.{classify_stage}
use sub2api_account_schedule.Health.Monitor.{
  MonitorHealthState, freeze_state, checked_time, current_of, merged_of, recovery_of, candidate_of,
  evaluate_at, evaluate,
}

from_quarantined :
    (c : HealthStage) (eligible is_new elapsed : Bool) (s t : HealthStage)
    → Move c eligible is_new elapsed s t
    → s ≡ quarantined
    → (t ≡ quarantined) ⊎ ((t ≡ recovering_25) × (eligible ≡ true))
from_quarantined c a b d s t (isolate _ e) h = inl refl
from_quarantined c a b d s t (begin_trial e k) h = inr (refl, k)
from_quarantined c a b d s t (stay_quarantined _ _) h = inl refl
from_quarantined c a b d s t (raise_trial e k l m) h = ground (arith, h)
from_quarantined c a b d s t (complete_trial e k l m) h = ground (arith, h)
from_quarantined c a b d s t (stay_25 _ _) h = ground (arith, h)
from_quarantined c a b d s t (stay_50 _ _ _) h = inl h
from_quarantined c a b d s t (lower_trial e) h = ground (arith, h)
from_quarantined c a b d s t (follow _ e) h = ground (arith, h, e)

stage_from_quarantined :
    (previous : StageState) (c : HealthStage) (severe : Bool) (r : RecoveryResult) (s : Settings)
    (now : ℕ) (is_new : Bool)
    → previous.stage ≡ quarantined
    → let t = (transition_stage previous c severe r s now is_new).stage in
      (t ≡ quarantined) ⊎ ((t ≡ recovering_25) × (r.eligible ≡ true))
stage_from_quarantined previous c severe r s now is_new h =
    from_quarantined c r.eligible is_new (trial_elapsed s now (first_transition previous now))
      previous.stage (transition_stage previous c severe r s now is_new).stage
      (transition_stage-Move previous c severe r s now is_new) h

isolated :
    (previous : StageState) (c : HealthStage) (severe : Bool) (r : RecoveryResult) (s : Settings)
    (now : ℕ) (is_new : Bool)
    → c ≡ quarantined
    → (transition_stage previous c severe r s now is_new).stage ≡ quarantined
unfolding transition_stage
isolated previous c severe r s now is_new h =
    rw h (go (not (same_stage previous.stage quarantined) || (severe && is_new)))
  where
    go :
        (b : Bool)
        → (if b
            then at_stage quarantined now (some (after now (minutes_duration s.quarantine_minutes)))
            else at_stage quarantined (first_transition previous now) previous.hold_until).stage
          ≡ quarantined
    go true = refl
    go false = refl

decrypt_failed-candidate :
    {f : Floats} (o : MonitorObservation f) (history : List (MonitorObservation f))
    (confidence : f.Float) (s : Settings)
    → o.decrypt_failed ≡ true
    → (classify_stage f o history confidence s).0 ≡ quarantined
unfolding classify_stage
decrypt_failed-candidate o history confidence s h = rw h refl

from_frozen :
    (c : HealthStage) (eligible is_new elapsed : Bool) (s t : HealthStage)
    → Move c eligible is_new elapsed s t
    → s ≡ frozen
    → t ≡ c
from_frozen c a b d s t (isolate _ e) h = sym e
from_frozen c a b d s t (begin_trial e k) h = ground (arith, h)
from_frozen c a b d s t (stay_quarantined _ _) h = ground (arith, h)
from_frozen c a b d s t (raise_trial e k l m) h = ground (arith, h)
from_frozen c a b d s t (complete_trial e k l m) h = ground (arith, h)
from_frozen c a b d s t (stay_25 _ _) h = ground (arith, h)
from_frozen c a b d s t (stay_50 _ _ _) h = ground (arith, h)
from_frozen c a b d s t (lower_trial e) h = ground (arith, h)
from_frozen c a b d s t (follow _ e) h = refl

stage_from_frozen :
    (previous : StageState) (c : HealthStage) (severe : Bool) (r : RecoveryResult) (s : Settings)
    (now : ℕ) (is_new : Bool)
    → previous.stage ≡ frozen
    → (transition_stage previous c severe r s now is_new).stage ≡ c
stage_from_frozen previous c severe r s now is_new h =
    from_frozen c r.eligible is_new (trial_elapsed s now (first_transition previous now))
      previous.stage (transition_stage previous c severe r s now is_new).stage
      (transition_stage-Move previous c severe r s now is_new) h

module _ (f : Floats) (reasons_json : List Text → Text) (m : Monitor f)
    (observations : List (MonitorObservation f)) (previous : MonitorHealthState f)
    (given : Settings) (now : ℕ) where
  abbrev Result : Type 0
  Result = MonitorHealthState f × Option (MonitorObservation f)

  -- The monitor reports something fresh.
  evaluate-fresh :
      frozen_reason f m now ≡ []
      → evaluate f reasons_json m observations previous given now
        ≡ evaluate_at f reasons_json m observations previous
            (normalize_settings given)
            (checked_time f reasons_json m.last_checked_at)
            now
  unfolding evaluate
  evaluate-fresh h = rw h refl

  decrypt_failed-kept :
      (at : ℕ)
      → m.decrypt_failed ≡ true
      → (current_of f reasons_json m observations (normalize_settings given) at now).decrypt_failed
        ≡ true
  unfolding observation_from_monitor
  decrypt_failed-kept at h = h

  -- A fresh result of a quarantined monitor leaves it quarantined, or lets it into the first trial,
  -- and then it reports that the monitor may recover.
  pub quarantine_needs_trial :
      frozen_reason f m now ≡ []
      → previous.stages.stage ≡ quarantined
      → let r = (evaluate f reasons_json m observations previous given now).0 in
        (r.stages.stage ≡ quarantined)
        ⊎ ((r.stages.stage ≡ recovering_25) × (r.recovery_eligible ≡ true))
  unfolding evaluate_at
  quarantine_needs_trial h k =
      let settings = normalize_settings given in
      let at = checked_time f reasons_json m.last_checked_at in
      let candidate = candidate_of f reasons_json m observations settings at now in
      rw (evaluate-fresh h) (
        stage_from_quarantined previous.stages candidate.0 candidate.1
          (recovery_of f reasons_json m observations previous settings at now) settings now
          (not
            (contains_checked_at f observations (observation_from_monitor f m at now).checked_at))
          k)

  fresh_from_frozen :
      frozen_reason f m now ≡ []
      → previous.stages.stage ≡ frozen
      → (evaluate f reasons_json m observations previous given now).0.stages.stage
        ≡ (candidate_of f reasons_json m observations
            (normalize_settings given)
            (checked_time f reasons_json m.last_checked_at)
            now).0
  unfolding evaluate_at
  fresh_from_frozen h k =
      let settings = normalize_settings given in
      let at = checked_time f reasons_json m.last_checked_at in
      let candidate = candidate_of f reasons_json m observations settings at now in
      rw (evaluate-fresh h) (
        stage_from_frozen previous.stages candidate.0 candidate.1
          (recovery_of f reasons_json m observations previous settings at now) settings now
          (not
            (contains_checked_at f observations (observation_from_monitor f m at now).checked_at))
          k)

  -- A fresh result of a monitor whose key cannot be decrypted quarantines it.
  pub decrypt_failure_quarantines :
      frozen_reason f m now ≡ []
      → m.decrypt_failed ≡ true
      → (evaluate f reasons_json m observations previous given now).0.stages.stage ≡ quarantined
  unfolding evaluate_at
  decrypt_failure_quarantines h k =
      let settings = normalize_settings given in
      let at = checked_time f reasons_json m.last_checked_at in
      let candidate = candidate_of f reasons_json m observations settings at now in
      rw (evaluate-fresh h) (
        isolated previous.stages candidate.0 candidate.1
          (recovery_of f reasons_json m observations previous settings at now) settings now
          (not
            (contains_checked_at f observations (observation_from_monitor f m at now).checked_at))
          (decrypt_failed-candidate (current_of f reasons_json m observations settings at now)
            (merged_of f reasons_json m observations settings at now) _ settings
            (decrypt_failed-kept at k)))

-- A frozen evaluation stores the stage of the freeze, whatever the stage was.
evaluate-frozen :
    (f : Floats) (reasons_json : List Text → Text) (m : Monitor f)
    (observations : List (MonitorObservation f)) (previous : MonitorHealthState f)
    (given : Settings) (now : ℕ)
    → is_empty (frozen_reason f m now) ≡ false
    → (evaluate f reasons_json m observations previous given now).0.stages.stage ≡ frozen
unfolding evaluate freeze_state
evaluate-frozen f reasons_json m observations previous given now h = rw h refl

module _ (f : Floats) (reasons_json : List Text → Text) (given : Settings)
    (previous : MonitorHealthState f) where
  -- When an evaluation freezes a monitor, whatever its stage before, and the next evaluation has a
  -- fresh result, then the stage after the two is the one that this result suggests, which does not
  -- depend on the stage before the freeze.
  pub freeze_forgets_stage :
      (m n : Monitor f) (seen later_seen : List (MonitorObservation f)) (at now : ℕ)
      → is_empty (frozen_reason f m at) ≡ false
      → frozen_reason f n now ≡ []
      → let frozen_state = (evaluate f reasons_json m seen previous given at).0 in
        (evaluate f reasons_json n later_seen frozen_state given now).0.stages.stage
        ≡ (candidate_of f reasons_json n later_seen
            (normalize_settings given)
            (checked_time f reasons_json n.last_checked_at)
            now).0
  freeze_forgets_stage m n seen later_seen at now h k =
      fresh_from_frozen f reasons_json n later_seen
        (evaluate f reasons_json m seen previous given at).0 given now k
        (evaluate-frozen f reasons_json m seen previous given at h)
