-- ===== src/Health/Stage.antt =====
-- internal/health/health.go: the stages of a monitor's health and the moves between them.
pub mod Moves
use sub2api_account_schedule.Base.{
  ℕ, ◌+◌, ◌-◌, ◌*◌, ◌^◌, ◌==◌, Bool, true, false, not, ◌&&◌, ◌||◌, Option, none, some, Text, codes,
  text_eq, ltb, leb, if◌then◌else◌,
}
use sub2api_account_schedule.Base.Int.{ℤ, pos, negsuc, ltb_ℤ, wrap_int64, times}
use sub2api_account_schedule.Health.Settings.{Settings}

-- The stages that this engine knows, and any other string.
pub data HealthStage : Type 0 where
  healthy watch degraded quarantined recovering_25 recovering_50 frozen : HealthStage
  other_stage : Text → HealthStage

abbrev pub same_stage : HealthStage → HealthStage → Bool
same_stage healthy healthy = true
same_stage watch watch = true
same_stage degraded degraded = true
same_stage quarantined quarantined = true
same_stage recovering_25 recovering_25 = true
same_stage recovering_50 recovering_50 = true
same_stage frozen frozen = true
same_stage (other_stage s) (other_stage t) = text_eq s t
same_stage _ _ = false

-- What CheckRecovery reports.
pub record RecoveryResult : Type 0 where
  pub eligible : Bool
  pub healthy_count : ℤ
  pub required_healthy : ℤ
  pub last_two_healthy : Bool
  pub availability_ok : Bool
  pub latency_ok : Bool
  pub enough_samples : Bool
  pub quarantine_elapsed : Bool
  pub next_condition : Text

-- `time.Duration(minutes) * time.Minute`
unfoldable pub minutes_duration : ℤ → ℤ
minutes_duration m = wrap_int64 (times 60000000000 m)

-- `t.Add(d)`; no time is before the zero time.
abbrev pub after : ℕ → ℤ → ℕ
after t (pos d) = t + d
after t (negsuc d) = t - (d + 1)

-- `t.Sub(u)`: the difference, as far as an int64 can tell it.
abbrev pub lesser : ℕ → ℕ → ℕ
lesser a b = if ltb b a then b else a

unfoldable pub time_since : ℕ → ℕ → ℤ
time_since t u =
    if leb u t then pos (lesser (t - u) (2 ^ 63 - 1)) else negsuc (lesser (u - t - 1) (2 ^ 63 - 1))

-- The previous stage, the time of the last transition (0 for none), and the end of the quarantine.
pub record StageState : Type 0 where
  pub stage : HealthStage
  pub last_transition_at : ℕ
  pub hold_until : Option ℕ

abbrev pub at_stage : HealthStage → ℕ → Option ℕ → StageState
at_stage stage at hold = record { stage = stage; last_transition_at = at; hold_until = hold }

unfoldable pub first_transition : StageState → ℕ → ℕ
first_transition previous now =
    if previous.last_transition_at == 0 then now else previous.last_transition_at

unfoldable pub trial_elapsed : Settings → ℕ → ℕ → Bool
unfolding time_since minutes_duration
trial_elapsed settings now at =
    not (ltb_ℤ (time_since now at) (minutes_duration settings.trial_minutes))

-- The candidate is to be quarantined.
abbrev pub quarantine : StageState → Bool → Settings → ℕ → Bool → StageState
quarantine previous severe settings now is_new =
    if not (same_stage previous.stage quarantined) || (severe && is_new)
    then at_stage quarantined now (some (after now (minutes_duration settings.quarantine_minutes)))
    else at_stage quarantined (first_transition previous now) previous.hold_until

-- From the quarantine.
abbrev pub leave_quarantine : StageState → HealthStage → RecoveryResult → ℕ → StageState
leave_quarantine previous candidate recovery now =
    if same_stage candidate healthy && recovery.eligible
    then at_stage recovering_25 now none
    else at_stage quarantined (first_transition previous now) previous.hold_until

-- From one of the two trials.
abbrev pub continue_trial :
    StageState → HealthStage → RecoveryResult → Settings → ℕ → Bool → StageState
continue_trial previous candidate recovery settings now is_new =
    let at = first_transition previous now in
    if not (same_stage candidate healthy) || not recovery.eligible
    then (let later = if is_new then now else at in
        if same_stage previous.stage recovering_50
          && (same_stage candidate watch || same_stage candidate degraded)
        then at_stage recovering_25 later none
        else at_stage previous.stage later none)
    else if not is_new || not (trial_elapsed settings now at)
    then at_stage previous.stage at none
    else if same_stage previous.stage recovering_25
    then at_stage recovering_50 now none
    else at_stage healthy now none

-- `transitionStage`
unfoldable pub transition_stage :
    StageState → HealthStage → Bool → RecoveryResult → Settings → ℕ → Bool → StageState
transition_stage previous candidate severe recovery settings now is_new =
    if same_stage candidate quarantined
    then quarantine previous severe settings now is_new
    else if same_stage previous.stage quarantined
    then leave_quarantine previous candidate recovery now
    else if same_stage previous.stage recovering_25 || same_stage previous.stage recovering_50
    then continue_trial previous candidate recovery settings now is_new
    else at_stage candidate
        (if same_stage previous.stage candidate then first_transition previous now else now) none
