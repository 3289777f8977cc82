-- ===== src/Health/Settings/Usable.antt =====
-- internal/health/health.go: what NormalizeSettings guarantees.
use sub2api_account_schedule.Base.{◌≡◌, ◌⊎◌, ap, ◌∙◌, Text, arith}
use sub2api_account_schedule.Base.Int.{ℤ, pos, wrap_int64, times, ◌≤ℤ◌, ◌<ℤ◌}
use sub2api_account_schedule.Health.Settings.{
  Settings, Policy, default_settings, repair_mode, repair_positive, repair_percent, repair_under,
  repair_critical, repair_healthy_at, repair_window, repair_successes, normalize_settings,
  override_or,
}

mode_twice : (m : Text) → repair_mode (repair_mode m) ≡ repair_mode m
mode_twice m = ground arith

positive_twice : (d v : ℤ) → repair_positive d (repair_positive d v) ≡ repair_positive d v
positive_twice d v = ground arith

percent_twice : (d v : ℤ) → repair_percent d (repair_percent d v) ≡ repair_percent d v
percent_twice d v = ground arith

under_twice : (d b v : ℤ) → repair_under d b (repair_under d b v) ≡ repair_under d b v
under_twice d b v = ground arith

critical_twice : (w v : ℤ) → repair_critical w (repair_critical w v) ≡ repair_critical w v
critical_twice w v = ground arith

healthy_at_twice : (p v : ℤ) → repair_healthy_at p (repair_healthy_at p v) ≡ repair_healthy_at p v
healthy_at_twice p v = ground arith

window_twice : (v : ℤ) → repair_window (repair_window v) ≡ repair_window v
window_twice v = ground arith

successes_twice : (w v : ℤ) → repair_successes w (repair_successes w v) ≡ repair_successes w v
successes_twice w v = ground arith

-- A number in the range of a percentage.
abbrev pub IsPercent : ℤ → Type 0
IsPercent v = (pos 1 ≤ℤ v) × (v ≤ℤ pos 100)

-- What the engine relies on. The order of two thresholds can fail where the default of one does not
-- fit the other, and each case says when.
pub record IsUsable (s : Settings) : Type 0 where
  pub healthy : IsPercent s.healthy_score
  pub watch :
      (pos 1 ≤ℤ s.watch_score)
      × ((s.watch_score <ℤ s.healthy_score)
          ⊎ ((s.watch_score ≡ pos 60) × (s.healthy_score ≤ℤ pos 60)))
  pub quarantine :
      (pos 1 ≤ℤ s.quarantine_score)
      × ((s.quarantine_score <ℤ s.watch_score)
          ⊎ ((s.quarantine_score ≡ pos 35) × (s.watch_score ≤ℤ pos 35)))
  pub samples : pos 1 ≤ℤ s.min_samples
  pub warning : pos 1 ≤ℤ s.latency_warning_ms
  -- Above the warning, or twice the warning as an int64.
  pub critical :
      (s.latency_warning_ms <ℤ s.latency_critical_ms)
      ⊎ ((s.latency_critical_ms ≡ wrap_int64 (times 2 s.latency_warning_ms))
          × (default_settings.latency_critical_ms ≤ℤ s.latency_warning_ms))
  pub pause_below : (pos 1 ≤ℤ s.traffic_pause_below) × (s.traffic_pause_below ≤ℤ pos 99)
  pub healthy_at :
      (s.traffic_healthy_at ≤ℤ pos 100)
      × ((s.traffic_pause_below <ℤ s.traffic_healthy_at)
          ⊎ ((s.traffic_healthy_at ≡ pos 95) × (pos 95 ≤ℤ s.traffic_pause_below)))
  pub failures : pos 1 ≤ℤ s.hard_failures_10
  pub slow_rate : IsPercent s.persistent_slow_rate
  pub window : pos 2 ≤ℤ s.recovery_window
  pub successes : (pos 1 ≤ℤ s.recovery_successes) × (s.recovery_successes ≤ℤ s.recovery_window)
  pub trial : IsPercent s.trial_percent
  pub mid : IsPercent s.mid_percent
  pub degraded : IsPercent s.degraded_percent
  pub minutes : (pos 1 ≤ℤ s.trial_minutes) × (pos 1 ≤ℤ s.quarantine_minutes)

pub normalize_settings-IsUsable : (s : Settings) → IsUsable (normalize_settings s)
unfolding normalize_settings
normalize_settings-IsUsable s = record {
  healthy = ground arith;
  watch = ground arith;
  quarantine = ground arith;
  samples = ground arith;
  warning = ground arith;
  critical = ground arith;
  pause_below = ground arith;
  healthy_at = ground arith;
  failures = ground arith;
  slow_rate = ground arith;
  window = ground arith;
  successes = ground arith;
  trial = ground arith;
  mid = ground arith;
  degraded = ground arith;
  minutes = ground arith;
}

-- A value is the one that is wanted, unless that is outside the open interval.
abbrev pub Within : ℤ → ℤ → ℤ → ℤ → Type 0
Within low high wanted v = (v ≡ wanted) ⊎ ((wanted ≤ℤ low) ⊎ (high ≤ℤ wanted))

abbrev pub Above : ℤ → ℤ → ℤ → Type 0
Above low wanted v = (v ≡ wanted) ⊎ (wanted ≤ℤ low)

-- What is wanted of a field is the policy's value, or without one the repaired common value; it is
-- kept unless it is outside the range of the field, as the other fields of the result bound it.
pub record Follows (g : Settings) (p : Policy) (r : Settings) : Type 0 where
  pub healthy :
      Within (pos 0) (pos 101) (override_or g.healthy_score p.healthy_score) r.healthy_score
  pub watch : Within (pos 0) r.healthy_score (override_or g.watch_score p.watch_score) r.watch_score
  pub quarantine :
      Within
        (pos 0)
        r.watch_score
        (override_or g.quarantine_score p.quarantine_score)
        r.quarantine_score
  pub samples : Above (pos 0) (override_or g.min_samples p.min_samples) r.min_samples
  pub warning :
      Above (pos 0) (override_or g.latency_warning_ms p.latency_warning_ms) r.latency_warning_ms
  pub critical :
      Above r.latency_warning_ms
        (override_or g.latency_critical_ms p.latency_critical_ms)
        r.latency_critical_ms
  pub pause_below :
      Within
        (pos 0)
        (pos 100)
        (override_or g.traffic_pause_below p.traffic_pause_below)
        r.traffic_pause_below
  pub healthy_at :
      Within r.traffic_pause_below
        (pos 101)
        (override_or g.traffic_healthy_at p.traffic_healthy_at)
        r.traffic_healthy_at
  pub failures :
      Above (pos 0) (override_or g.hard_failures_10 p.hard_failures_10) r.hard_failures_10
  pub slow_rate :
      Within
        (pos 0)
        (pos 101)
        (override_or g.persistent_slow_rate p.persistent_slow_rate)
        r.persistent_slow_rate

module _ (s : Settings) where
  abbrev once : Settings
  once = normalize_settings s

  warning_twice :
      repair_positive default_settings.latency_warning_ms once.latency_warning_ms
      ≡ once.latency_warning_ms
  unfolding normalize_settings
  warning_twice = positive_twice default_settings.latency_warning_ms s.latency_warning_ms

  pause_twice :
      repair_under default_settings.traffic_pause_below (pos 100) once.traffic_pause_below
      ≡ once.traffic_pause_below
  unfolding normalize_settings
  pause_twice = under_twice default_settings.traffic_pause_below (pos 100) s.traffic_pause_below

  watch_twice :
      repair_under default_settings.watch_score
        (repair_percent default_settings.healthy_score once.healthy_score)
        once.watch_score
      ≡ once.watch_score
  unfolding normalize_settings
  watch_twice =
      ap (λ h. repair_under default_settings.watch_score h once.watch_score)
        (percent_twice default_settings.healthy_score s.healthy_score)
      ∙ under_twice default_settings.watch_score once.healthy_score s.watch_score

  -- A second NormalizeSettings changes nothing.
  pub normalize_twice : normalize_settings (normalize_settings s) ≡ normalize_settings s
  unfolding normalize_settings
  normalize_twice = λ i. record {
    health_mode = mode_twice s.health_mode i;
    healthy_score = percent_twice default_settings.healthy_score s.healthy_score i;
    watch_score = watch_twice i;
    quarantine_score =
        (ap (λ w. repair_under default_settings.quarantine_score w once.quarantine_score)
              watch_twice
            ∙ under_twice default_settings.quarantine_score once.watch_score s.quarantine_score)
          i;
    min_samples = positive_twice default_settings.min_samples s.min_samples i;
    latency_warning_ms = warning_twice i;
    latency_critical_ms =
        (ap (λ w. repair_critical w once.latency_critical_ms) warning_twice
            ∙ critical_twice once.latency_warning_ms s.latency_critical_ms)
          i;
    traffic_pause_below = pause_twice i;
    traffic_healthy_at =
        (ap (λ p. repair_healthy_at p once.traffic_healthy_at) pause_twice
            ∙ healthy_at_twice once.traffic_pause_below s.traffic_healthy_at)
          i;
    hard_failures_10 = positive_twice default_settings.hard_failures_10 s.hard_failures_10 i;
    persistent_slow_rate =
        percent_twice default_settings.persistent_slow_rate s.persistent_slow_rate i;
    quarantine_minutes = positive_twice default_settings.quarantine_minutes s.quarantine_minutes i;
    recovery_window = window_twice s.recovery_window i;
    recovery_successes =
        (ap (λ w. repair_successes w once.recovery_successes) (window_twice s.recovery_window)
            ∙ successes_twice once.recovery_window s.recovery_successes)
          i;
    trial_percent = percent_twice default_settings.trial_percent s.trial_percent i;
    mid_percent = percent_twice default_settings.mid_percent s.mid_percent i;
    degraded_percent = percent_twice default_settings.degraded_percent s.degraded_percent i;
    trial_minutes = positive_twice default_settings.trial_minutes s.trial_minutes i;
    load_override_minutes =
        positive_twice default_settings.load_override_minutes s.load_override_minutes i;
  }
