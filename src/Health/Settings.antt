-- ===== src/Health/Settings.antt =====
-- internal/health/health.go: the settings of the health engine and their repair.
pub mod Usable
use sub2api_account_schedule.Base.{
  Bool, true, false, not, ◌&&◌, ◌||◌, Option, none, some, Text, codes, text_eq, if◌then◌else◌,
}
use sub2api_account_schedule.Base.Int.{ℤ, pos, leb_ℤ, ltb_ℤ, wrap_int64, times}

-- The fields of model.Settings that the health engine reads; NormalizeSettings leaves the others.
pub record Settings : Type 0 where
  pub health_mode : Text
  pub healthy_score : ℤ
  pub watch_score : ℤ
  pub quarantine_score : ℤ
  pub min_samples : ℤ
  pub latency_warning_ms : ℤ
  pub latency_critical_ms : ℤ
  pub traffic_pause_below : ℤ
  pub traffic_healthy_at : ℤ
  pub hard_failures_10 : ℤ
  pub persistent_slow_rate : ℤ
  pub quarantine_minutes : ℤ
  pub recovery_window : ℤ
  pub recovery_successes : ℤ
  pub trial_percent : ℤ
  pub mid_percent : ℤ
  pub degraded_percent : ℤ
  pub trial_minutes : ℤ
  pub load_override_minutes : ℤ

-- The fields of model.Policy that ResolveSettings reads.
pub record Policy : Type 0 where
  pub healthy_score : Option ℤ
  pub watch_score : Option ℤ
  pub quarantine_score : Option ℤ
  pub min_samples : Option ℤ
  pub latency_warning_ms : Option ℤ
  pub latency_critical_ms : Option ℤ
  pub traffic_pause_below : Option ℤ
  pub traffic_healthy_at : Option ℤ
  pub hard_failures_10 : Option ℤ
  pub persistent_slow_rate : Option ℤ

-- `DefaultSettings`
abbrev pub default_settings : Settings
default_settings = record {
  health_mode = codes "observe";
  healthy_score = pos 80;
  watch_score = pos 60;
  quarantine_score = pos 35;
  min_samples = pos 10;
  latency_warning_ms = pos 8000;
  latency_critical_ms = pos 15000;
  traffic_pause_below = pos 80;
  traffic_healthy_at = pos 95;
  hard_failures_10 = pos 5;
  persistent_slow_rate = pos 40;
  quarantine_minutes = pos 5;
  recovery_window = pos 10;
  recovery_successes = pos 8;
  trial_percent = pos 25;
  mid_percent = pos 50;
  degraded_percent = pos 50;
  trial_minutes = pos 5;
  load_override_minutes = pos 30;
}

-- The repairs of one field, each with its default.
abbrev pub repair_mode : Text → Text
repair_mode mode =
    if not (text_eq mode (codes "legacy"))
      && not (text_eq mode (codes "observe"))
      && not (text_eq mode (codes "adaptive"))
    then default_settings.health_mode
    else mode

-- `if value <= 0 { value = default }`
abbrev pub repair_positive : ℤ → ℤ → ℤ
repair_positive default value = if leb_ℤ value (pos 0) then default else value

-- `if value <= 0 || value > 100 { value = default }`
abbrev pub repair_percent : ℤ → ℤ → ℤ
repair_percent default value =
    if leb_ℤ value (pos 0) || ltb_ℤ (pos 100) value then default else value

-- `if value <= 0 || value >= bound { value = default }`
abbrev pub repair_under : ℤ → ℤ → ℤ → ℤ
repair_under default bound value =
    if leb_ℤ value (pos 0) || leb_ℤ bound value then default else value

abbrev pub repair_critical : ℤ → ℤ → ℤ
repair_critical warning value =
    if leb_ℤ value warning
    then (if leb_ℤ default_settings.latency_critical_ms warning
        then wrap_int64 (times 2 warning)
        else default_settings.latency_critical_ms)
    else value

abbrev pub repair_healthy_at : ℤ → ℤ → ℤ
repair_healthy_at pause_below value =
    if leb_ℤ value pause_below || ltb_ℤ (pos 100) value
    then default_settings.traffic_healthy_at
    else value

abbrev pub repair_window : ℤ → ℤ
repair_window value = if ltb_ℤ value (pos 2) then default_settings.recovery_window else value

abbrev pub repair_successes : ℤ → ℤ → ℤ
repair_successes window value =
    if leb_ℤ value (pos 0) || ltb_ℤ window value
    then (if ltb_ℤ window default_settings.recovery_successes
        then window
        else default_settings.recovery_successes)
    else value

-- `NormalizeSettings`
unfoldable pub normalize_settings : Settings → Settings
normalize_settings s =
    let healthy = repair_percent default_settings.healthy_score s.healthy_score in
    let watch = repair_under default_settings.watch_score healthy s.watch_score in
    let warning = repair_positive default_settings.latency_warning_ms s.latency_warning_ms in
    let pause_below =
      repair_under default_settings.traffic_pause_below (pos 100) s.traffic_pause_below in
    let window = repair_window s.recovery_window in
    record {
      health_mode = repair_mode s.health_mode;
      healthy_score = healthy;
      watch_score = watch;
      quarantine_score = repair_under default_settings.quarantine_score watch s.quarantine_score;
      min_samples = repair_positive default_settings.min_samples s.min_samples;
      latency_warning_ms = warning;
      latency_critical_ms = repair_critical warning s.latency_critical_ms;
      traffic_pause_below = pause_below;
      traffic_healthy_at = repair_healthy_at pause_below s.traffic_healthy_at;
      hard_failures_10 = repair_positive default_settings.hard_failures_10 s.hard_failures_10;
      persistent_slow_rate =
          repair_percent default_settings.persistent_slow_rate s.persistent_slow_rate;
      quarantine_minutes = repair_positive default_settings.quarantine_minutes s.quarantine_minutes;
      recovery_window = window;
      recovery_successes = repair_successes window s.recovery_successes;
      trial_percent = repair_percent default_settings.trial_percent s.trial_percent;
      mid_percent = repair_percent default_settings.mid_percent s.mid_percent;
      degraded_percent = repair_percent default_settings.degraded_percent s.degraded_percent;
      trial_minutes = repair_positive default_settings.trial_minutes s.trial_minutes;
      load_override_minutes =
          repair_positive default_settings.load_override_minutes s.load_override_minutes;
    }

-- `if override != nil { value = *override }`
abbrev pub override_or : ℤ → Option ℤ → ℤ
override_or value none = value
override_or value (some v) = v

abbrev pub with_policy : Settings → Policy → Settings
with_policy s p = record s {
  healthy_score = override_or s.healthy_score p.healthy_score;
  watch_score = override_or s.watch_score p.watch_score;
  quarantine_score = override_or s.quarantine_score p.quarantine_score;
  min_samples = override_or s.min_samples p.min_samples;
  latency_warning_ms = override_or s.latency_warning_ms p.latency_warning_ms;
  latency_critical_ms = override_or s.latency_critical_ms p.latency_critical_ms;
  traffic_pause_below = override_or s.traffic_pause_below p.traffic_pause_below;
  traffic_healthy_at = override_or s.traffic_healthy_at p.traffic_healthy_at;
  hard_failures_10 = override_or s.hard_failures_10 p.hard_failures_10;
  persistent_slow_rate = override_or s.persistent_slow_rate p.persistent_slow_rate;
}

-- `ResolveSettings`
unfoldable pub resolve_settings : Settings → Policy → Settings
unfolding normalize_settings
resolve_settings s p = normalize_settings (with_policy (normalize_settings s) p)
