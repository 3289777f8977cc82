-- ===== src/AccountControl/Records.antt =====
-- internal/accountcontrol/types.go and internal/model: the records that the service reads and
-- writes. A pointer that may be nil is an option; times are nanoseconds since Go's zero time.
use sub2api_account_schedule.Base.{ℕ, Bool, Option, List, Text}
use sub2api_account_schedule.Base.Int.{ℤ}
use sub2api_account_schedule.ControlPlane.Types.{Producer, Authority, Operation}
use sub2api_account_schedule.ControlPlane.Intent.{Intent}
use sub2api_account_schedule.AccountControl.Types.{
  MutationStatus, OverrideStatus, OverrideKind, FreezeMode,
}

pub record AccountState : Type 0 where
  pub schedulable : Bool
  pub load_factor : Option ℤ

-- model.Account, as far as the service reads it. `ExpiresAt` is in Unix seconds.
pub record Account : Type 0 where
  pub id : ℤ
  pub status : Text
  pub schedulable : Bool
  pub error_message : Text
  pub expires_at : Option ℤ
  pub load_factor : Option ℤ
  pub credential_status : Text
  pub rate_limit_reset_at : Option ℕ
  pub overload_until : Option ℕ
  pub temp_unschedulable_until : Option ℕ

-- model.AccountControl
pub record Control : Type 0 where
  pub account_id : ℤ
  pub monitor_id : Option ℤ
  pub owns_pause : Bool
  pub owner : Text
  pub expected_schedulable : Option Bool
  pub manual_override_until : Option ℕ
  pub last_observed : Option Bool
  pub last_decision : Text
  pub last_action_at : Option ℕ
  pub flap_active : Bool
  pub flap_triggered_at : Option ℕ
  pub flap_recovery_required : ℤ
  pub recent_automatic_pauses : ℤ
  pub health_locked : Bool
  pub manual_locked : Bool
  pub balance_locked : Bool
  pub balance_source_id : Option ℤ
  pub cost_locked : Bool
  pub cost_source_id : Option ℤ
  pub cost_pool : Text
  pub owns_load_factor : Bool
  pub original_load_factor : Option ℤ
  pub expected_load_factor : Option ℤ
  pub load_stage : Text
  pub load_override_until : Option ℕ
  pub load_pin_value : Option ℤ
  pub load_pin_until : Option ℕ
  pub load_pin_owner : Text
  pub load_pin_reason : Text
  pub recovery_step : ℤ
  pub recovery_started_at : Option ℕ
  pub updated_at : ℕ

pub record FreezeState : Type 0 where
  pub mode : FreezeMode
  pub expires_at : Option ℕ

pub record BalanceLock : Type 0 where
  pub source_id : ℤ

pub record CostLock : Type 0 where
  pub source_id : ℤ
  pub pool : Text

pub record FlapPolicy : Type 0 where
  pub enabled : Bool
  pub window_minutes : ℤ
  pub pause_threshold : ℤ
  pub recovery_threshold : ℤ

pub record Override : Type 0 where
  pub id : Text
  pub command_id : Text
  pub intent_id : Text
  pub idempotency_key : Text
  pub semantic_signature : Text
  pub account_id : ℤ
  pub operation : Operation
  pub kind : OverrideKind
  pub schedulable : Option Bool
  pub load_factor : Option ℤ
  pub load_factor_set : Bool
  pub producer : Producer
  pub authority : Authority
  pub actor : Text
  pub reason : Text
  pub evidence_refs : List Text
  pub policy_version : Text
  pub snapshot_version : Text
  pub created_at : ℕ
  pub expires_at : Option ℕ
  pub status : OverrideStatus
  pub mutation_id : Text
  pub revoked_at : Option ℕ
  pub revoked_by : Text
  pub revoke_reason : Text
  pub updated_at : ℕ

-- What the mutation asks for, and the intent that won, are groups of fields of the Go struct.
pub record Requested : Type 0 where
  pub schedulable : Option Bool
  pub load_factor : Option ℤ
  pub load_set : Bool

pub record Winning : Type 0 where
  pub intent_id : Text
  pub idempotency_key : Text
  pub producer : Producer
  pub authority : Authority
  pub actor : Text
  pub reason : Text
  pub evidence_refs : List Text
  pub policy_version : Text
  pub snapshot_version : Text
  pub created_at : ℕ
  pub expires_at : Option ℕ
  pub desired : Requested
  pub override_kind : OverrideKind

pub record Mutation : Type 0 where
  pub id : Text
  pub command_id : Text
  pub intent_id : Text
  pub idempotency_key : Text
  pub semantic_signature : Text
  pub account_id : ℤ
  pub operation : Operation
  pub requested : Requested
  pub winning : Winning
  pub producer : Producer
  pub authority : Authority
  pub actor : Text
  pub reason_code : Text
  pub reason : Text
  pub policy_version : Text
  pub snapshot_version : Text
  pub run_id : ℤ
  pub goal_id : ℤ
  pub step_id : ℤ
  pub expires_at : Option ℕ
  pub status : MutationStatus
  pub attempt_count : ℕ
  pub before : Option AccountState
  pub after : Option AccountState
  pub last_error_code : Text
  pub created_at : ℕ
  pub updated_at : ℕ
  pub completed_at : Option ℕ
  pub override_id : Text
  pub revoke_override_id : Text
  pub telemetry_fresh : Bool
  pub cooldown_active : Bool

pub record Result : Type 0 where
  pub command_id : Text
  pub mutation_id : Text
  pub intent_id : Text
  pub account_id : ℤ
  pub operation : Operation
  pub requested : AccountState
  pub requested_load_set : Bool
  pub winning_authority : Authority
  pub status : MutationStatus
  pub blocked_reason : Text
  pub before : Option AccountState
  pub verified_after : Option AccountState
  pub expires_at : Option ℕ
  pub idempotent_replay : Bool
  pub uncertain : Bool

-- What the JSON of an event's details holds.
pub record EventDetails : Type 0 where
  pub mutation_id : Text
  pub intent_id : Text
  pub producer : Producer
  pub authority : Authority
  pub operation : Operation
  pub status : MutationStatus
  pub expires_at : Option ℕ
  pub verified_after : Option AccountState
  pub uncertain : Bool

-- model.Event: the JSON texts stand as the values that they encode.
pub record Event : Type 0 where
  pub id : ℤ
  pub kind : Text
  pub severity : Text
  pub monitor_id : Option ℤ
  pub account_id : Option ℤ
  pub goal_id : ℤ
  pub step_id : ℤ
  pub message : Text
  pub actor : Text
  pub created_at : ℕ
  pub before_state : Option AccountState
  pub after_state : Option AccountState
  pub details : Option EventDetails

pub record SafetyContext : Type 0 where
  pub telemetry_fresh : Bool
  pub cooldown_active : Bool

pub record Submission : Type 0 where
  pub command_id : Text
  pub intent : Intent
  pub request_idempotency_key : Text
  pub request_semantic_signature : Text
  pub persist_override : Bool
  pub override_kind : OverrideKind
  pub revoke_override_id : Text
  pub safety : SafetyContext
  pub event : Event
  pub flap_policy : Option FlapPolicy

-- `Control` is the zero value where the code leaves it out.
pub record Finalization : Type 0 where
  pub mutation : Mutation
  pub control : Option Control
  pub event : Event
  pub activate_override : Bool
  pub override_status : OverrideStatus
  pub revoke_override_id : Text
  pub revoke_actor : Text
  pub revoke_reason : Text
  pub flap_policy : Option FlapPolicy

-- CommandContext, as far as `submitLocked` reads it.
pub record CommandContext : Type 0 where
  pub run_id : ℤ
  pub goal_id : ℤ
  pub step_id : ℤ
