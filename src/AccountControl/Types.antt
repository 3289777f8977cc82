-- ===== src/AccountControl/Types.antt =====
-- internal/accountcontrol/types.go: the statuses, kinds and reasons, with the strings that they are.
use sub2api_account_schedule.Base.{Bool, true, false, Option, none, some, Text, codes, []}
use sub2api_account_schedule.Base.Int.{ℤ, eq_ℤ}

pub data MutationStatus : Type 0 where
  prepared validating executing verifying applied applied_noop : MutationStatus
  blocked failed uncertain superseded expired : MutationStatus

abbrev pub is_terminal : MutationStatus → Bool
is_terminal applied = true
is_terminal applied_noop = true
is_terminal blocked = true
is_terminal failed = true
is_terminal superseded = true
is_terminal expired = true
is_terminal _ = false

unfoldable pub status_string : MutationStatus → Text
status_string prepared = codes "prepared"
status_string validating = codes "validating"
status_string executing = codes "executing"
status_string verifying = codes "verifying"
status_string applied = codes "applied"
status_string applied_noop = codes "applied_noop"
status_string blocked = codes "blocked"
status_string failed = codes "failed"
status_string uncertain = codes "uncertain"
status_string superseded = codes "superseded"
status_string expired = codes "expired"

-- The tests on a status that the code makes.
abbrev pub is_uncertain_status : MutationStatus → Bool
is_uncertain_status uncertain = true
is_uncertain_status verifying = true
is_uncertain_status _ = false

abbrev pub is_unstarted : MutationStatus → Bool
is_unstarted prepared = true
is_unstarted validating = true
is_unstarted _ = false

abbrev pub is_applied : MutationStatus → Bool
is_applied applied = true
is_applied applied_noop = true
is_applied _ = false

abbrev pub is_noop : MutationStatus → Bool
is_noop applied_noop = true
is_noop _ = false

abbrev pub is_executing : MutationStatus → Bool
is_executing executing = true
is_executing _ = false

-- Statuses that `Submit` returns with no error.
abbrev pub is_settled : MutationStatus → Bool
is_settled applied = true
is_settled applied_noop = true
is_settled superseded = true
is_settled expired = true
is_settled _ = false

pub data OverrideStatus : Type 0 where
  pending active_override revoked expired_override blocked_override : OverrideStatus
  failed_override superseded_override legacy_disabled : OverrideStatus

-- `unset_kind` is the empty string, the zero value of a submission.
pub data OverrideKind : Type 0 where
  unset_kind temporary manual_hold_kind load_pin legacy : OverrideKind

abbrev pub is_load_pin : OverrideKind → Bool
is_load_pin load_pin = true
is_load_pin _ = false

pub data BlockReason : Type 0 where
  no_block writes_frozen agent_writes_frozen account_not_found credential_invalid : BlockReason
  health_locked balance_locked cost_locked rate_limited stale_telemetry cooldown : BlockReason
  invalid_target : BlockReason

unfoldable pub block_string : BlockReason → Text
block_string no_block = []
block_string writes_frozen = codes "writes_frozen"
block_string agent_writes_frozen = codes "agent_writes_frozen"
block_string account_not_found = codes "account_not_found"
block_string credential_invalid = codes "credential_invalid"
block_string health_locked = codes "health_locked"
block_string balance_locked = codes "balance_locked"
block_string cost_locked = codes "cost_locked"
block_string rate_limited = codes "rate_limited"
block_string stale_telemetry = codes "stale_telemetry"
block_string cooldown = codes "cooldown"
block_string invalid_target = codes "invalid_target"

abbrev pub is_no_block : BlockReason → Bool
is_no_block no_block = true
is_no_block _ = false

-- model.AgentFreezeMode…; any other mode is none of the four.
pub data FreezeMode : Type 0 where
  active_mode agent_paused read_only writes_frozen_mode : FreezeMode
  other_mode : Text → FreezeMode

abbrev pub same_int : Option ℤ → Option ℤ → Bool
same_int none none = true
same_int (some a) (some b) = eq_ℤ a b
same_int _ _ = false
