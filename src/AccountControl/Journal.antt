-- ===== src/AccountControl/Journal.antt =====
-- internal/accountcontrol/service.go: a mutation and how it is written down; the module below says
-- how it ends.
mod Ending
unfoldable pub use Ending.*
use sub2api_account_schedule.Base.{
  ℕ, Bool, true, false, Option, none, some, [], Text, codes, is_empty, is_blank, trim,
  if◌then◌else◌,
}
use sub2api_account_schedule.Base.Int.{pos}
use sub2api_account_schedule.ControlPlane.Types.{
  DesiredState, schedulable_of, load_factor_of, account_id_of,
}
use sub2api_account_schedule.ControlPlane.Intent.{Intent}
use sub2api_account_schedule.AccountControl.Types.{
  MutationStatus, prepared, verifying, applied_noop, blocked, uncertain, superseded, expired,
  OverrideStatus, active_override, expired_override, blocked_override, failed_override,
  superseded_override, OverrideKind, BlockReason, no_block, block_string, is_noop,
}
use sub2api_account_schedule.AccountControl.Records.{
  Account, Control, Mutation, Requested, Winning, Result, Event, EventDetails, Submission,
}
use sub2api_account_schedule.AccountControl.Projection.{
  ExternalError, result_from_mutation, update_control, default_event,
}
use sub2api_account_schedule.AccountControl.Program.{
  Program, ret, call, now, update_mutation, finalize_mutation,
}
use sub2api_account_schedule.AccountControl.Overrides.{
  Go, Checked, good, bad, checked_signature, ServiceError, external, blocked_error,
  mutation_state_error, Cause, no_cause, local_commit, code,
}

-- The desired state as it is stored: `setRequestedMutation`, and the end of `setWinningMutation`.
unfoldable pub requested_of : DesiredState → Requested
requested_of d =
    if (schedulable_of d).1
    then record { schedulable = some ((schedulable_of d).0); load_factor = none; load_set = false }
    else if (load_factor_of d).2
    then record {
      schedulable = none;
      load_factor = if (load_factor_of d).1 then some ((load_factor_of d).0) else none;
      load_set = (load_factor_of d).1;
    }
    else record { schedulable = none; load_factor = none; load_set = false }

unfoldable pub winning_of : Intent → OverrideKind → Winning
unfolding requested_of
winning_of i kind = record {
  intent_id = i.id;
  idempotency_key = i.idempotency_key;
  producer = i.producer;
  authority = i.authority;
  actor = i.actor;
  reason = i.reason;
  evidence_refs = i.evidence_refs;
  policy_version = i.policy_version;
  snapshot_version = i.snapshot_version;
  created_at = i.created_at;
  expires_at = i.expires_at;
  desired = requested_of i.desired_state;
  override_kind = kind;
}

abbrev pub set_winning_mutation : Mutation → Intent → OverrideKind → Mutation
set_winning_mutation m i kind = record m { winning = winning_of i kind }

-- The key and the signature of the request: its own, or those of the intent.
abbrev pub request_key : Submission → Text
request_key s =
    if is_blank s.request_idempotency_key
    then s.intent.idempotency_key
    else trim s.request_idempotency_key

abbrev checked_request : Submission → Checked Text → Checked Text
checked_request s signature =
    if is_blank s.request_semantic_signature
    then signature
    else good (trim s.request_semantic_signature)

unfoldable pub request_signature : Go → Submission → Checked Text
request_signature go s = checked_request s (checked_signature go s.intent)

abbrev mutation_with : Text → Submission → Intent → OverrideKind → ℕ → Text → Mutation
mutation_with id s winner kind at signature = record {
  id = id;
  command_id = trim s.command_id;
  intent_id = s.intent.id;
  idempotency_key = request_key s;
  semantic_signature =
      if is_blank s.request_semantic_signature
      then signature
      else trim s.request_semantic_signature;
  account_id = (account_id_of s.intent.resource).0;
  operation = s.intent.operation;
  requested = requested_of s.intent.desired_state;
  winning = winning_of winner kind;
  producer = s.intent.producer;
  authority = s.intent.authority;
  actor = s.intent.actor;
  reason_code = s.event.kind;
  reason = s.intent.reason;
  policy_version = s.intent.policy_version;
  snapshot_version = s.intent.snapshot_version;
  run_id = pos 0;
  goal_id = pos 0;
  step_id = pos 0;
  expires_at = s.intent.expires_at;
  status = prepared;
  attempt_count = 0;
  before = none;
  after = none;
  last_error_code = [];
  created_at = s.intent.created_at;
  updated_at = at;
  completed_at = none;
  override_id = [];
  revoke_override_id = s.revoke_override_id;
  telemetry_fresh = s.safety.telemetry_fresh;
  cooldown_active = s.safety.cooldown_active;
}

abbrev signed_mutation :
    Text → Submission → Intent → OverrideKind → ℕ → Checked Text → Checked Mutation
signed_mutation id s winner kind at (bad e) = bad e
signed_mutation id s winner kind at (good signature) =
    good (mutation_with id s winner kind at signature)

unfoldable pub new_mutation : Go → Text → Submission → Intent → OverrideKind → ℕ → Checked Mutation
unfolding requested_of winning_of
new_mutation go id s winner kind at =
    signed_mutation id s winner kind at (checked_signature go s.intent)
