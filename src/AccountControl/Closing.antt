-- ===== src/AccountControl/Closing.antt =====
-- internal/accountcontrol/recovery.go: the intent of a stored mutation, and the ways in which a
-- recovery ends one.
use sub2api_account_schedule.Base.{
  ℕ, Bool, false, not, Option, none, some, [], Text, codes, if◌then◌else◌, is_empty,
}
use sub2api_account_schedule.Base.Int.{ℤ, pos}
use sub2api_account_schedule.ControlPlane.Types.{
  unknown_producer, unknown_authority, other_resource, unknown_operation, zero_state,
}
use sub2api_account_schedule.ControlPlane.Intent.{
  Intent, IntentMetadata, expires_by, new_account_schedulable_intent,
  new_account_load_factor_intent,
}
use sub2api_account_schedule.AccountControl.Types.{
  applied, blocked, uncertain, expired, OverrideStatus, active_override, expired_override,
  blocked_override, unset_kind, BlockReason, no_block, block_string,
}
use sub2api_account_schedule.AccountControl.Records.{
  Account, Control, Mutation, Winning, Submission, Event, Finalization,
}
use sub2api_account_schedule.AccountControl.Projection.{
  ExternalError, state_from_account, update_control, default_event,
}
use sub2api_account_schedule.AccountControl.Program.{
  Program, ret, call, now, update_mutation, finalize_mutation,
}
use sub2api_account_schedule.AccountControl.Overrides.{ServiceError, external, Checked, from_result}

-- The intent that the stored winner stands for.
abbrev pub winning_metadata : Winning → IntentMetadata
winning_metadata w = record {
  id = w.intent_id;
  idempotency_key = w.idempotency_key;
  producer = w.producer;
  authority = w.authority;
  actor = w.actor;
  reason = w.reason;
  evidence_refs = w.evidence_refs;
  policy_version = w.policy_version;
  snapshot_version = w.snapshot_version;
  created_at = w.created_at;
  expires_at = w.expires_at;
}

abbrev pub winning_value : ℤ → Winning → Option Bool → Checked Intent
winning_value account w (some b) =
    from_result (new_account_schedulable_intent (winning_metadata w) account b)
winning_value account w none = from_result (
    new_account_load_factor_intent (winning_metadata w) account
      (if w.desired.load_set then w.desired.load_factor else none))

unfoldable pub intent_from_winning_mutation : Mutation → Checked Intent
intent_from_winning_mutation m = winning_value m.account_id m.winning m.winning.desired.schedulable

abbrev pub intent_expired : Intent → ℕ → Bool
intent_expired i at = expires_by i.expires_at at

abbrev pub recovered_override_status : Intent → ℕ → OverrideStatus
recovered_override_status i at = if intent_expired i at then expired_override else active_override

-- The error of the last call.
abbrev pub as_error : Option ExternalError → Program (Option ServiceError)
as_error none = ret none
as_error (some e) = ret (some (external e))

-- A mutation that ends without a commit of the control record, or with it as it was.
abbrev pub closing : Mutation → Option Control → BlockReason → OverrideStatus → ℕ → Finalization
closing m control reason status at = record {
  mutation = m;
  control = control;
  event = default_event m m.status reason at;
  activate_override = false;
  override_status = status;
  revoke_override_id = [];
  revoke_actor = [];
  revoke_reason = [];
  flap_policy = none;
}

abbrev pub close_mutation :
    Mutation → Option Control → BlockReason → OverrideStatus → ℕ → Program (Option ServiceError)
close_mutation m control reason status at =
    call (finalize_mutation (closing m control reason status at)) as_error

abbrev pub expired_mutation : Mutation → ℕ → Mutation
expired_mutation m at = record m {
  status = expired;
  last_error_code = codes "override_expired";
  updated_at = at;
  completed_at = some at;
}

abbrev pub expire_pending_mutation : Mutation → ℕ → Program (Option ServiceError)
expire_pending_mutation m at =
    close_mutation (expired_mutation m at) none no_block expired_override at

abbrev pub blocked_mutation : Mutation → BlockReason → ℕ → Mutation
blocked_mutation m reason at = record m {
  status = blocked;
  last_error_code = block_string reason;
  updated_at = at;
  completed_at = some at;
}

abbrev pub block_mutation : Mutation → Option Control → BlockReason → Program (Option ServiceError)
block_mutation m control reason =
    call now
      (λ at. close_mutation (blocked_mutation m reason at) control reason blocked_override at)

-- `mutation.Status = StatusUncertain`, with a code.
abbrev pub leave_uncertain : Mutation → Text → Program (Option ServiceError)
leave_uncertain m code = call now (λ at.
    call
      (update_mutation (record m { status = uncertain; last_error_code = code; updated_at = at }))
      as_error)

-- The submission that `updateControl` is given: all but the event's type and the override to revoke
-- are zero values.
abbrev pub zero_intent : Intent
zero_intent = record {
  id = [];
  idempotency_key = [];
  producer = unknown_producer [];
  authority = unknown_authority [];
  resource = record {
    kind = other_resource [];
    account_id = pos 0;
    upstream_source_id = pos 0;
    upstream_key_id = [];
  };
  operation = unknown_operation [];
  desired_state = zero_state;
  actor = [];
  reason = [];
  evidence_refs = [];
  policy_version = [];
  snapshot_version = [];
  created_at = 0;
  expires_at = none;
}

abbrev pub recovered_event : Mutation → Event
recovered_event m = record {
  id = pos 0;
  kind = m.reason_code;
  severity = [];
  monitor_id = none;
  account_id = none;
  goal_id = pos 0;
  step_id = pos 0;
  message = [];
  actor = [];
  created_at = 0;
  before_state = none;
  after_state = none;
  details = none;
}

abbrev pub recovered_submission : Mutation → Submission
recovered_submission m = record {
  command_id = [];
  intent = zero_intent;
  request_idempotency_key = [];
  request_semantic_signature = [];
  persist_override = false;
  override_kind = unset_kind;
  revoke_override_id = m.revoke_override_id;
  safety = record { telemetry_fresh = false; cooldown_active = false };
  event = recovered_event m;
  flap_policy = none;
}

abbrev pub recovered_mutation : Mutation → Account → ℕ → Mutation
recovered_mutation m a at = record m {
  after = some (state_from_account a);
  status = applied;
  updated_at = at;
  completed_at = some at;
}

abbrev pub recovered_finalization :
    Mutation → Intent → Control → Account → Text → ℕ → ℕ → ℕ → Finalization
recovered_finalization m i control a why event_at at later = record {
  mutation = m;
  control = some (update_control control m a (recovered_submission m) at);
  event = default_event m applied no_block event_at;
  activate_override = not (is_empty m.override_id);
  override_status = recovered_override_status i later;
  revoke_override_id = m.revoke_override_id;
  revoke_actor = m.actor;
  revoke_reason = why;
  flap_policy = none;
}

abbrev pub commit_recovered :
    Mutation → Intent → Control → Account → Text → ℕ → ℕ → Program (Option ServiceError)
commit_recovered m i control a why event_at at = call now (λ later.
    call (finalize_mutation (recovered_finalization m i control a why event_at at later)) as_error)
