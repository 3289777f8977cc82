-- ===== src/AccountControl/Journal/Ending.antt =====
-- internal/accountcontrol/service.go: how a mutation ends: without a write, uncertain, or committed.
use sub2api_account_schedule.Base.{
  ℕ, Bool, true, false, Option, none, some, [], Text, codes, is_empty, if◌then◌else◌,
}
use sub2api_account_schedule.AccountControl.Types.{
  MutationStatus, verifying, applied_noop, blocked, uncertain, superseded, expired, OverrideStatus,
  active_override, expired_override, blocked_override, failed_override, superseded_override,
  BlockReason, no_block, block_string, is_noop,
}
use sub2api_account_schedule.AccountControl.Records.{
  Account, Control, Mutation, Result, Event, EventDetails, Submission,
}
use sub2api_account_schedule.AccountControl.Projection.{
  ExternalError, result_from_mutation, update_control, default_event,
}
use sub2api_account_schedule.AccountControl.Program.{
  Program, ret, call, now, update_mutation, finalize_mutation,
}
use sub2api_account_schedule.AccountControl.Overrides.{
  ServiceError, external, blocked_error, mutation_state_error, Cause, no_cause, local_commit, code,
}

-- A result and an error; `none` is the zero result.
pub record Outcome : Type 0 where
  pub result : Option Result
  pub error : Option ServiceError

abbrev pub fail : ServiceError → Outcome
fail e = record { result = none; error = some e }

-- The end of a mutation that writes nothing more.
abbrev override_status_of : MutationStatus → OverrideStatus
override_status_of blocked = blocked_override
override_status_of expired = expired_override
override_status_of superseded = superseded_override
override_status_of _ = failed_override

abbrev pub is_blocked : MutationStatus → Bool
is_blocked blocked = true
is_blocked _ = false

abbrev error_code_of : BlockReason → Cause → Text
error_code_of no_block no_cause = []
error_code_of no_block _ = codes "mutation_failed"
error_code_of reason _ = block_string reason

abbrev pub error_of_status : MutationStatus → Result → Cause → Option ServiceError
error_of_status blocked r cause = some (blocked_error r)
error_of_status status r no_cause = none
error_of_status status r cause = some (mutation_state_error r cause)

abbrev finished_event : Submission → Mutation → MutationStatus → BlockReason → ℕ → Event
finished_event s m status reason at =
    record (if is_empty s.event.kind then default_event m status reason at else s.event) {
      goal_id = m.goal_id;
      step_id = m.step_id;
    }

abbrev pub finished_mutation : Mutation → MutationStatus → BlockReason → Cause → ℕ → Mutation
finished_mutation m status reason cause at = record m {
  status = status;
  last_error_code = error_code_of reason cause;
  updated_at = at;
  completed_at = some at;
}

abbrev pub finished_outcome : Mutation → MutationStatus → Cause → Option ExternalError → Outcome
finished_outcome m status cause (some e) = fail (external e)
finished_outcome m status cause none =
    let r = result_from_mutation m false in
    record { result = some r; error = error_of_status status r cause }

unfoldable pub finish_without_write :
    Submission → Mutation → MutationStatus → BlockReason → Cause → Program Outcome
unfolding result_from_mutation
finish_without_write s m status reason cause = call now λ at.
    let done = finished_mutation m status reason cause at in
    call
      (finalize_mutation (record {
        mutation = done;
        control = none;
        event = finished_event s done status reason at;
        activate_override = false;
        override_status = override_status_of status;
        revoke_override_id = [];
        revoke_actor = [];
        revoke_reason = [];
        flap_policy = none;
      }))
      λ r. ret (finished_outcome done status cause r)

abbrev cause_or_code : Cause → Text → Cause
cause_or_code no_cause c = code c
cause_or_code cause c = cause

abbrev pub marked_outcome : Mutation → Text → Cause → Option ExternalError → Outcome
marked_outcome m c cause (some e) = fail (external e)
marked_outcome m c cause none =
    let r = result_from_mutation m false in
    record { result = some r; error = some (mutation_state_error r (cause_or_code cause c)) }

unfoldable pub mark_uncertain : Mutation → Text → Cause → Program Outcome
unfolding result_from_mutation
mark_uncertain m c cause = call now λ at.
    let marked = record m { status = uncertain; last_error_code = c; updated_at = at } in
    call (update_mutation marked) (λ r. ret (marked_outcome marked c cause r))

abbrev is_exactly_uncertain : MutationStatus → Bool
is_exactly_uncertain uncertain = true
is_exactly_uncertain _ = false

abbrev details_of : Mutation → EventDetails
details_of m = record {
  mutation_id = m.id;
  intent_id = m.intent_id;
  producer = m.winning.producer;
  authority = m.winning.authority;
  operation = m.operation;
  status = m.status;
  expires_at = m.winning.expires_at;
  verified_after = m.after;
  uncertain = is_exactly_uncertain m.status;
}

abbrev noop_event : Mutation → Event → Event
noop_event m e =
    if is_noop m.status
    then record e {
      kind = codes "account_mutation_applied_noop";
      severity = codes "info";
      message = codes "账号实际状态已满足仲裁结果，未调用写接口";
    }
    else e

abbrev final_event : Submission → Mutation → ℕ → Event
final_event s m at =
    record (noop_event m
      (if is_empty s.event.kind then default_event m m.status no_block at else s.event)) {
        account_id = some m.account_id;
        goal_id = m.goal_id;
        step_id = m.step_id;
        actor = m.actor;
        created_at = at;
        before_state = m.before;
        after_state = m.after;
        details = some (details_of m);
      }

abbrev final_outcome : Mutation → Outcome
final_outcome m = record { result = some (result_from_mutation m false); error = none }

-- The commit failed: the mutation is put back to verifying, whatever becomes of that update.
abbrev pub uncommitted : Mutation → Mutation
uncommitted m = record m {
  status = verifying;
  completed_at = none;
  last_error_code = codes "local_commit_failed";
}

abbrev pub uncommitted_outcome : Mutation → ExternalError → Outcome
uncommitted_outcome m e =
    let r = result_from_mutation (uncommitted m) false in
    record { result = some r; error = some (mutation_state_error r (local_commit e)) }

abbrev pub after_finalize : Mutation → Option ExternalError → Program Outcome
after_finalize m none = ret (final_outcome m)
after_finalize m (some e) =
    call (update_mutation (uncommitted m)) (λ r. ret (uncommitted_outcome m e))

unfoldable pub finalize : Submission → Mutation → Bool → Control → Account → Bool → Program Outcome
unfolding result_from_mutation
finalize s m₀ persisted control verified noop = call now λ at.
    let m = record m₀ {
      status = if noop then applied_noop else m₀.status;
      updated_at = at;
      completed_at = some at;
    } in
    call
      (finalize_mutation (record {
        mutation = m;
        control = some (update_control control m verified s at);
        event = final_event s m at;
        activate_override = persisted;
        override_status = active_override;
        revoke_override_id = s.revoke_override_id;
        revoke_actor = m.actor;
        revoke_reason = codes "superseded by explicit account control command";
        flap_policy = s.flap_policy;
      }))
      (after_finalize m)
