-- ===== src/AccountControl/Recovery.antt =====
-- internal/accountcontrol/recovery.go: what becomes of a mutation that was not finished when the
-- program stopped.
pub mod Intents
pub mod Grouping
pub mod Inside
pub mod Discipline
pub mod Settled
pub mod Observed
mod Examples
use sub2api_account_schedule.Base.{
  ℕ, suc, Bool, true, false, not, ◌&&◌, ◌||◌, Option, none, some, List, [], ◌∷◌, ◌++◌, Text, codes,
  if◌then◌else◌, leb, is_empty,
}
use sub2api_account_schedule.Base.Int.{ℤ, pos, eq_ℤ}
use sub2api_account_schedule.ControlPlane.Types.{
  unknown_producer, unknown_authority, other_resource, unknown_operation, zero_state,
}
use sub2api_account_schedule.ControlPlane.Intent.{
  Intent, IntentMetadata, expires_by, new_account_schedulable_intent,
  new_account_load_factor_intent,
}
use sub2api_account_schedule.AccountControl.Types.{
  MutationStatus, executing, applied, blocked, uncertain, expired, is_terminal, is_unstarted,
  OverrideStatus, pending, active_override, expired_override, blocked_override, unset_kind,
  BlockReason, no_block, block_string, is_no_block,
}
use sub2api_account_schedule.AccountControl.Records.{
  Account, AccountState, Control, Mutation, Winning, Submission, SafetyContext, Event, Finalization,
}
use sub2api_account_schedule.AccountControl.Projection.{
  ExternalError, account_matches_intent, state_from_account, state_matches_account, update_control,
  default_event,
}
use sub2api_account_schedule.AccountControl.Program.{
  Program, ret, call, ◌>>=◌, Answer, value, failure, now, find_mutation, update_mutation,
  finalize_mutation, acquire_lock, release_lock, acquire_slot, release_slot,
}
use sub2api_account_schedule.AccountControl.Guard.{Verdict, check_safety}
use sub2api_account_schedule.AccountControl.Overrides.{
  ServiceError, external, Checked, good, bad, from_result,
}
use sub2api_account_schedule.AccountControl.Service.{
  Reading, found, missing, unread, read_account, write,
}
use sub2api_account_schedule.AccountControl.Carry.{load_control}
use sub2api_account_schedule.AccountControl.Closing.{
  winning_metadata, winning_value, intent_from_winning_mutation, intent_expired,
  recovered_override_status, as_error, closing, close_mutation, expired_mutation,
  expire_pending_mutation, blocked_mutation, block_mutation, leave_uncertain, zero_intent,
  recovered_event, recovered_submission, recovered_mutation, recovered_finalization,
  commit_recovered,
}

-- `groupRecoveryItems`: one batch for each account, in the order in which the accounts turn up.
abbrev pub Batch : Type 0
Batch = ℤ × List Mutation

unfoldable pub add_to_batch : Mutation → List Batch → List Batch
add_to_batch m [] = (m.account_id, m ∷ []) ∷ []
add_to_batch m ((a, l) ∷ batches) =
    let rest = add_to_batch m batches in
    if eq_ℤ a m.account_id then (a, l ++ (m ∷ [])) ∷ batches else (a, l) ∷ rest

unfoldable pub group_from : List Mutation → List Batch → List Batch
unfolding add_to_batch
group_from [] batches = batches
group_from (m ∷ l) batches = group_from l (add_to_batch m batches)

unfoldable pub group_recovery_items : List Mutation → List Batch
unfolding group_from
group_recovery_items items = group_from items []

-- After the retried write.
abbrev pub verify_recovered : Mutation → Intent → Control → Reading → Program (Option ServiceError)
verify_recovered m i control (found a) =
    if account_matches_intent a i
    then call now (λ at. call now (λ event_at.
      commit_recovered (recovered_mutation m a at) i control a
        (codes "completed during controlled recovery retry") event_at at))
    else leave_uncertain m (codes "recovery_retry_unverified")
verify_recovered m i control missing = leave_uncertain m (codes "recovery_retry_unverified")
verify_recovered m i control (unread e) = leave_uncertain m (codes "recovery_retry_unverified")

abbrev pub after_recovery_write :
    Mutation → Intent → Control → Option ExternalError → Program (Option ServiceError)
after_recovery_write m i control (some e) = leave_uncertain m (codes "recovery_retry_uncertain")
after_recovery_write m i control none = read_account m.account_id (verify_recovered m i control)

abbrev pub retry_recovered :
    Mutation → Intent → Control → Option ExternalError → Program (Option ServiceError)
retry_recovered m i control (some e) = ret (some (external e))
retry_recovered m i control none = write i (after_recovery_write m i control)

abbrev pub retried : Mutation → ℕ → Mutation
retried m at = record m { status = executing; attempt_count = suc m.attempt_count; updated_at = at }

abbrev pub second_verdict :
    Mutation → Intent → Control → BlockReason → Option ExternalError → Program (Option ServiceError)
second_verdict m i control reason (some e) = ret (some (external e))
second_verdict m i control reason none =
    if is_no_block reason
    then call now
        (λ at. call (update_mutation (retried m at)) (retry_recovered (retried m at) i control))
    else block_mutation m (some control) reason

abbrev pub recovery_safety : Mutation → SafetyContext
recovery_safety m = record {
  telemetry_fresh = m.telemetry_fresh;
  cooldown_active = m.cooldown_active;
}

abbrev pub unless_diverged :
    Mutation → Intent → Account → Control → AccountState → Program (Option ServiceError)
unless_diverged m i a control before =
    if not (state_matches_account before a) || leb 2 m.attempt_count
    then leave_uncertain m (codes "recovery_state_diverged")
    else check_safety i a control (recovery_safety m) >>= λ v.
        second_verdict m i control v.reason v.error

-- `mutation.Before == nil`
abbrev pub with_before :
    Mutation → Intent → Account → Control → Option AccountState → Program (Option ServiceError)
with_before m i a control (some before) = unless_diverged m i a control before
with_before m i a control none =
    if not (is_unstarted m.status)
    then leave_uncertain m (codes "recovery_missing_before_state")
    else unless_diverged (record m { before = some (state_from_account a) }) i a control
        (state_from_account a)

abbrev pub proceed : Mutation → Intent → Account → Control → Program (Option ServiceError)
proceed m i a control =
    if account_matches_intent a i
    then call now (λ at.
      commit_recovered (recovered_mutation m a at) i control a
        (codes "completed during startup recovery") at at)
    else call now (λ at.
      if intent_expired i at
      then call now (expire_pending_mutation m)
      else with_before m i a control m.before)

abbrev pub first_verdict :
    Mutation
    → Intent
    → Account
    → Control
    → BlockReason
    → Option ExternalError
    → Program (Option ServiceError)
first_verdict m i a control reason (some e) = ret (some (external e))
first_verdict m i a control reason none =
    if is_no_block reason then proceed m i a control else block_mutation m none reason

abbrev pub recover_with_control :
    Mutation → Intent → Account → Answer Control → Program (Option ServiceError)
recover_with_control m i a (failure e) = ret (some (external e))
recover_with_control m i a (value control) =
    if is_unstarted m.status
    then check_safety i a control (recovery_safety m)
      >>= (λ v. first_verdict m i a control v.reason v.error)
    else proceed m i a control

abbrev pub recover_reading : Mutation → Intent → Reading → Program (Option ServiceError)
recover_reading m i (found a) = load_control m.account_id >>= recover_with_control m i a
recover_reading m i missing = leave_uncertain m (codes "recovery_read_failed")
recover_reading m i (unread e) = leave_uncertain m (codes "recovery_read_failed")

abbrev pub recover_intent : Mutation → Checked Intent → Program (Option ServiceError)
recover_intent m (bad e) = ret (some e)
recover_intent m (good i) = call now (λ at.
    if is_unstarted m.status && intent_expired i at
    then expire_pending_mutation m at
    else read_account m.account_id (recover_reading m i))

abbrev pub recover_current : Answer (Option Mutation) → Program (Option ServiceError)
recover_current (failure e) = ret (some (external e))
recover_current (value none) = ret none
recover_current (value (some m)) =
    if is_terminal m.status then ret none else recover_intent m (intent_from_winning_mutation m)

-- Inside the lock of the account and a slot.
unfoldable pub recover_locked : Mutation → Program (Option ServiceError)
unfolding ◌>>=◌ check_safety load_control intent_from_winning_mutation
recover_locked m = call (find_mutation m.idempotency_key) recover_current

abbrev pub after_slot : Mutation → Option ExternalError → Program (Option ServiceError)
after_slot m (some e) = call (release_lock m.account_id) (λ _. ret (some (external e)))
after_slot m none =
    recover_locked m >>= λ r. call release_slot (λ _. call (release_lock m.account_id) (λ _. ret r))

abbrev pub after_lock : Mutation → Option ExternalError → Program (Option ServiceError)
after_lock m (some e) = ret (some (external e))
after_lock m none = call acquire_slot (after_slot m)

unfoldable pub recover_one : Mutation → Program (Option ServiceError)
unfolding recover_locked ◌>>=◌
recover_one m = call (acquire_lock m.account_id) (after_lock m)
