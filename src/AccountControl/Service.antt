-- ===== src/AccountControl/Service.antt =====
-- internal/accountcontrol/service.go and executor.go: the write of an
-- account, the reading back, and what an error of the write leads to.
use sub2api_account_schedule.Base.{
  suc, Bool, false, ◌&&◌, Option, none, some, List, Text, codes, if◌then◌else◌, ltb, find,
}
use sub2api_account_schedule.Base.Int.{ℤ, eq_ℤ}
use sub2api_account_schedule.ControlPlane.Types.{
  Operation, set_account_schedulable, set_account_load_factor, schedulable_of, load_factor_of,
  account_id_of,
}
use sub2api_account_schedule.ControlPlane.Intent.{Intent}
use sub2api_account_schedule.AccountControl.Types.{executing, verifying, applied, failed, no_block}
use sub2api_account_schedule.AccountControl.Records.{Account, Control, Mutation, Submission}
use sub2api_account_schedule.AccountControl.Projection.{
  ExternalError, account_matches_intent, same_account_state, state_from_account,
  result_from_mutation, ambiguous_write_error,
}
use sub2api_account_schedule.AccountControl.Program.{
  Program, ret, call, Answer, value, failure, now, list_accounts, update_mutation, set_schedulable,
  update_load_factor,
}
use sub2api_account_schedule.AccountControl.Overrides.{
  external, Cause, no_cause, not_found, state_mismatch, caused_by,
}
use sub2api_account_schedule.AccountControl.Journal.{
  Outcome, fail, finish_without_write, mark_uncertain, finalize,
}

-- A read of one account: found, not listed, or failed.
pub data Reading : Type 0 where
  found : Account → Reading
  missing : Reading
  unread : ExternalError → Reading

abbrev pub reading_of : Option Account → Reading
reading_of none = missing
reading_of (some a) = found a

-- `findAccount` in the answer of `ListAccounts`.
abbrev pub find_account : ℤ → Answer (List Account) → Reading
find_account id (failure e) = unread e
find_account id (value l) = reading_of (find (λ a. eq_ℤ a.id id) l)

abbrev pub cause_of_reading : Reading → Cause
cause_of_reading (found a) = no_cause
cause_of_reading missing = not_found
cause_of_reading (unread e) = caused_by e

-- `readAccount` and what follows it.
abbrev pub read_account : {A : Type 0} → ℤ → (Reading → Program A) → Program A
read_account id k = call list_accounts (λ r. k (find_account id r))

-- The answer of a write, without the account that Go ignores.
abbrev pub write_error : Answer Account → Option ExternalError
write_error (value a) = none
write_error (failure e) = some e

-- errUnsupportedOperation, as the error of a write.
abbrev pub unsupported_write : ExternalError
unsupported_write = record {
  is_network = false;
  is_deadline_exceeded = false;
  is_eof = false;
  is_unexpected_eof = false;
  message = codes "unsupported account mutation operation";
}

abbrev pub write_operation :
    {A : Type 0} → Operation → Intent → (Option ExternalError → Program A) → Program A
write_operation set_account_schedulable i k =
    call (set_schedulable (account_id_of i.resource).0 (schedulable_of i.desired_state).0)
      (λ r. k (write_error r))
write_operation set_account_load_factor i k =
    call
      (update_load_factor (account_id_of i.resource).0 (
        if (load_factor_of i.desired_state).1
        then some ((load_factor_of i.desired_state).0)
        else none))
      (λ r. k (write_error r))
write_operation _ i k = k (some unsupported_write)

-- `executor.write`
abbrev pub write : {A : Type 0} → Intent → (Option ExternalError → Program A) → Program A
write i k = write_operation i.operation i k

-- What stays the same from the guard on: the submission, whether an override is pending, the control
-- record, the account before the write and the winner.
pub record Attempt : Type 0 where
  pub submission : Submission
  pub persisted : Bool
  pub control : Control
  pub before_account : Account
  pub winner : Intent

abbrev pub applied_with : Mutation → Account → Mutation
applied_with m a = record m { after = some (state_from_account a); status = applied }

abbrev pub finalize_applied : Attempt → Mutation → Account → Program Outcome
finalize_applied t m a = finalize t.submission (applied_with m a) t.persisted t.control a false

-- `err != nil || !accountMatchesIntent(…)` at a read.
abbrev pub settle_reading :
    Attempt → Mutation → Reading → Text → (Reading → Cause) → Program Outcome
settle_reading t m (found a) c cause =
    if account_matches_intent a t.winner
    then finalize_applied t m a
    else mark_uncertain m c (cause (found a))
settle_reading t m r c cause = mark_uncertain m c (cause r)

-- After the controlled retry.
abbrev pub after_retry : Attempt → Mutation → Option ExternalError → Program Outcome
after_retry t m (some e) =
    read_account m.account_id
      (λ r. settle_reading t m r (codes "controlled_retry_uncertain") (λ _. caused_by e))
after_retry t m none =
    read_account m.account_id
      (λ r. settle_reading t m r (codes "controlled_retry_unverified") cause_of_reading)

abbrev pub retry : Attempt → Mutation → Option ExternalError → Program Outcome
retry t m (some e) = ret (fail (external e))
retry t m none = write t.winner (after_retry t m)

-- An ambiguous write was read back.
abbrev pub after_readback : Attempt → Mutation → ExternalError → Reading → Program Outcome
after_readback t m e (found a) =
    if account_matches_intent a t.winner
    then finalize_applied t m a
    else if same_account_state a t.before_account && ltb m.attempt_count 2
    then call now (λ at.
      let again = record m {
        status = executing;
        attempt_count = suc m.attempt_count;
        last_error_code = codes "controlled_retry";
        updated_at = at;
      } in
      call (update_mutation again) (retry t again))
    else mark_uncertain m (codes "write_state_diverged") (caused_by e)
after_readback t m e r = mark_uncertain m (codes "write_and_readback_uncertain") (caused_by e)

unfoldable pub resolve_write_error : Attempt → Mutation → ExternalError → Program Outcome
unfolding mark_uncertain finalize
resolve_write_error t m e =
    if ambiguous_write_error e
    then read_account m.account_id (after_readback t m e)
    else finish_without_write t.submission m failed no_block (caused_by e)

-- The write succeeded: verify it.
abbrev pub after_verify : Attempt → Mutation → Reading → Program Outcome
after_verify t m (found a) =
    if account_matches_intent a t.winner
    then finalize_applied t m a
    else mark_uncertain m (codes "post_write_mismatch") state_mismatch
after_verify t m missing = mark_uncertain m (codes "post_write_read_failed") not_found
after_verify t m (unread e) = mark_uncertain m (codes "post_write_read_failed") (caused_by e)

abbrev pub verify : Attempt → Mutation → Option ExternalError → Program Outcome
verify t m (some e) =
    ret (record { result = some (result_from_mutation m false); error = some (external e) })
verify t m none = read_account m.account_id (after_verify t m)

abbrev pub after_write : Attempt → Mutation → Option ExternalError → Program Outcome
after_write t m (some e) = resolve_write_error t m e
after_write t m none = call now (λ at.
    let verifying_mutation = record m { status = verifying; updated_at = at } in
    call (update_mutation verifying_mutation) (verify t verifying_mutation))

abbrev pub execute : Attempt → Mutation → Option ExternalError → Program Outcome
execute t m (some e) = ret (fail (external e))
execute t m none = write t.winner (after_write t m)
