-- ===== src/AccountControl/Carry.antt =====
-- internal/accountcontrol/service.go: `submitLocked` from `StatusValidating` to the write.
use sub2api_account_schedule.Base.{ℕ, suc, Bool, true, false, Option, none, some, [], if◌then◌else◌}
use sub2api_account_schedule.Base.Int.{ℤ}
use sub2api_account_schedule.ControlPlane.Intent.{Intent}
use sub2api_account_schedule.AccountControl.Types.{
  validating, executing, applied_noop, blocked, failed, no_block, BlockReason, account_not_found,
  is_no_block, OverrideKind,
}
use sub2api_account_schedule.AccountControl.Records.{
  Account, Control, BalanceLock, CostLock, Mutation, Submission,
}
use sub2api_account_schedule.AccountControl.Projection.{
  ExternalError, account_matches_intent, state_from_account,
}
use sub2api_account_schedule.AccountControl.Program.{
  Program, ret, call, ◌>>=◌, Answer, value, failure, now, update_mutation, get_control,
  get_balance_lock, get_cost_lock,
}
use sub2api_account_schedule.AccountControl.Guard.{Verdict, check_safety}
use sub2api_account_schedule.AccountControl.Overrides.{external, no_cause, not_found, caused_by}
use sub2api_account_schedule.AccountControl.Journal.{
  Outcome, fail, set_winning_mutation, finish_without_write, mark_uncertain, finalize,
}
use sub2api_account_schedule.AccountControl.Service.{
  Reading, found, missing, unread, read_account, Attempt, execute, resolve_write_error,
}

abbrev pub executing_mutation : Mutation → ℕ → Mutation
executing_mutation m at = record m {
  status = executing;
  attempt_count = suc m.attempt_count;
  updated_at = at;
}

-- The guard has let the winner pass and the winner is written down.
abbrev pub after_winner : Attempt → Mutation → Option ExternalError → Program Outcome
after_winner t m (some e) = ret (fail (external e))
after_winner t m none =
    if account_matches_intent t.before_account t.winner
    then finalize t.submission
        (record m { after = some (state_from_account t.before_account); status = applied_noop })
        t.persisted t.control t.before_account true
    else call now (λ at.
      let running = executing_mutation m at in call (update_mutation running) (execute t running))

abbrev pub by_verdict :
    Submission
    → Mutation
    → Bool
    → Control
    → Account
    → Intent
    → OverrideKind
    → BlockReason
    → Option ExternalError
    → Program Outcome
by_verdict s m persisted control account winner kind reason (some e) =
    finish_without_write s m failed reason (caused_by e)
by_verdict s m persisted control account winner kind reason none =
    if is_no_block reason
    then call now (λ at.
      let t : Attempt = record {
        submission = s;
        persisted = persisted;
        control = control;
        before_account = account;
        winner = winner;
      } in
      let won = record (set_winning_mutation m winner kind) { updated_at = at } in
      call (update_mutation won) (after_winner t won))
    else finish_without_write s m blocked reason no_cause

abbrev pub guarded :
    Submission
    → Mutation
    → Bool
    → Control
    → Account
    → Intent
    → OverrideKind
    → Verdict
    → Program Outcome
guarded s m persisted control account winner kind v =
    by_verdict s m persisted control account winner kind v.reason v.error

abbrev pub after_before :
    Submission
    → Mutation
    → Bool
    → Control
    → Account
    → Intent
    → OverrideKind
    → Option ExternalError
    → Program Outcome
after_before s m persisted control account winner kind (some e) = ret (fail (external e))
after_before s m persisted control account winner kind none =
    check_safety winner account control s.safety
    >>= guarded s m persisted control account winner kind

-- `loadControl`: the control record with the locks as they are stored.
abbrev pub with_cost : Control → Option CostLock → Control
with_cost c none = record c { cost_locked = false; cost_source_id = none; cost_pool = [] }
with_cost c (some l) = record c {
  cost_locked = true;
  cost_source_id = some l.source_id;
  cost_pool = l.pool;
}

abbrev pub with_balance : Control → Option BalanceLock → Control
with_balance c none = record c { balance_locked = false; balance_source_id = none }
with_balance c (some l) = record c { balance_locked = true; balance_source_id = some l.source_id }

abbrev pub loaded_cost : Control → Answer (Option CostLock) → Program (Answer Control)
loaded_cost c (failure e) = ret (failure e)
loaded_cost c (value l) = ret (value (with_cost c l))

abbrev pub loaded_balance : ℤ → Control → Answer (Option BalanceLock) → Program (Answer Control)
loaded_balance id c (failure e) = ret (failure e)
loaded_balance id c (value l) = call (get_cost_lock id) (loaded_cost (with_balance c l))

abbrev pub loaded_control : ℤ → Answer Control → Program (Answer Control)
loaded_control id (failure e) = ret (failure e)
loaded_control id (value c) = call (get_balance_lock id) (loaded_balance id c)

unfoldable pub load_control : ℤ → Program (Answer Control)
load_control id = call (get_control id) (loaded_control id)

abbrev pub with_control :
    Submission
    → Mutation
    → Bool
    → Account
    → Intent
    → OverrideKind
    → Answer Control
    → Program Outcome
with_control s m persisted account winner kind (failure e) =
    finish_without_write s m failed no_block (caused_by e)
with_control s m persisted account winner kind (value control) = call now (λ at.
    let known = record m { before = some (state_from_account account); updated_at = at } in
    call (update_mutation known) (after_before s known persisted control account winner kind))

abbrev pub with_account :
    Submission → Mutation → Bool → Intent → OverrideKind → Reading → Program Outcome
with_account s m persisted winner kind missing =
    finish_without_write s m blocked account_not_found not_found
with_account s m persisted winner kind (unread e) =
    finish_without_write s m failed no_block (caused_by e)
with_account s m persisted winner kind (found account) =
    load_control m.account_id >>= with_control s m persisted account winner kind

abbrev pub after_validating :
    Submission → Mutation → Bool → Intent → OverrideKind → Option ExternalError → Program Outcome
after_validating s m persisted winner kind (some e) = ret (fail (external e))
after_validating s m persisted winner kind none =
    read_account m.account_id (with_account s m persisted winner kind)

-- `submitLocked` from `StatusValidating` on, for a mutation whose winner is the submission.
unfoldable pub carry_out :
    Submission → Mutation → Bool → Intent → OverrideKind → ℕ → Program Outcome
unfolding resolve_write_error mark_uncertain finalize finish_without_write load_control check_safety
    ◌>>=◌
carry_out s m persisted winner kind at =
    let validating_mutation = record m { status = validating; updated_at = at } in
    call (update_mutation validating_mutation)
      (after_validating s validating_mutation persisted winner kind)
