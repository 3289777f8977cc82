-- ===== src/AccountControl/Submit/Carried.antt =====
-- internal/accountcontrol/service.go: `submitLocked` from the journal entry on, through the guard.
use sub2api_account_schedule.Base.{
  if◌then◌else◌, ℕ, ◌≡◌, refl, Bool, true, false, Option, none, some,
}
use sub2api_account_schedule.ControlPlane.Intent.{Intent}
use sub2api_account_schedule.AccountControl.Types.{
  validating, applied_noop, blocked, failed, account_not_found, no_block, is_no_block, OverrideKind,
}
use sub2api_account_schedule.AccountControl.Records.{Account, Control, Mutation, Submission}
use sub2api_account_schedule.AccountControl.Projection.{
  ExternalError, account_matches_intent, state_from_account,
}
use sub2api_account_schedule.AccountControl.Program.{
  is_inner, call, Keeps, Answer, value, failure, now, update_mutation,
}
use sub2api_account_schedule.AccountControl.Program.Laws.{Keeps-before}
use sub2api_account_schedule.AccountControl.Guard.{Verdict, check_safety}
use sub2api_account_schedule.AccountControl.Overrides.{no_cause, caused_by, not_found}
use sub2api_account_schedule.AccountControl.Journal.{
  winning_of, set_winning_mutation, finish_without_write, finalize,
}
use sub2api_account_schedule.AccountControl.Service.{
  Reading, found, missing, unread, Attempt, execute, find_account,
}
use sub2api_account_schedule.AccountControl.Carry.{
  by_verdict, after_winner, guarded, after_before, with_control, with_account, after_validating,
  carry_out, executing_mutation, load_control,
}
use sub2api_account_schedule.AccountControl.Submit.Fair.{
  Fair, account_matches-requested, finish_without_write-Keeps, finalize-Keeps,
}
use sub2api_account_schedule.AccountControl.Submit.Attempts.{Tied, execute-Keeps}
use sub2api_account_schedule.AccountControl.Submit.Quiet.{
  Any, check_safety-Quiet, load_control-Quiet,
}

after_winner-Keeps :
    (j : Bool) (t : Attempt) (m : Mutation) (e : Option ExternalError)
    → Tied t m
    → Keeps is_inner Fair 2 j (after_winner t m e)
after_winner-Keeps j t m (some e) tied = refl
after_winner-Keeps j t m none tied = go (account_matches_intent t.before_account t.winner) refl
  where
    seen : Mutation
    seen = record m { after = some (state_from_account t.before_account); status = applied_noop }

    go :
        (b : Bool)
        → account_matches_intent t.before_account t.winner ≡ b
        → Keeps is_inner Fair 2 j (
            if b
            then finalize t.submission seen t.persisted t.control t.before_account true
            else call now (λ at.
              call
                (update_mutation (executing_mutation m at))
                (execute t (executing_mutation m at))))
    go true h =
        finalize-Keeps 2 j t.submission seen t.persisted t.control t.before_account true refl
          (account_matches-requested t.before_account t.winner m.winning.desired tied h)
    go false h =
        (refl, refl, λ at. (refl, refl, λ r. execute-Keeps t (executing_mutation m at) r refl tied))

module _ (s : Submission) (persisted : Bool) (winner : Intent) (kind : OverrideKind) where
  guarded-Keeps :
      (j : Bool) (m : Mutation) (c : Control) (a : Account) (v : Verdict)
      → Keeps is_inner Fair 2 j (guarded s m persisted c a winner kind v)
  unfolding winning_of
  guarded-Keeps j m c a v = by_error v.error
    where
      t : Attempt
      t = record {
        submission = s;
        persisted = persisted;
        control = c;
        before_account = a;
        winner = winner;
      }

      won : ℕ → Mutation
      won at = record (set_winning_mutation m winner kind) { updated_at = at }

      pass :
          (b : Bool)
          → Keeps is_inner Fair 2 j (
              if b
              then call now (λ at. call (update_mutation (won at)) (after_winner t (won at)))
              else finish_without_write s m blocked v.reason no_cause)
      pass true = (refl, refl, λ at. (refl, refl, λ r. after_winner-Keeps _ t (won at) r refl))
      pass false = finish_without_write-Keeps 2 j s m blocked v.reason no_cause refl

      by_error :
          (e : Option ExternalError)
          → Keeps is_inner Fair 2 j (by_verdict s m persisted c a winner kind v.reason e)
      by_error (some e) = finish_without_write-Keeps 2 j s m failed v.reason (caused_by e) refl
      by_error none = pass (is_no_block v.reason)

  after_before-Keeps :
      (j : Bool) (m : Mutation) (c : Control) (a : Account) (e : Option ExternalError)
      → Keeps is_inner Fair 2 j (after_before s m persisted c a winner kind e)
  after_before-Keeps j m c a (some e) = refl
  after_before-Keeps j m c a none =
      Keeps-before is_inner Any Fair (guarded s m persisted c a winner kind) 2 false j
        (check_safety winner a c s.safety) (λ v i u. guarded-Keeps i m c a v)
        (check_safety-Quiet winner a c s.safety false)

  with_control-Keeps :
      (j : Bool) (m : Mutation) (a : Account) (c : Answer Control)
      → Keeps is_inner Fair 2 j (with_control s m persisted a winner kind c)
  with_control-Keeps j m a (failure e) =
      finish_without_write-Keeps 2 j s m failed no_block (caused_by e) refl
  with_control-Keeps j m a (value c) =
      (refl, refl, λ at. (refl, refl, λ r. after_before-Keeps _ (known at) c a r))
    where
      known : ℕ → Mutation
      known at = record m { before = some (state_from_account a); updated_at = at }

  with_account-Keeps :
      (j : Bool) (m : Mutation) (r : Reading)
      → Keeps is_inner Fair 2 j (with_account s m persisted winner kind r)
  with_account-Keeps j m missing =
      finish_without_write-Keeps 2 j s m blocked account_not_found not_found refl
  with_account-Keeps j m (unread e) =
      finish_without_write-Keeps 2 j s m failed no_block (caused_by e) refl
  with_account-Keeps j m (found a) =
      Keeps-before is_inner Any Fair (with_control s m persisted a winner kind) 2 false j
        (load_control m.account_id) (λ c i u. with_control-Keeps i m a c)
        (load_control-Quiet m.account_id false)

  after_validating-Keeps :
      (j : Bool) (m : Mutation) (e : Option ExternalError)
      → Keeps is_inner Fair 2 j (after_validating s m persisted winner kind e)
  after_validating-Keeps j m (some e) = refl
  after_validating-Keeps j m none =
      (refl, refl, λ r. with_account-Keeps false m (find_account m.account_id r))

  pub carry_out-Keeps :
      (j : Bool) (m : Mutation) (at : ℕ)
      → Keeps is_inner Fair 2 j (carry_out s m persisted winner kind at)
  unfolding carry_out
  carry_out-Keeps j m at = (
    refl,
    refl,
    λ r. after_validating-Keeps _ (record m { status = validating; updated_at = at }) r,
  )
