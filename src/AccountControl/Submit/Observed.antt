-- ===== src/AccountControl/Submit/Observed.antt =====
-- internal/accountcontrol/service.go: what `Submit` has seen of an account that it commits.
use sub2api_account_schedule.Base.{
  ℕ, ◌≡◌, refl, Bool, true, false, Option, none, some, List, [], Text, if◌then◌else◌, arith,
}
use sub2api_account_schedule.ControlPlane.Types.{account_id_of}
use sub2api_account_schedule.ControlPlane.Intent.{Intent}
use sub2api_account_schedule.AccountControl.Types.{
  MutationStatus, validating, is_applied, OverrideKind, BlockReason, no_block, is_no_block, failed,
  blocked, account_not_found,
}
use sub2api_account_schedule.AccountControl.Records.{
  Account, Control, Mutation, Submission, Override, CommandContext,
}
use sub2api_account_schedule.AccountControl.Projection.{ExternalError, state_from_account}
use sub2api_account_schedule.AccountControl.Program.{call, Answer, value, failure, release_slot}
use sub2api_account_schedule.AccountControl.Overrides.{
  Go, Checked, good, bad, ServiceError, no_cause, not_found, caused_by,
}
use sub2api_account_schedule.AccountControl.Decision.{
  Candidates, stored_candidates, all_candidates, validate_command_id, validate_account_intent,
}
use sub2api_account_schedule.AccountControl.Journal.{
  request_signature, set_winning_mutation, finish_without_write,
}
use sub2api_account_schedule.AccountControl.Service.{found, find_account}
use sub2api_account_schedule.AccountControl.Guard.{check_safety}
use sub2api_account_schedule.AccountControl.Carry.{
  by_verdict, guarded, after_before, load_control, with_control, with_account, after_validating,
  carry_out,
}
use sub2api_account_schedule.AccountControl.Submit.{
  Plan, is_without_write, after_prepare, with_override, after_override_id, prepare, with_mutation,
  after_id, after_overrides, after_list, after_find, with_signature, submit_locked, leave,
  with_slot, with_lock, submit_checked, submit,
}
use sub2api_account_schedule.AccountControl.Submit.Quiet.{check_safety-Reads, load_control-Reads}
use sub2api_account_schedule.AccountControl.Submit.Watched.{
  Observes, Watches, if-Observes, read_account-Watches, reads-Observes, bind-Observes,
}
use sub2api_account_schedule.AccountControl.Submit.Executed.{
  finish_without_write-Watches, after_winner-Observes,
}

module _ (s : Submission) (persisted : Bool) (winner : Intent) (kind : OverrideKind)
    (l : List Account) (a : Account) where
  by_verdict-Observes :
      (m : Mutation) (c : Control) (reason : BlockReason) (e : Option ExternalError)
      → find_account m.account_id (value l) ≡ found a
      → Observes (some l) (by_verdict s m persisted c a winner kind reason e)
  by_verdict-Observes m c reason (some e) h =
      finish_without_write-Watches s m failed reason (caused_by e) refl (some l)
  by_verdict-Observes m c reason none h =
      if-Observes (is_no_block reason) (some l) _ _
        (
          tt,
          λ at. (
            tt,
            λ r.
                after_winner-Observes
                  (record {
                    submission = s;
                    persisted = persisted;
                    control = c;
                    before_account = a;
                    winner = winner;
                  })
                  (record (set_winning_mutation m winner kind) { updated_at = at }) r l h,
          ),
        )
        (finish_without_write-Watches s m blocked reason no_cause refl (some l))

  after_before-Observes :
      (m : Mutation) (c : Control) (e : Option ExternalError)
      → find_account m.account_id (value l) ≡ found a
      → Observes (some l) (after_before s m persisted c a winner kind e)
  after_before-Observes m c (some e) h = tt
  after_before-Observes m c none h =
      reads-Observes (guarded s m persisted c a winner kind) (some l) false
        (check_safety winner a c s.safety) (check_safety-Reads winner a c s.safety false)
        (λ v. by_verdict-Observes m c v.reason v.error h)

  with_control-Observes :
      (m : Mutation) (c : Answer Control)
      → find_account m.account_id (value l) ≡ found a
      → Observes (some l) (with_control s m persisted a winner kind c)
  with_control-Observes m (failure e) h =
      finish_without_write-Watches s m failed no_block (caused_by e) refl (some l)
  with_control-Observes m (value c) h = (
    tt,
    λ at. (
      tt,
      λ r.
          after_before-Observes (record m { before = some (state_from_account a); updated_at = at })
            c r h,
    ),
  )

module _ (s : Submission) (persisted : Bool) (winner : Intent) (kind : OverrideKind) where
  after_validating-Watches :
      (m : Mutation) (e : Option ExternalError)
      → Watches (after_validating s m persisted winner kind e)
  after_validating-Watches m (some e) = λ seen. tt
  after_validating-Watches m none =
      read_account-Watches m.account_id (with_account s m persisted winner kind)
        (λ l a h.
          reads-Observes (with_control s m persisted a winner kind) (some l) false
            (load_control m.account_id) (load_control-Reads m.account_id false)
            (λ c. with_control-Observes s persisted winner kind l a m c h))
        (finish_without_write-Watches s m blocked account_not_found not_found refl)
        (λ e. finish_without_write-Watches s m failed no_block (caused_by e) refl)

  carry_out-Watches : (m : Mutation) (at : ℕ) → Watches (carry_out s m persisted winner kind at)
  unfolding carry_out
  carry_out-Watches m at seen =
      (tt, λ r. after_validating-Watches (record m { status = validating; updated_at = at }) r seen)

without_write-unapplied : (s : MutationStatus) → is_without_write s ≡ true → is_applied s ≡ false
without_write-unapplied s e = ground arith

after_prepare-Watches :
    (p : Plan) (persisted : Bool) (r : Answer (Mutation × Bool))
    → Watches (after_prepare p persisted r)
after_prepare-Watches p persisted (failure e) s = tt
after_prepare-Watches p persisted (value (stored, true)) s = tt
after_prepare-Watches p persisted (value (stored, false)) s = go (is_without_write p.status) refl
  where
    go :
        (b : Bool)
        → is_without_write p.status ≡ b
        → Observes s (
            if b
            then finish_without_write p.submission p.mutation p.status no_block no_cause
            else carry_out p.submission p.mutation persisted p.winner p.kind p.at)
    go true e =
        finish_without_write-Watches p.submission p.mutation p.status no_block no_cause
          (without_write-unapplied p.status e) s
    go false e = carry_out-Watches p.submission persisted p.winner p.kind p.mutation p.at s

with_override-Watches : (p : Plan) (o : Checked Override) → Watches (with_override p o)
with_override-Watches p (bad e) s = tt
with_override-Watches p (good o) s = (
  tt,
  λ r.
      after_prepare-Watches (record p { mutation = record (p.mutation) { override_id = o.id } })
        true r s,
)

module _ (go : Go) (ctx : CommandContext) (s : Submission) where
  after_override_id-Watches : (p : Plan) (r : Answer Text) → Watches (after_override_id go p r)
  after_override_id-Watches p (failure e) = λ seen. tt
  after_override_id-Watches p (value id) = with_override-Watches p _

  prepare-Watches : (p : Plan) → Watches (prepare go p)
  prepare-Watches p seen =
      if-Observes p.submission.persist_override seen _ _
        (tt, λ r. after_override_id-Watches p r seen)
        (tt, λ r. after_prepare-Watches p false r seen)

  with_mutation-Watches :
      (w : Intent) (k : OverrideKind) (status : MutationStatus) (at : ℕ) (m : Checked Mutation)
      → Watches (with_mutation go ctx s w k status at m)
  with_mutation-Watches w k status at (bad e) = λ seen. tt
  with_mutation-Watches w k status at (good m) = prepare-Watches _

  after_id-Watches :
      (c : Candidates) (at : ℕ) (r : Answer Text) → Watches (after_id go ctx s c at r)
  after_id-Watches c at (failure e) = λ seen. tt
  after_id-Watches (l, kinds) at (value id) = with_mutation-Watches _ _ _ at _

  after_overrides-Watches :
      (at : ℕ) (c : Checked Candidates) → Watches (after_overrides go ctx s at c)
  after_overrides-Watches at (bad e) seen = tt
  after_overrides-Watches at (good c) seen =
      (tt, λ queued. (tt, λ r. after_id-Watches (all_candidates s queued c) at r seen))

  after_list-Watches : (at : ℕ) (r : Answer (List Override)) → Watches (after_list go ctx s at r)
  after_list-Watches at (failure e) = λ seen. tt
  after_list-Watches at (value l) =
      after_overrides-Watches at (stored_candidates s.revoke_override_id l ([], []))

  after_find-Watches :
      (at : ℕ) (signature : Text) (r : Answer (Option Mutation))
      → Watches (after_find go ctx s at signature r)
  after_find-Watches at signature (failure e) seen = tt
  after_find-Watches at signature (value (some m)) seen = tt
  after_find-Watches at signature (value none) seen = (tt, λ r. after_list-Watches at r seen)

  with_signature-Watches : (at : ℕ) (c : Checked Text) → Watches (with_signature go ctx s at c)
  with_signature-Watches at (bad e) seen = tt
  with_signature-Watches at (good signature) seen =
      (tt, λ r. after_find-Watches at signature r seen)

  submit_locked-Watches : Watches (submit_locked go ctx s)
  unfolding submit_locked
  submit_locked-Watches seen = (tt, λ at. with_signature-Watches at (request_signature go s) seen)

  with_lock-Watches :
      (e : Option ExternalError)
      → Watches (with_lock go ctx s (account_id_of s.intent.resource).0 e)
  with_lock-Watches (some e) seen = (tt, λ r. tt)
  with_lock-Watches none seen = (tt, by)
    where
      by :
          (e : Option ExternalError)
          → Observes seen (with_slot go ctx s (account_id_of s.intent.resource).0 e)
      by (some e) = (tt, λ a. (tt, λ b. tt))
      by none =
          bind-Observes (λ o. call release_slot (λ _. leave (account_id_of s.intent.resource).0 o))
            seen (submit_locked go ctx s) (submit_locked-Watches seen)
            (λ o t. (tt, λ a. (tt, λ b. (tt, λ c. tt))))

  submit_checked-Watches : (a b : Option ServiceError) → Watches (submit_checked go ctx s a b)
  submit_checked-Watches (some e) b seen = tt
  submit_checked-Watches none (some e) seen = tt
  submit_checked-Watches none none seen = (tt, λ r. (tt, λ e. with_lock-Watches e seen))

  pub submit-Watches : Watches (submit go ctx s)
  unfolding submit
  submit-Watches =
      submit_checked-Watches (validate_command_id s.command_id) (validate_account_intent s.intent)
