-- ===== src/AccountControl/Submit/Executed.antt =====
-- internal/accountcontrol/executor.go and service.go: what has been seen of an account from the
-- journal entry of a write to the commit.
use sub2api_account_schedule.Base.{
  suc, ◌≡◌, refl, ◌&&◌, ltb, Bool, true, false, Option, none, some, List, Text, codes,
  if◌then◌else◌, arith,
}
use sub2api_account_schedule.AccountControl.Types.{
  MutationStatus, executing, verifying, is_applied, applied_noop, BlockReason, no_block, failed,
}
use sub2api_account_schedule.AccountControl.Records.{Account, Control, Mutation, Submission}
use sub2api_account_schedule.AccountControl.Projection.{
  ExternalError, account_matches_intent, state_from_account, same_account_state,
  ambiguous_write_error,
}
use sub2api_account_schedule.AccountControl.Program.{value}
use sub2api_account_schedule.AccountControl.Overrides.{Cause, not_found, state_mismatch, caused_by}
use sub2api_account_schedule.AccountControl.Journal.{
  finish_without_write, mark_uncertain, finalize, after_finalize,
}
use sub2api_account_schedule.AccountControl.Service.{
  Reading, found, missing, unread, find_account, Attempt, applied_with, finalize_applied,
  settle_reading, cause_of_reading, after_retry, retry, after_readback, resolve_write_error,
  after_verify, verify, after_write, execute, read_account,
}
use sub2api_account_schedule.AccountControl.Carry.{executing_mutation, after_winner}
use sub2api_account_schedule.AccountControl.Submit.Watched.{
  Observes, Watches, if-Observes, read_account-Watches, write-Watches,
}

mark_uncertain-Watches :
    (m : Mutation) (c : Text) (cause : Cause) → Watches (mark_uncertain m c cause)
unfolding mark_uncertain
mark_uncertain-Watches m c cause s = (tt, λ at. (tt, λ r. tt))

pub finish_without_write-Watches :
    (s : Submission) (m : Mutation) (status : MutationStatus) (b : BlockReason) (c : Cause)
    → is_applied status ≡ false
    → Watches (finish_without_write s m status b c)
unfolding finish_without_write
finish_without_write-Watches s m status b c h seen =
    (tt, λ at. (λ e. absurd (unapplied status h e), λ r. tt))
  where
    unapplied : (t : MutationStatus) → is_applied t ≡ false → is_applied t ≡ true → ⊥
    unapplied t f e = grind arith

after_finalize-Watches : (m : Mutation) (e : Option ExternalError) → Watches (after_finalize m e)
after_finalize-Watches m none s = tt
after_finalize-Watches m (some e) s = (tt, λ r. tt)

-- A commit of the state of an account that is in what was seen.
finalize-Observes :
    (s : Submission) (m : Mutation) (persisted : Bool) (c : Control) (v : Account) (noop : Bool)
    (l : List Account) (a : Account)
    → find_account m.account_id (value l) ≡ found a
    → m.after ≡ some (state_from_account a)
    → Observes (some l) (finalize s m persisted c v noop)
unfolding finalize
finalize-Observes s m persisted c v noop l a h k = (
  tt,
  λ at. (
    λ e. (a, h, k),
    λ r.
        after_finalize-Watches
          (record m {
            status = if noop then applied_noop else m.status;
            updated_at = at;
            completed_at = some at;
          })
          r (some l),
  ),
)

module _ (t : Attempt) where
  finalize_applied-Observes :
      (m : Mutation) (l : List Account) (a : Account)
      → find_account m.account_id (value l) ≡ found a
      → Observes (some l) (finalize_applied t m a)
  finalize_applied-Observes m l a h =
      finalize-Observes t.submission (applied_with m a) t.persisted t.control a false l a h refl

  settle_reading-Watches :
      (m : Mutation) (c : Text) (cause : Reading → Cause)
      → Watches (read_account m.account_id (λ r. settle_reading t m r c cause))
  settle_reading-Watches m c cause =
      read_account-Watches m.account_id (λ r. settle_reading t m r c cause)
        (λ l a h.
          if-Observes (account_matches_intent a t.winner) (some l) _ _
            (finalize_applied-Observes m l a h)
            (mark_uncertain-Watches m c (cause (found a)) (some l)))
        (mark_uncertain-Watches m c (cause missing))
        (λ e. mark_uncertain-Watches m c (cause (unread e)))

  after_retry-Watches : (m : Mutation) (e : Option ExternalError) → Watches (after_retry t m e)
  after_retry-Watches m (some e) =
      settle_reading-Watches m (codes "controlled_retry_uncertain") (λ _. caused_by e)
  after_retry-Watches m none =
      settle_reading-Watches m (codes "controlled_retry_unverified") cause_of_reading

  retry-Watches : (m : Mutation) (e : Option ExternalError) → Watches (retry t m e)
  retry-Watches m (some e) = λ s. tt
  retry-Watches m none =
      write-Watches t.winner.operation t.winner (after_retry t m) (after_retry-Watches m)

  after_readback-Watches :
      (m : Mutation) (e : ExternalError)
      → Watches (read_account m.account_id (after_readback t m e))
  after_readback-Watches m e =
      read_account-Watches m.account_id (after_readback t m e)
        (λ l a h.
          if-Observes (account_matches_intent a t.winner) (some l) _ _
            (finalize_applied-Observes m l a h)
            (if-Observes (same_account_state a t.before_account && ltb m.attempt_count 2) (some l) _
              _
              (
                tt,
                λ at. (
                  tt,
                  λ r.
                      retry-Watches
                        (record m {
                          status = executing;
                          attempt_count = suc m.attempt_count;
                          last_error_code = codes "controlled_retry";
                          updated_at = at;
                        })
                        r (some l),
                ),
              )
              (mark_uncertain-Watches m (codes "write_state_diverged") (caused_by e) (some l))))
        (mark_uncertain-Watches m (codes "write_and_readback_uncertain") (caused_by e))
        (λ x. mark_uncertain-Watches m (codes "write_and_readback_uncertain") (caused_by e))

  resolve_write_error-Watches :
      (m : Mutation) (e : ExternalError) → Watches (resolve_write_error t m e)
  unfolding resolve_write_error
  resolve_write_error-Watches m e s =
      if-Observes (ambiguous_write_error e) s _ _ (after_readback-Watches m e s)
        (finish_without_write-Watches t.submission m failed no_block (caused_by e) refl s)

  verify-Watches : (m : Mutation) (e : Option ExternalError) → Watches (verify t m e)
  verify-Watches m (some e) = λ s. tt
  verify-Watches m none =
      read_account-Watches m.account_id (after_verify t m)
        (λ l a h.
          if-Observes (account_matches_intent a t.winner) (some l) _ _
            (finalize_applied-Observes m l a h)
            (mark_uncertain-Watches m (codes "post_write_mismatch") state_mismatch (some l)))
        (mark_uncertain-Watches m (codes "post_write_read_failed") not_found)
        (λ e. mark_uncertain-Watches m (codes "post_write_read_failed") (caused_by e))

  after_write-Watches : (m : Mutation) (e : Option ExternalError) → Watches (after_write t m e)
  after_write-Watches m (some e) = resolve_write_error-Watches m e
  after_write-Watches m none = λ s.
      (tt, λ at. (tt, λ r. verify-Watches (record m { status = verifying; updated_at = at }) r s))

  execute-Watches : (m : Mutation) (e : Option ExternalError) → Watches (execute t m e)
  execute-Watches m (some e) = λ s. tt
  execute-Watches m none =
      write-Watches t.winner.operation t.winner (after_write t m) (after_write-Watches m)

  -- The account before the write is the one that was seen.
  pub after_winner-Observes :
      (m : Mutation) (e : Option ExternalError) (l : List Account)
      → find_account m.account_id (value l) ≡ found t.before_account
      → Observes (some l) (after_winner t m e)
  after_winner-Observes m (some e) l h = tt
  after_winner-Observes m none l h =
      if-Observes (account_matches_intent t.before_account t.winner) (some l) _ _
        (finalize-Observes t.submission
          (record m { after = some (state_from_account t.before_account); status = applied_noop })
          t.persisted t.control t.before_account true l t.before_account h refl)
        (tt, λ at. (tt, λ r. execute-Watches (executing_mutation m at) r (some l)))
