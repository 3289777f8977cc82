-- ===== src/AccountControl/Recovery/Observed.antt =====
-- internal/accountcontrol/recovery.go: what `recoverOne` has seen of an account that it commits.
use sub2api_account_schedule.Base.{
  ℕ, ◌≡◌, refl, false, not, ◌&&◌, ◌||◌, leb, Option, none, some, List, Text, codes,
}
use sub2api_account_schedule.ControlPlane.Intent.{Intent}
use sub2api_account_schedule.AccountControl.Types.{
  is_terminal, is_unstarted, BlockReason, no_block, is_no_block, blocked_override, expired_override,
}
use sub2api_account_schedule.AccountControl.Records.{Account, AccountState, Control, Mutation}
use sub2api_account_schedule.AccountControl.Projection.{
  ExternalError, account_matches_intent, state_from_account, state_matches_account,
}
use sub2api_account_schedule.AccountControl.Program.{
  call, Answer, value, failure, ret, release_slot, release_lock,
}
use sub2api_account_schedule.AccountControl.Overrides.{Checked, good, bad}
use sub2api_account_schedule.AccountControl.Guard.{check_safety}
use sub2api_account_schedule.AccountControl.Service.{found, find_account}
use sub2api_account_schedule.AccountControl.Carry.{load_control}
use sub2api_account_schedule.AccountControl.Submit.Quiet.{check_safety-Reads, load_control-Reads}
use sub2api_account_schedule.AccountControl.Submit.Watched.{
  Observes, Watches, unapplied-Commits, if-Observes, read_account-Watches, write-Watches,
  reads-Observes, bind-Observes,
}
use sub2api_account_schedule.AccountControl.Recovery.{
  verify_recovered, after_recovery_write, retry_recovered, retried, second_verdict, recovery_safety,
  unless_diverged, with_before, proceed, first_verdict, recover_with_control, recover_reading,
  recover_intent, recover_current, recover_locked, after_slot, after_lock, recover_one,
}
use sub2api_account_schedule.AccountControl.Closing.{
  closing, expired_mutation, blocked_mutation, as_error, expire_pending_mutation, block_mutation,
  leave_uncertain, recovered_mutation, commit_recovered, intent_from_winning_mutation,
  intent_expired,
}

as_error-Watches : (e : Option ExternalError) → Watches (as_error e)
as_error-Watches none s = tt
as_error-Watches (some e) s = tt

leave_uncertain-Watches : (m : Mutation) (c : Text) → Watches (leave_uncertain m c)
leave_uncertain-Watches m c s = (tt, λ at. (tt, λ r. as_error-Watches r s))

expire-Watches : (m : Mutation) (at : ℕ) → Watches (expire_pending_mutation m at)
expire-Watches m at s = (
  unapplied-Commits s (closing (expired_mutation m at) none no_block expired_override at) refl,
  λ r. as_error-Watches r s,
)

block_mutation-Watches :
    (m : Mutation) (c : Option Control) (reason : BlockReason) → Watches (block_mutation m c reason)
block_mutation-Watches m c reason s = (
  tt,
  λ at. (
    unapplied-Commits s (closing (blocked_mutation m reason at) c reason blocked_override at) refl,
    λ r. as_error-Watches r s,
  ),
)

module _ (i : Intent) (c : Control) (l : List Account) (a : Account) where
  -- The account that is committed is the one that was seen.
  commit_recovered-Observes :
      (m : Mutation) (why : Text) (changed_at event_at at : ℕ)
      → find_account m.account_id (value l) ≡ found a
      → Observes
          (some l)
          (commit_recovered (recovered_mutation m a changed_at) i c a why event_at at)
  commit_recovered-Observes m why changed_at event_at at h =
      (tt, λ later. (λ e. (a, h, refl), λ r. as_error-Watches r (some l)))

module _ (i : Intent) (c : Control) where
  after_recovery_write-Watches :
      (m : Mutation) (e : Option ExternalError) → Watches (after_recovery_write m i c e)
  after_recovery_write-Watches m (some e) =
      leave_uncertain-Watches m (codes "recovery_retry_uncertain")
  after_recovery_write-Watches m none =
      read_account-Watches m.account_id (verify_recovered m i c)
        (λ l a h.
          if-Observes (account_matches_intent a i) (some l) _ _
            (
              tt,
              λ at. (
                tt,
                λ event_at.
                    commit_recovered-Observes i c l a m
                      (codes "completed during controlled recovery retry") at event_at at h,
              ),
            )
            (leave_uncertain-Watches m (codes "recovery_retry_unverified") (some l)))
        (leave_uncertain-Watches m (codes "recovery_retry_unverified"))
        (λ e. leave_uncertain-Watches m (codes "recovery_retry_unverified"))

  retry_recovered-Watches :
      (m : Mutation) (e : Option ExternalError) → Watches (retry_recovered m i c e)
  retry_recovered-Watches m (some e) = λ s. tt
  retry_recovered-Watches m none =
      write-Watches i.operation i (after_recovery_write m i c) (after_recovery_write-Watches m)

  second_verdict-Watches :
      (m : Mutation) (reason : BlockReason) (e : Option ExternalError)
      → Watches (second_verdict m i c reason e)
  second_verdict-Watches m reason (some e) = λ s. tt
  second_verdict-Watches m reason none = λ s.
      if-Observes (is_no_block reason) s _ _
        (tt, λ at. (tt, λ r. retry_recovered-Watches (retried m at) r s))
        (block_mutation-Watches m (some c) reason s)

  unless_diverged-Watches :
      (m : Mutation) (a : Account) (before : AccountState)
      → Watches (unless_diverged m i a c before)
  unless_diverged-Watches m a before s =
      if-Observes (not (state_matches_account before a) || leb 2 m.attempt_count) s _ _
        (leave_uncertain-Watches m (codes "recovery_state_diverged") s)
        (reads-Observes (λ v. second_verdict m i c v.reason v.error) s false
          (check_safety i a c (recovery_safety m))
          (check_safety-Reads i a c (recovery_safety m) false)
          (λ v. second_verdict-Watches m v.reason v.error s))

  with_before-Watches :
      (m : Mutation) (a : Account) (before : Option AccountState)
      → Watches (with_before m i a c before)
  with_before-Watches m a (some before) = unless_diverged-Watches m a before
  with_before-Watches m a none = λ s.
      if-Observes (not (is_unstarted m.status)) s _ _
        (leave_uncertain-Watches m (codes "recovery_missing_before_state") s)
        (unless_diverged-Watches (record m { before = some (state_from_account a) }) a
          (state_from_account a) s)

  module _ (l : List Account) (a : Account) where
    proceed-Observes :
        (m : Mutation)
        → find_account m.account_id (value l) ≡ found a
        → Observes (some l) (proceed m i a c)
    proceed-Observes m h =
        if-Observes (account_matches_intent a i) (some l) _ _
          (
            tt,
            λ at.
                commit_recovered-Observes i c l a m (codes "completed during startup recovery") at
                  at at h,
          )
          (
            tt,
            λ at.
                if-Observes (intent_expired i at) (some l) _ _
                  (tt, λ later. expire-Watches m later (some l))
                  (with_before-Watches m a m.before (some l)),
          )

    first_verdict-Observes :
        (m : Mutation) (reason : BlockReason) (e : Option ExternalError)
        → find_account m.account_id (value l) ≡ found a
        → Observes (some l) (first_verdict m i a c reason e)
    first_verdict-Observes m reason (some e) h = tt
    first_verdict-Observes m reason none h =
        if-Observes (is_no_block reason) (some l) _ _ (proceed-Observes m h)
          (block_mutation-Watches m none reason (some l))

recover_with_control-Observes :
    (m : Mutation) (i : Intent) (l : List Account) (a : Account) (c : Answer Control)
    → find_account m.account_id (value l) ≡ found a
    → Observes (some l) (recover_with_control m i a c)
recover_with_control-Observes m i l a (failure e) h = tt
recover_with_control-Observes m i l a (value c) h =
    if-Observes (is_unstarted m.status) (some l) _ _
      (reads-Observes (λ v. first_verdict m i a c v.reason v.error) (some l) false
        (check_safety i a c (recovery_safety m))
        (check_safety-Reads i a c (recovery_safety m) false)
        (λ v. first_verdict-Observes i c l a m v.reason v.error h))
      (proceed-Observes i c l a m h)

recover_intent-Watches : (m : Mutation) (i : Checked Intent) → Watches (recover_intent m i)
recover_intent-Watches m (bad e) = λ s. tt
recover_intent-Watches m (good i) = λ s. (
  tt,
  λ at. if-Observes (is_unstarted m.status && intent_expired i at) s _ _ (expire-Watches m at s) (
      read_account-Watches m.account_id (recover_reading m i)
        (λ l a h.
          reads-Observes (recover_with_control m i a) (some l) false (load_control m.account_id)
            (load_control-Reads m.account_id false)
            (λ c. recover_with_control-Observes m i l a c h))
        (leave_uncertain-Watches m (codes "recovery_read_failed"))
        (λ e. leave_uncertain-Watches m (codes "recovery_read_failed")) s),
)

recover_current-Watches : (r : Answer (Option Mutation)) → Watches (recover_current r)
recover_current-Watches (failure e) = λ s. tt
recover_current-Watches (value none) = λ s. tt
recover_current-Watches (value (some m)) = λ s.
    if-Observes (is_terminal m.status) s _ _ tt
      (recover_intent-Watches m (intent_from_winning_mutation m) s)

recover_locked-Watches : (m : Mutation) → Watches (recover_locked m)
unfolding recover_locked
recover_locked-Watches m s = (tt, λ r. recover_current-Watches r s)

after_slot-Watches : (m : Mutation) (e : Option ExternalError) → Watches (after_slot m e)
after_slot-Watches m (some e) = λ s. (tt, λ r. tt)
after_slot-Watches m none = λ s.
    bind-Observes (λ r. call release_slot (λ _. call (release_lock m.account_id) (λ _. ret r))) s
      (recover_locked m) (recover_locked-Watches m s) (λ r t. (tt, λ a. (tt, λ b. tt)))

after_lock-Watches : (m : Mutation) (e : Option ExternalError) → Watches (after_lock m e)
after_lock-Watches m (some e) = λ s. tt
after_lock-Watches m none = λ s. (tt, λ r. after_slot-Watches m r s)

pub recover_one-Watches : (m : Mutation) → Watches (recover_one m)
unfolding recover_one
recover_one-Watches m s = (tt, λ r. after_lock-Watches m r s)
