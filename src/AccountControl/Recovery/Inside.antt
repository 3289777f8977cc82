-- ===== src/AccountControl/Recovery/Inside.antt =====
-- internal/accountcontrol/recovery.go: what `recoverOne` keeps to inside the lock and the slot.
use sub2api_account_schedule.Base.{
  ℕ, zero, suc, Text, ◌≡◌, refl, Bool, true, false, not, ◌&&◌, ◌||◌, Option, none, some, codes, leb,
  if◌then◌else◌,
}
use sub2api_account_schedule.ControlPlane.Intent.{Intent}
use sub2api_account_schedule.AccountControl.Types.{
  is_applied, is_terminal, is_unstarted, BlockReason, is_no_block, no_block, expired_override,
  OverrideStatus,
}
use sub2api_account_schedule.AccountControl.Records.{Account, AccountState, Control, Mutation}
use sub2api_account_schedule.AccountControl.Projection.{
  ExternalError, account_matches_intent, state_from_account, state_matches_account,
}
use sub2api_account_schedule.AccountControl.Program.{
  ret, call, ◌>>=◌, Answer, value, failure, now, update_mutation, journals, Keeps, is_inner,
  matches_requested,
}
use sub2api_account_schedule.AccountControl.Program.Laws.{Keeps-before}
use sub2api_account_schedule.AccountControl.Guard.{check_safety}
use sub2api_account_schedule.AccountControl.Overrides.{Checked, good, bad}
use sub2api_account_schedule.AccountControl.Service.{
  Reading, found, missing, unread, find_account, read_account,
}
use sub2api_account_schedule.AccountControl.Carry.{load_control}
use sub2api_account_schedule.AccountControl.Submit.Quiet.{
  Any, check_safety-Quiet, load_control-Quiet,
}
use sub2api_account_schedule.AccountControl.Submit.Attempts.{write-Keeps}
use sub2api_account_schedule.AccountControl.Recovery.{
  verify_recovered, after_recovery_write, retry_recovered, retried, second_verdict, recovery_safety,
  unless_diverged, with_before, proceed, first_verdict, recover_with_control, recover_reading,
  recover_intent, recover_current, recover_locked,
}
use sub2api_account_schedule.AccountControl.Closing.{
  as_error, close_mutation, expired_mutation, expire_pending_mutation, block_mutation,
  leave_uncertain, recovered_mutation, commit_recovered, intent_from_winning_mutation,
  intent_expired,
}
use sub2api_account_schedule.AccountControl.Submit.Fair.{or_right}
use sub2api_account_schedule.AccountControl.Recovery.Intents.{winning_intent_matches}

as_error-Keeps : (n : ℕ) (j : Bool) (e : Option ExternalError) → Keeps is_inner Any n j (as_error e)
as_error-Keeps n j none = tt
as_error-Keeps n j (some e) = tt

leave_uncertain-Keeps :
    (n : ℕ) (j : Bool) (m : Mutation) (c : Text) → Keeps is_inner Any n j (leave_uncertain m c)
leave_uncertain-Keeps zero j m c = (refl, refl, λ at. (refl, refl, λ r. as_error-Keeps zero _ r))
leave_uncertain-Keeps (suc n) j m c =
    (refl, refl, λ at. (refl, refl, λ r. as_error-Keeps (suc n) _ r))

-- A mutation that is closed as anything but applied.
close_mutation-Keeps :
    (n : ℕ) (j : Bool) (m : Mutation) (c : Option Control) (reason : BlockReason)
    (s : OverrideStatus) (at : ℕ)
    → is_applied m.status ≡ false
    → Keeps is_inner Any n j (close_mutation m c reason s at)
close_mutation-Keeps zero j m c reason s at h = (refl, rw h, λ r. as_error-Keeps zero false r)
close_mutation-Keeps (suc n) j m c reason s at h = (refl, rw h, λ r. as_error-Keeps (suc n) false r)

block_mutation-Keeps :
    (n : ℕ) (j : Bool) (m : Mutation) (c : Option Control) (reason : BlockReason)
    → Keeps is_inner Any n j (block_mutation m c reason)
block_mutation-Keeps zero j m c reason =
    (refl, refl, λ at. (refl, refl, λ r. as_error-Keeps zero false r))
block_mutation-Keeps (suc n) j m c reason =
    (refl, refl, λ at. (refl, refl, λ r. as_error-Keeps (suc n) false r))

commit_recovered-Keeps :
    (n : ℕ) (j : Bool) (m : Mutation) (i : Intent) (c : Control) (a : Account) (why : Text)
    (event_at at : ℕ)
    → matches_requested m.winning.desired m.after ≡ true
    → Keeps is_inner Any n j (commit_recovered m i c a why event_at at)
commit_recovered-Keeps zero j m i c a why event_at at h =
    (refl, refl, λ later. (refl, or_right _ _ h, λ r. as_error-Keeps zero false r))
commit_recovered-Keeps (suc n) j m i c a why event_at at h =
    (refl, refl, λ later. (refl, or_right _ _ h, λ r. as_error-Keeps (suc n) false r))

-- What the intent asks for is what the mutation's winner wants.
abbrev Tied : Mutation → Intent → Type 0
Tied m i =
    (a : Account)
    → account_matches_intent a i ≡ true
    → matches_requested m.winning.desired (some (state_from_account a)) ≡ true

module _ (i : Intent) where
  verify_recovered-Keeps :
      (m : Mutation) (c : Control) (r : Reading)
      → Tied m i
      → Keeps is_inner Any 0 false (verify_recovered m i c r)
  verify_recovered-Keeps m c (found a) tied = go (account_matches_intent a i) refl
    where
      go :
          (b : Bool)
          → account_matches_intent a i ≡ b
          → Keeps is_inner Any 0 false (
              if b
              then call now (λ at. call now (λ event_at.
                commit_recovered
                  (recovered_mutation m a at)
                  i
                  c
                  a
                  (codes "completed during controlled recovery retry")
                  event_at
                  at))
              else leave_uncertain m (codes "recovery_retry_unverified"))
      go true e = (
        refl,
        refl,
        λ at. (
          refl,
          refl,
          λ event_at.
              commit_recovered-Keeps 0 false (recovered_mutation m a at) i c a
                (codes "completed during controlled recovery retry") event_at at (tied a e),
        ),
      )
      go false e = leave_uncertain-Keeps 0 false m (codes "recovery_retry_unverified")
  verify_recovered-Keeps m c missing tied =
      leave_uncertain-Keeps 0 false m (codes "recovery_retry_unverified")
  verify_recovered-Keeps m c (unread e) tied =
      leave_uncertain-Keeps 0 false m (codes "recovery_retry_unverified")

  after_recovery_write-Keeps :
      (m : Mutation) (c : Control) (j : Bool) (e : Option ExternalError)
      → Tied m i
      → Keeps is_inner Any 0 j (after_recovery_write m i c e)
  after_recovery_write-Keeps m c j (some e) tied =
      leave_uncertain-Keeps 0 j m (codes "recovery_retry_uncertain")
  after_recovery_write-Keeps m c j none tied =
      (refl, refl, λ r. verify_recovered-Keeps m c (find_account m.account_id r) tied)

  retry_recovered-Keeps :
      (m : Mutation) (at : ℕ) (c : Control) (e : Option ExternalError)
      → Tied m i
      → Keeps is_inner Any 1
          (journals (update_mutation (retried m at)) e)
          (retry_recovered (retried m at) i c e)
  retry_recovered-Keeps m at c (some e) tied = tt
  retry_recovered-Keeps m at c none tied =
      write-Keeps Any 0 i (after_recovery_write (retried m at) i c)
        (λ j e. after_recovery_write-Keeps (retried m at) c j e tied)

  second_verdict-Keeps :
      (m : Mutation) (c : Control) (reason : BlockReason) (e : Option ExternalError) (j : Bool)
      → Tied m i
      → Keeps is_inner Any 1 j (second_verdict m i c reason e)
  second_verdict-Keeps m c reason (some e) j tied = tt
  second_verdict-Keeps m c reason none j tied = go (is_no_block reason)
    where
      go :
          (b : Bool)
          → Keeps is_inner Any 1 j (
              if b
              then call now
                  (λ at. call (update_mutation (retried m at)) (retry_recovered (retried m at) i c))
              else block_mutation m (some c) reason)
      go true = (refl, refl, λ at. (refl, refl, λ r. retry_recovered-Keeps m at c r tied))
      go false = block_mutation-Keeps 1 j m (some c) reason

  unless_diverged-Keeps :
      (m : Mutation) (a : Account) (c : Control) (before : AccountState) (j : Bool)
      → Tied m i
      → Keeps is_inner Any 1 j (unless_diverged m i a c before)
  unless_diverged-Keeps m a c before j tied =
      go (not (state_matches_account before a) || leb 2 m.attempt_count)
    where
      go :
          (b : Bool)
          → Keeps is_inner Any 1 j (
              if b
              then leave_uncertain m (codes "recovery_state_diverged")
              else check_safety i a c (recovery_safety m)
                >>= (λ v. second_verdict m i c v.reason v.error))
      go true = leave_uncertain-Keeps 1 j m (codes "recovery_state_diverged")
      go false =
          Keeps-before is_inner Any Any (λ v. second_verdict m i c v.reason v.error) 1 false j
            (check_safety i a c (recovery_safety m))
            (λ v k u. second_verdict-Keeps m c v.reason v.error k tied)
            (check_safety-Quiet i a c (recovery_safety m) false)

  with_before-Keeps :
      (m : Mutation) (a : Account) (c : Control) (before : Option AccountState) (j : Bool)
      → Tied m i
      → Keeps is_inner Any 1 j (with_before m i a c before)
  with_before-Keeps m a c (some before) j tied = unless_diverged-Keeps m a c before j tied
  with_before-Keeps m a c none j tied = go (is_unstarted m.status)
    where
      go :
          (b : Bool)
          → Keeps is_inner Any 1 j (
              if not b
              then leave_uncertain m (codes "recovery_missing_before_state")
              else unless_diverged
                  (record m { before = some (state_from_account a) })
                  i
                  a
                  c
                  (state_from_account a))
      go false = leave_uncertain-Keeps 1 j m (codes "recovery_missing_before_state")
      go true =
          unless_diverged-Keeps (record m { before = some (state_from_account a) }) a c
            (state_from_account a) j tied

  proceed-Keeps :
      (m : Mutation) (a : Account) (c : Control) (j : Bool)
      → Tied m i
      → Keeps is_inner Any 1 j (proceed m i a c)
  proceed-Keeps m a c j tied = go (account_matches_intent a i) refl
    where
      late :
          (b : Bool)
          → Keeps is_inner Any 1 false
              (if b then call now (expire_pending_mutation m) else with_before m i a c m.before)
      late true = (
        refl,
        refl,
        λ at.
            close_mutation-Keeps 1 false (expired_mutation m at) none no_block expired_override at
              refl,
      )
      late false = with_before-Keeps m a c m.before false tied

      go :
          (b : Bool)
          → account_matches_intent a i ≡ b
          → Keeps is_inner Any 1 j (
              if b
              then call now (λ at.
                commit_recovered
                  (recovered_mutation m a at)
                  i
                  c
                  a
                  (codes "completed during startup recovery")
                  at
                  at)
              else call now (λ at.
                if intent_expired i at
                then call now (expire_pending_mutation m)
                else with_before m i a c m.before))
      go true e = (
        refl,
        refl,
        λ at.
            commit_recovered-Keeps 1 false (recovered_mutation m a at) i c a
              (codes "completed during startup recovery") at at (tied a e),
      )
      go false e = (refl, refl, λ at. late (intent_expired i at))

  first_verdict-Keeps :
      (m : Mutation) (a : Account) (c : Control) (reason : BlockReason) (e : Option ExternalError)
      (j : Bool)
      → Tied m i
      → Keeps is_inner Any 1 j (first_verdict m i a c reason e)
  first_verdict-Keeps m a c reason (some e) j tied = tt
  first_verdict-Keeps m a c reason none j tied = go (is_no_block reason)
    where
      go :
          (b : Bool)
          → Keeps is_inner Any 1 j (if b then proceed m i a c else block_mutation m none reason)
      go true = proceed-Keeps m a c j tied
      go false = block_mutation-Keeps 1 j m none reason

  recover_with_control-Keeps :
      (m : Mutation) (a : Account) (c : Answer Control) (j : Bool)
      → Tied m i
      → Keeps is_inner Any 1 j (recover_with_control m i a c)
  recover_with_control-Keeps m a (failure e) j tied = tt
  recover_with_control-Keeps m a (value c) j tied = go (is_unstarted m.status)
    where
      go :
          (b : Bool)
          → Keeps is_inner Any 1 j (
              if b
              then check_safety i a c (recovery_safety m)
                >>= (λ v. first_verdict m i a c v.reason v.error)
              else proceed m i a c)
      go true =
          Keeps-before is_inner Any Any (λ v. first_verdict m i a c v.reason v.error) 1 false j
            (check_safety i a c (recovery_safety m))
            (λ v k u. first_verdict-Keeps m a c v.reason v.error k tied)
            (check_safety-Quiet i a c (recovery_safety m) false)
      go false = proceed-Keeps m a c j tied

  recover_reading-Keeps :
      (m : Mutation) (r : Reading) (j : Bool)
      → Tied m i
      → Keeps is_inner Any 1 j (recover_reading m i r)
  recover_reading-Keeps m (found a) j tied =
      Keeps-before is_inner Any Any (recover_with_control m i a) 1 false j
        (load_control m.account_id) (λ c k u. recover_with_control-Keeps m a c k tied)
        (load_control-Quiet m.account_id false)
  recover_reading-Keeps m missing j tied =
      leave_uncertain-Keeps 1 j m (codes "recovery_read_failed")
  recover_reading-Keeps m (unread e) j tied =
      leave_uncertain-Keeps 1 j m (codes "recovery_read_failed")

recover_intent-Keeps :
    (m : Mutation) (i : Checked Intent) (j : Bool)
    → intent_from_winning_mutation m ≡ i
    → Keeps is_inner Any 1 j (recover_intent m i)
recover_intent-Keeps m (bad e) j made = tt
recover_intent-Keeps m (good i) j made =
    (refl, refl, λ at. go at (is_unstarted m.status && intent_expired i at))
  where
    go :
        (at : ℕ) (b : Bool)
        → Keeps is_inner Any 1 false (
            if b
            then expire_pending_mutation m at
            else read_account m.account_id (recover_reading m i))
    go at true =
        close_mutation-Keeps 1 false (expired_mutation m at) none no_block expired_override at refl
    go at false = (
      refl,
      refl,
      λ r.
          recover_reading-Keeps i m (find_account m.account_id r) false
            (λ a. winning_intent_matches m i a made),
    )

recover_current-Keeps :
    (r : Answer (Option Mutation)) (j : Bool) → Keeps is_inner Any 1 j (recover_current r)
recover_current-Keeps (failure e) j = tt
recover_current-Keeps (value none) j = tt
recover_current-Keeps (value (some m)) j = go (is_terminal m.status)
  where
    go :
        (b : Bool)
        → Keeps is_inner Any 1 j
            (if b then ret none else recover_intent m (intent_from_winning_mutation m))
    go true = tt
    go false = recover_intent-Keeps m (intent_from_winning_mutation m) j refl

pub recover_locked-Keeps : (m : Mutation) → Keeps is_inner Any 1 false (recover_locked m)
unfolding recover_locked
recover_locked-Keeps m = (refl, refl, λ r. recover_current-Keeps r false)
