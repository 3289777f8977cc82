-- ===== src/AccountControl/Recovery/Settled.antt =====
-- internal/accountcontrol/recovery.go: how `recoverOne` leaves a mutation.
use sub2api_account_schedule.Base.{
  ℕ, ◌≡◌, refl, text_eq, Bool, true, false, not, ◌&&◌, ◌||◌, Option, none, some, codes, Text, leb,
  if◌then◌else◌, arith,
}
use sub2api_account_schedule.Base.TextLaws.{text_eq_self}
use sub2api_account_schedule.ControlPlane.Intent.{Intent}
use sub2api_account_schedule.AccountControl.Types.{
  MutationStatus, uncertain, is_terminal, is_unstarted, BlockReason, no_block, is_no_block,
  blocked_override, expired_override,
}
use sub2api_account_schedule.AccountControl.Records.{
  Finalization, Account, AccountState, Control, Mutation,
}
use sub2api_account_schedule.AccountControl.Projection.{
  ExternalError, account_matches_intent, state_from_account, state_matches_account,
}
use sub2api_account_schedule.AccountControl.Program.{
  Program, ret, call, ◌>>=◌, Answer, value, failure, now, Command, Reply, find_mutation,
  update_mutation, finalize_mutation, release_slot, release_lock,
}
use sub2api_account_schedule.AccountControl.Guard.{check_safety}
use sub2api_account_schedule.AccountControl.Overrides.{ServiceError, Checked, good, bad}
use sub2api_account_schedule.AccountControl.Service.{
  Reading, found, missing, unread, find_account, read_account, write_operation, write_error,
  unsupported_write,
}
use sub2api_account_schedule.ControlPlane.Types.{
  Operation, set_account_schedulable, set_account_load_factor,
}
use sub2api_account_schedule.AccountControl.Carry.{load_control}
use sub2api_account_schedule.AccountControl.Recovery.{
  verify_recovered, after_recovery_write, retry_recovered, retried, second_verdict, recovery_safety,
  unless_diverged, with_before, proceed, first_verdict, recover_with_control, recover_reading,
  recover_intent, recover_current, recover_locked, after_slot, after_lock, recover_one,
}
use sub2api_account_schedule.AccountControl.Closing.{
  closing, expired_mutation, blocked_mutation, recovered_finalization, as_error,
  expire_pending_mutation, block_mutation, leave_uncertain, recovered_mutation, commit_recovered,
  intent_from_winning_mutation, intent_expired,
}

-- Finished, or uncertain: a status that no write follows without a new look at the account.
abbrev pub is_closed : MutationStatus → Bool
is_closed uncertain = true
is_closed s = is_terminal s

-- What is known to be stored under the key: nothing yet, that nothing is there, or a status.
pub data Stored : Type 0 where
  unknown absent : Stored
  stored : MutationStatus → Stored

module _ (key : Text) where
  -- What an answer tells of it: what was found under the key, and then what was recorded last.
  abbrev pub stored_status : Stored → (c : Command) → Reply c → Stored
  stored_status s (find_mutation k) (value none) = if text_eq k key then absent else s
  stored_status s (find_mutation k) (value (some m)) = if text_eq k key then stored m.status else s
  stored_status s (update_mutation m) none = stored m.status
  stored_status s (finalize_mutation f) none = stored f.mutation.status
  stored_status s c r = s

  -- Looked up, and nothing found or closed.
  abbrev is_left : Stored → Bool
  is_left unknown = false
  is_left absent = true
  is_left (stored s) = is_closed s

  -- Whatever is answered, without an error the key was looked up, and what is stored is closed or
  -- nothing was found.
  abbrev pub Settles : Stored → Program (Option ServiceError) → Type 0
  Settles s (ret none) = is_left s ≡ true
  Settles s (ret (some e)) = Unit {0}
  Settles s (call c k) = (r : Reply c) → Settles (stored_status s c r) (k r)

  -- It does so whatever is stored before.
  abbrev Closes : Program (Option ServiceError) → Type 0
  Closes p = (s : Stored) → Settles s p

  bind-Closes :
      {A : Type 0} (p : Program A) (f : A → Program (Option ServiceError))
      → ((a : A) → Closes (f a))
      → Closes (p >>= f)
  unfolding ◌>>=◌
  bind-Closes (ret a) f h s = h a s
  bind-Closes (call c k) f h s = λ r. bind-Closes (k r) f h (stored_status s c r)

  if-Closes :
      (b : Bool) (p q : Program (Option ServiceError))
      → Closes p
      → Closes q
      → Closes (if b then p else q)
  if-Closes true p q h k = h
  if-Closes false p q h k = k

  leave_uncertain-Closes : (m : Mutation) (c : Text) → Closes (leave_uncertain m c)
  leave_uncertain-Closes m c s = λ at r. by r
    where
      by :
          (r : Option ExternalError)
          → Settles
              (stored_status s
                (update_mutation
                  (record m { status = uncertain; last_error_code = c; updated_at = 0 }))
                r)
              (as_error r)
      by none = refl
      by (some e) = tt

  as_error-left :
      (s : Stored) (e : Option ExternalError) → is_left s ≡ true → Settles s (as_error e)
  as_error-left s none h = h
  as_error-left s (some e) h = tt

  -- A commit that was stored leaves its own status; one that failed is an error.
  finalize-Closes :
      (f : Finalization)
      → is_closed f.mutation.status ≡ true
      → Closes (call (finalize_mutation f) as_error)
  finalize-Closes f h s = by
    where
      by :
          (r : Option ExternalError)
          → Settles (stored_status s (finalize_mutation f) r) (as_error r)
      by none = h
      by (some e) = tt

  expire-Closes : (m : Mutation) (at : ℕ) → Closes (expire_pending_mutation m at)
  expire-Closes m at =
      finalize-Closes (closing (expired_mutation m at) none no_block expired_override at) refl

  block_mutation-Closes :
      (m : Mutation) (c : Option Control) (reason : BlockReason)
      → Closes (block_mutation m c reason)
  block_mutation-Closes m c reason s = λ at.
      finalize-Closes (closing (blocked_mutation m reason at) c reason blocked_override at) refl s

  commit_recovered-Closes :
      (m : Mutation) (i : Intent) (c : Control) (a : Account) (why : Text) (event_at at : ℕ)
      → is_closed m.status ≡ true
      → Closes (commit_recovered m i c a why event_at at)
  commit_recovered-Closes m i c a why event_at at h s =
      λ later. finalize-Closes (recovered_finalization m i c a why event_at at later) h s

  write-Closes :
      (o : Operation) (i : Intent) (k : Option ExternalError → Program (Option ServiceError))
      → ((e : Option ExternalError) → Closes (k e))
      → Closes (write_operation o i k)
  write-Closes set_account_schedulable i k h s = λ r. h (write_error r) s
  write-Closes set_account_load_factor i k h s = λ r. h (write_error r) s
  write-Closes _ i k h s = h (some unsupported_write) s

  module _ (i : Intent) where
    verify_recovered-Closes :
        (m : Mutation) (c : Control) (r : Reading) → Closes (verify_recovered m i c r)
    verify_recovered-Closes m c (found a) =
        if-Closes (account_matches_intent a i)
          (call now λ at. call now λ event_at.
            commit_recovered (recovered_mutation m a at) i c a
              (codes "completed during controlled recovery retry") event_at at)
          (leave_uncertain m (codes "recovery_retry_unverified"))
          (λ s at event_at.
            commit_recovered-Closes (recovered_mutation m a at) i c a
              (codes "completed during controlled recovery retry") event_at at refl s)
          (leave_uncertain-Closes m (codes "recovery_retry_unverified"))
    verify_recovered-Closes m c missing =
        leave_uncertain-Closes m (codes "recovery_retry_unverified")
    verify_recovered-Closes m c (unread e) =
        leave_uncertain-Closes m (codes "recovery_retry_unverified")

    after_recovery_write-Closes :
        (m : Mutation) (c : Control) (e : Option ExternalError)
        → Closes (after_recovery_write m i c e)
    after_recovery_write-Closes m c (some e) =
        leave_uncertain-Closes m (codes "recovery_retry_uncertain")
    after_recovery_write-Closes m c none =
        λ s r. verify_recovered-Closes m c (find_account m.account_id r) s

    retry_recovered-Closes :
        (m : Mutation) (c : Control) (e : Option ExternalError) → Closes (retry_recovered m i c e)
    retry_recovered-Closes m c (some e) = λ s. tt
    retry_recovered-Closes m c none =
        write-Closes i.operation i (after_recovery_write m i c) (after_recovery_write-Closes m c)

    second_verdict-Closes :
        (m : Mutation) (c : Control) (reason : BlockReason) (e : Option ExternalError)
        → Closes (second_verdict m i c reason e)
    second_verdict-Closes m c reason (some e) = λ s. tt
    second_verdict-Closes m c reason none =
        if-Closes (is_no_block reason)
          (call now
            λ at. call (update_mutation (retried m at)) (retry_recovered (retried m at) i c))
          (block_mutation m (some c) reason) (λ s at r. retry_recovered-Closes (retried m at) c r _)
          (block_mutation-Closes m (some c) reason)

    unless_diverged-Closes :
        (m : Mutation) (a : Account) (c : Control) (before : AccountState)
        → Closes (unless_diverged m i a c before)
    unless_diverged-Closes m a c before =
        if-Closes (not (state_matches_account before a) || leb 2 m.attempt_count)
          (leave_uncertain m (codes "recovery_state_diverged"))
          (check_safety i a c (recovery_safety m) >>= (λ v. second_verdict m i c v.reason v.error))
          (leave_uncertain-Closes m (codes "recovery_state_diverged"))
          (bind-Closes (check_safety i a c (recovery_safety m))
            (λ v. second_verdict m i c v.reason v.error)
            (λ v. second_verdict-Closes m c v.reason v.error))

    with_before-Closes :
        (m : Mutation) (a : Account) (c : Control) (before : Option AccountState)
        → Closes (with_before m i a c before)
    with_before-Closes m a c (some before) = unless_diverged-Closes m a c before
    with_before-Closes m a c none =
        if-Closes (not (is_unstarted m.status))
          (leave_uncertain m (codes "recovery_missing_before_state"))
          (unless_diverged (record m { before = some (state_from_account a) }) i a c
            (state_from_account a))
          (leave_uncertain-Closes m (codes "recovery_missing_before_state"))
          (unless_diverged-Closes (record m { before = some (state_from_account a) }) a c
            (state_from_account a))

    proceed-Closes : (m : Mutation) (a : Account) (c : Control) → Closes (proceed m i a c)
    proceed-Closes m a c =
        if-Closes (account_matches_intent a i)
          (call now λ at.
            commit_recovered (recovered_mutation m a at) i c a
              (codes "completed during startup recovery") at at)
          (call now λ at.
            if intent_expired i at
            then call now (expire_pending_mutation m)
            else with_before m i a c m.before)
          (λ s at.
            commit_recovered-Closes (recovered_mutation m a at) i c a
              (codes "completed during startup recovery") at at refl s)
          (λ s at.
            if-Closes (intent_expired i at) (call now (expire_pending_mutation m))
              (with_before m i a c m.before) (λ s at. expire-Closes m at s)
              (with_before-Closes m a c m.before) s)

    first_verdict-Closes :
        (m : Mutation) (a : Account) (c : Control) (reason : BlockReason) (e : Option ExternalError)
        → Closes (first_verdict m i a c reason e)
    first_verdict-Closes m a c reason (some e) = λ s. tt
    first_verdict-Closes m a c reason none =
        if-Closes (is_no_block reason) (proceed m i a c) (block_mutation m none reason)
          (proceed-Closes m a c) (block_mutation-Closes m none reason)

    recover_with_control-Closes :
        (m : Mutation) (a : Account) (c : Answer Control) → Closes (recover_with_control m i a c)
    recover_with_control-Closes m a (failure e) = λ s. tt
    recover_with_control-Closes m a (value c) =
        if-Closes (is_unstarted m.status)
          (check_safety i a c (recovery_safety m) >>= (λ v. first_verdict m i a c v.reason v.error))
          (proceed m i a c)
          (bind-Closes (check_safety i a c (recovery_safety m))
            (λ v. first_verdict m i a c v.reason v.error)
            (λ v. first_verdict-Closes m a c v.reason v.error))
          (proceed-Closes m a c)

    recover_reading-Closes : (m : Mutation) (r : Reading) → Closes (recover_reading m i r)
    recover_reading-Closes m (found a) =
        bind-Closes (load_control m.account_id) (recover_with_control m i a)
          (recover_with_control-Closes m a)
    recover_reading-Closes m missing = leave_uncertain-Closes m (codes "recovery_read_failed")
    recover_reading-Closes m (unread e) = leave_uncertain-Closes m (codes "recovery_read_failed")

  recover_intent-Closes : (m : Mutation) (i : Checked Intent) → Closes (recover_intent m i)
  recover_intent-Closes m (bad e) = λ s. tt
  recover_intent-Closes m (good i) = λ s at.
      if-Closes (is_unstarted m.status && intent_expired i at) (expire_pending_mutation m at)
        (read_account m.account_id (recover_reading m i)) (expire-Closes m at)
        (λ s r. recover_reading-Closes i m (find_account m.account_id r) s) s

terminal-closed : (s : MutationStatus) → is_terminal s ≡ true → is_closed s ≡ true
terminal-closed s h = ground arith

module _ (m : Mutation) where
  recover_current-Settles :
      (r : Answer (Option Mutation))
      → Settles m.idempotency_key
          (stored_status m.idempotency_key unknown (find_mutation m.idempotency_key) r)
          (recover_current r)
  recover_current-Settles (failure e) = tt
  recover_current-Settles (value none) = rw (text_eq_self m.idempotency_key) refl
  recover_current-Settles (value (some n)) =
      rw (text_eq_self m.idempotency_key) (go (is_terminal n.status) refl)
    where
      go :
          (b : Bool)
          → is_terminal n.status ≡ b
          → Settles m.idempotency_key
              (stored n.status)
              (if b then ret none else recover_intent n (intent_from_winning_mutation n))
      go true e = terminal-closed n.status e
      go false e =
          recover_intent-Closes m.idempotency_key n (intent_from_winning_mutation n)
            (stored n.status)

  recover_locked-Settles : Settles m.idempotency_key unknown (recover_locked m)
  unfolding recover_locked
  recover_locked-Settles = recover_current-Settles

  -- Giving the slot and the lock back changes nothing of this.
  give_back-Settles :
      (p : Program (Option ServiceError)) (s : Stored)
      → Settles m.idempotency_key s p
      → Settles m.idempotency_key s
          (p >>= (λ r. call release_slot (λ _. call (release_lock m.account_id) (λ _. ret r))))
  unfolding ◌>>=◌
  give_back-Settles (ret none) s h = λ a b. h
  give_back-Settles (ret (some e)) s h = λ a b. tt
  give_back-Settles (call c k) s h =
      λ r. give_back-Settles (k r) (stored_status m.idempotency_key s c r) (h r)

  after_slot-Settles :
      (e : Option ExternalError) → Settles m.idempotency_key unknown (after_slot m e)
  after_slot-Settles (some e) = λ a. tt
  after_slot-Settles none = give_back-Settles (recover_locked m) unknown recover_locked-Settles

  after_lock-Settles :
      (e : Option ExternalError) → Settles m.idempotency_key unknown (after_lock m e)
  after_lock-Settles (some e) = tt
  after_lock-Settles none = after_slot-Settles

  -- A recovery that returns no error has looked the mutation up under its own key, and either found
  -- none there, or leaves the mutation with a terminal status or as uncertain, by what it found or by
  -- what it stored last: an unfinished mutation does not stay prepared, validating, executing or
  -- verifying without an error.
  pub recover-Settles : Settles m.idempotency_key unknown (recover_one m)
  unfolding recover_one
  recover-Settles = after_lock-Settles
