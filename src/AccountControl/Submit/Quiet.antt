-- ===== src/AccountControl/Submit/Quiet.antt =====
-- internal/accountcontrol/guard.go and service.go: `checkSafety` and `loadControl` only read.
use sub2api_account_schedule.Base.{
  if◌then◌else◌, arith, ℕ, ◌≡◌, refl, Bool, true, false, not, ◌||◌, Option, none, some, is_some,
}
use sub2api_account_schedule.Base.Int.{ℤ}
use sub2api_account_schedule.ControlPlane.Intent.{Intent}
use sub2api_account_schedule.AccountControl.Types.{
  BlockReason, no_block, credential_invalid, rate_limited, health_locked, balance_locked,
  FreezeMode,
}
use sub2api_account_schedule.AccountControl.Records.{
  Account, Control, FreezeState, BalanceLock, CostLock, SafetyContext,
}
use sub2api_account_schedule.AccountControl.Program.{
  Command, get_freeze_state, get_control, is_inner, Program, ret, call, Answer, value, failure,
  get_cost_lock, get_balance_lock, now, Keeps,
}
use sub2api_account_schedule.AccountControl.Program.Laws.{Keeps-before, Keeps-weaken}
use sub2api_account_schedule.AccountControl.Guard.{
  verdict, check_safety, after_freeze, check_mode, by_freeze, mode_until, check_increase,
  after_balance, after_cost, freeze_block, freshness_block, unsafe_target, effective_mode,
  account_credential_valid, account_rate_limited,
}
use sub2api_account_schedule.AccountControl.Carry.{
  load_control, loaded_control, loaded_balance, loaded_cost, with_balance,
}

-- Nothing is said of what is returned.
abbrev pub Any : {A : Type 0} → A → Type 0
Any a = Unit {0}

-- The calls that read what the guard needs: the clock, the freeze, and the records of an account.
abbrev pub is_reading : Command → Bool
is_reading now = true
is_reading get_freeze_state = true
is_reading (get_control account) = true
is_reading (get_balance_lock account) = true
is_reading (get_cost_lock account) = true
is_reading _ = false

reading-inner : (c : Command) → is_reading c ≡ true → is_inner c ≡ true
reading-inner c e = grind arith

-- A program with no other calls.
abbrev pub Reads : {A : Type 0} → Program A → Type 0
Reads p = (j : Bool) → Keeps is_reading Any 0 j p

-- A program with no call that writes.
abbrev pub Quiet : {A : Type 0} → Program A → Type 0
Quiet p = (j : Bool) → Keeps is_inner Any 0 j p

check_increase-Reads :
    (i : Intent) (a : Account) (c : Control) (s : SafetyContext) → Reads (check_increase i a c s)
unfolding check_increase
check_increase-Reads i a c s j = (refl, refl, λ at. credential (account_credential_valid a at))
  where
    cost : (r : Answer (Option CostLock)) → Keeps is_reading Any 0 false (after_cost c i s r)
    cost (value l) = tt
    cost (failure e) = tt

    locked :
        (l : Option BalanceLock) (b : Bool)
        → Keeps is_reading Any 0 false (
            if b
            then ret (verdict balance_locked)
            else call (get_cost_lock a.id) (after_cost c i s))
    locked l true = tt
    locked l false = (refl, refl, cost)

    balance :
        (r : Answer (Option BalanceLock)) → Keeps is_reading Any 0 false (after_balance a c i s r)
    balance (value l) = locked l (is_some l || c.balance_locked)
    balance (failure e) = tt

    health :
        (b : Bool)
        → Keeps is_reading Any 0 false (
            if b
            then ret (verdict health_locked)
            else call (get_balance_lock a.id) (after_balance a c i s))
    health true = tt
    health false = (refl, refl, balance)

    limited :
        (b : Bool)
        → Keeps is_reading Any 0 false (
            if b
            then ret (verdict rate_limited)
            else if c.health_locked
            then ret (verdict health_locked)
            else call (get_balance_lock a.id) (after_balance a c i s))
    limited true = tt
    limited false = health c.health_locked

    credential :
        (b : Bool)
        → Keeps is_reading Any 0 false (
            if not b
            then ret (verdict credential_invalid)
            else call now (λ later.
              if account_rate_limited a later
              then ret (verdict rate_limited)
              else if c.health_locked
              then ret (verdict health_locked)
              else call (get_balance_lock a.id) (after_balance a c i s)))
    credential false = tt
    credential true = (refl, refl, λ later. limited (account_rate_limited a later))

check_mode-Reads :
    (i : Intent) (a : Account) (c : Control) (s : SafetyContext) (m : FreezeMode)
    → Reads (check_mode i a c s m)
check_mode-Reads i a c s m j = by_block (freeze_block m i)
  where
    increase :
        (b : Bool)
        → Keeps is_reading Any 0 j
            (if b then check_increase i a c s else ret (verdict (freshness_block i s)))
    increase true = check_increase-Reads i a c s j
    increase false = tt

    by_block : (b : BlockReason) → Keeps is_reading Any 0 j (by_freeze i a c s b)
    by_block no_block = increase (unsafe_target i a)
    by_block _ = tt

effective_mode-Reads : (f : FreezeState) → Reads (effective_mode f)
unfolding effective_mode
effective_mode-Reads f j = by_expiry f.expires_at
  where
    by_expiry : (t : Option ℕ) → Keeps is_reading Any 0 j (mode_until f t)
    by_expiry none = tt
    by_expiry (some t) = (refl, refl, λ at. tt)

pub check_safety-Reads :
    (i : Intent) (a : Account) (c : Control) (s : SafetyContext) → Reads (check_safety i a c s)
unfolding check_safety
check_safety-Reads i a c s j = (refl, refl, after)
  where
    after : (r : Answer FreezeState) → Keeps is_reading Any 0 false (after_freeze i a c s r)
    after (failure e) = tt
    after (value f) =
        Keeps-before is_reading Any Any (check_mode i a c s) 0 false false (effective_mode f)
          (λ m j u. check_mode-Reads i a c s m j) (effective_mode-Reads f false)

pub load_control-Reads : (id : ℤ) → Reads (load_control id)
unfolding load_control
load_control-Reads id j = (refl, refl, control)
  where
    cost :
        (c : Control) (r : Answer (Option CostLock))
        → Keeps is_reading Any 0 false (loaded_cost c r)
    cost c (value l) = tt
    cost c (failure e) = tt

    balance :
        (c : Control) (r : Answer (Option BalanceLock))
        → Keeps is_reading Any 0 false (loaded_balance id c r)
    balance c (value l) = (refl, refl, cost (with_balance c l))
    balance c (failure e) = tt

    control : (r : Answer Control) → Keeps is_reading Any 0 false (loaded_control id r)
    control (value c) = (refl, refl, balance c)
    control (failure e) = tt

Reads-Quiet : {A : Type 0} (p : Program A) → Reads p → Quiet p
Reads-Quiet p h j = Keeps-weaken is_reading is_inner Any reading-inner 0 j p (h j)

pub check_safety-Quiet :
    (i : Intent) (a : Account) (c : Control) (s : SafetyContext) → Quiet (check_safety i a c s)
check_safety-Quiet i a c s = Reads-Quiet (check_safety i a c s) (check_safety-Reads i a c s)

pub load_control-Quiet : (id : ℤ) → Quiet (load_control id)
load_control-Quiet id = Reads-Quiet (load_control id) (load_control-Reads id)
