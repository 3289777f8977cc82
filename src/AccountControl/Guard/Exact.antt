-- ===== src/AccountControl/Guard/Exact.antt =====
-- internal/accountcontrol/guard.go: the conditions that `checkSafety` comes down to.
use sub2api_account_schedule.Base.{
  ℕ, ◌≡◌, refl, ap, ◌∙◌, Bool, true, false, not, ◌&&◌, ◌||◌, Option, none, some, arith, is_some,
  leb, if◌then◌else◌,
}
use sub2api_account_schedule.ControlPlane.Intent.{Intent, is_active_policy, is_autonomous_agent}
use sub2api_account_schedule.AccountControl.Types.{
  balance_locked, BlockReason, FreezeMode, active_mode, is_no_block, no_block,
}
use sub2api_account_schedule.AccountControl.Records.{
  Account, Control, FreezeState, BalanceLock, CostLock, SafetyContext,
}
use sub2api_account_schedule.AccountControl.Program.{
  ret, call, Command, Reply, Answer, value, now, get_freeze_state, get_balance_lock, get_cost_lock,
  run, ◌>>=◌,
}
use sub2api_account_schedule.AccountControl.Guard.{
  Verdict, verdict, check_safety, check_increase, check_mode, by_freeze, after_freeze,
  after_balance, after_cost, mode_until, effective_mode, freeze_block, freshness_block,
  unsafe_target, account_credential_valid, account_rate_limited, is_writes_frozen, is_agent_paused,
  is_read_only, is_agent_operator,
}

-- The guard lets the intent pass.
abbrev pub passes : Verdict → Bool
passes v = is_no_block v.reason && not (is_some v.error)

-- A freeze that has run out is no freeze.
abbrev mode_by : FreezeState → Option ℕ → ℕ → FreezeMode
mode_by f none t = f.mode
mode_by f (some e) t = if leb e t then active_mode else f.mode

abbrev mode_at : FreezeState → ℕ → FreezeMode
mode_at f t = mode_by f f.expires_at t

-- Who is stopped by a freeze mode.
abbrev is_frozen : FreezeMode → Intent → Bool
is_frozen m i =
    is_writes_frozen m
    || (is_agent_operator i.producer && (is_agent_paused m || is_read_only m))
    || (is_active_policy i.authority && is_read_only m)

-- Automatic decisions want fresh telemetry and no cooldown.
abbrev is_fresh : Intent → SafetyContext → Bool
is_fresh i s =
    not (is_active_policy i.authority || is_autonomous_agent i.authority)
    || (s.telemetry_fresh && not s.cooldown_active)

-- An account that may be sent more traffic.
abbrev may_increase : Account → Control → Option BalanceLock → Option CostLock → ℕ → Bool
may_increase a c b l t =
    account_credential_valid a t
    && not (account_rate_limited a t)
    && not c.health_locked
    && not (is_some b || c.balance_locked)
    && not (is_some l || c.cost_locked)

abbrev pub is_permitted :
    Intent
    → Account
    → Control
    → SafetyContext
    → FreezeState
    → Option BalanceLock
    → Option CostLock
    → ℕ
    → Bool
is_permitted i a c s f b l t =
    not (is_frozen (mode_at f t) i)
    && (not (unsafe_target i a) || may_increase a c b l t)
    && is_fresh i s

freshness_block-passes :
    (i : Intent) (s : SafetyContext) → is_no_block (freshness_block i s) ≡ is_fresh i s
unfolding freshness_block
freshness_block-passes i s = ground arith

freeze_block-passes :
    (m : FreezeMode) (i : Intent) → is_no_block (freeze_block m i) ≡ not (is_frozen m i)
unfolding freeze_block
freeze_block-passes m i = ground arith

module _ (env : (c : Command) → Reply c) (i : Intent) (a : Account) (c : Control)
    (s : SafetyContext) (b : Option BalanceLock) (l : Option CostLock)
    (hb : env (get_balance_lock a.id) ≡ value b) (hl : env (get_cost_lock a.id) ≡ value l) where
  after_cost-passes :
      passes (run env (after_cost c i s (value l)))
      ≡ (not (is_some l || c.cost_locked) && is_fresh i s)
  unfolding run
  after_cost-passes = ground (arith, freshness_block-passes i s)

  after_balance-passes :
      passes (run env (after_balance a c i s (value b)))
      ≡ (not (is_some b || c.balance_locked) && not (is_some l || c.cost_locked) && is_fresh i s)
  unfolding run
  after_balance-passes = go (is_some b || c.balance_locked)
    where
      asked :
          (r : Answer (Option CostLock))
          → r ≡ value l
          → passes (run env (after_cost c i s r))
            ≡ (not (is_some l || c.cost_locked) && is_fresh i s)
      asked r e = ap (λ q. passes (run env (after_cost c i s q))) e ∙ after_cost-passes

      go :
          (d : Bool)
          → passes (
              run env (
                if d
                then ret (verdict balance_locked)
                else call (get_cost_lock a.id) (after_cost c i s)))
            ≡ (not d && not (is_some l || c.cost_locked) && is_fresh i s)
      go true = refl
      go false = asked (env (get_cost_lock a.id)) hl

  balance_asked :
      (r : Answer (Option BalanceLock))
      → r ≡ value b
      → passes (run env (after_balance a c i s r))
        ≡ (not (is_some b || c.balance_locked) && not (is_some l || c.cost_locked) && is_fresh i s)
  balance_asked r e = ap (λ q. passes (run env (after_balance a c i s q))) e ∙ after_balance-passes

  check_increase-passes :
      passes (run env (check_increase i a c s)) ≡ (may_increase a c b l (env now) && is_fresh i s)
  unfolding check_increase run
  check_increase-passes = ground (arith, balance_asked (env (get_balance_lock a.id)) hb)

  by_freeze-passes :
      (r : BlockReason)
      → passes (run env (by_freeze i a c s r)) ≡ (
          is_no_block r
          && (not (unsafe_target i a) || may_increase a c b l (env now))
          && is_fresh i s)
  unfolding run
  by_freeze-passes no_block = ground (arith, check_increase-passes, freshness_block-passes i s)
  by_freeze-passes _ = refl

  check_mode-passes :
      (m : FreezeMode)
      → passes (run env (check_mode i a c s m)) ≡ (
          not (is_frozen m i)
          && (not (unsafe_target i a) || may_increase a c b l (env now))
          && is_fresh i s)
  check_mode-passes m =
      by_freeze-passes (freeze_block m i)
      ∙ ap (λ q. q && (not (unsafe_target i a) || may_increase a c b l (env now)) && is_fresh i s)
          (freeze_block-passes m i)

  effective_mode-run :
      (f : FreezeState)
      → run env (effective_mode f >>= check_mode i a c s)
        ≡ run env (check_mode i a c s (mode_at f (env now)))
  unfolding effective_mode ◌>>=◌ run
  effective_mode-run f = go f.expires_at
    where
      go :
          (e : Option ℕ)
          → run env (mode_until f e >>= check_mode i a c s)
            ≡ run env (check_mode i a c s (mode_by f e (env now)))
      go none = refl
      go (some t) = refl

-- Where the store answers and the clock stands still, the guard lets an intent pass exactly if the freeze that is in force now
-- does not stop its producer or its authority, an intent that would send the account more traffic
-- meets an account with valid credentials, no rate limit and no health, balance or cost lock, and an
-- intent of the policy or of the agent comes with fresh telemetry and no cooldown.
pub check_safety-exact :
    (env : (c : Command) → Reply c) (i : Intent) (a : Account) (c : Control) (s : SafetyContext)
    (f : FreezeState) (b : Option BalanceLock) (l : Option CostLock)
    → env get_freeze_state ≡ value f
    → env (get_balance_lock a.id) ≡ value b
    → env (get_cost_lock a.id) ≡ value l
    → passes (run env (check_safety i a c s)) ≡ is_permitted i a c s f b l (env now)
unfolding check_safety run
check_safety-exact env i a c s f b l hf hb hl =
    ap (λ q. passes (run env (after_freeze i a c s q))) hf
    ∙ (ap passes (effective_mode-run env i a c s b l hb hl f)
        ∙ check_mode-passes env i a c s b l hb hl (mode_at f (env now)))
