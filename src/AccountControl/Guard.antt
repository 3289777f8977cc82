-- ===== src/AccountControl/Guard.antt =====
-- internal/accountcontrol/guard.go: whether a winning intent may be carried out now.
pub mod Exact
use sub2api_account_schedule.Base.{
  ℕ, ◌+◌, ◌*◌, ◌^◌, Bool, true, false, not, ◌&&◌, ◌||◌, Option, none, some, Text, codes, text_eq,
  trim, is_blank, to_lower, if◌then◌else◌, ltb, leb, is_some,
}
use sub2api_account_schedule.Base.Int.{ℤ, pos, ltb_ℤ, pos_part}
use sub2api_account_schedule.ControlPlane.Types.{
  Producer, agent_operator, Operation, set_account_schedulable, set_account_load_factor,
  schedulable_of, load_factor_of,
}
use sub2api_account_schedule.ControlPlane.Intent.{Intent, is_active_policy, is_autonomous_agent}
use sub2api_account_schedule.AccountControl.Types.{
  BlockReason, no_block, writes_frozen, agent_writes_frozen, credential_invalid, rate_limited,
  health_locked, balance_locked, cost_locked, stale_telemetry, cooldown, FreezeMode, active_mode,
  agent_paused, read_only, writes_frozen_mode, other_mode,
}
use sub2api_account_schedule.AccountControl.Records.{
  Account, Control, FreezeState, BalanceLock, CostLock, SafetyContext,
}
use sub2api_account_schedule.AccountControl.Projection.{ExternalError}
use sub2api_account_schedule.AccountControl.Program.{
  Program, ret, call, ◌>>=◌, ask, Answer, value, failure, now, get_freeze_state, get_balance_lock,
  get_cost_lock,
}

-- A reason, and the error beside it.
pub record Verdict : Type 0 where
  pub reason : BlockReason
  pub error : Option ExternalError

abbrev pub verdict : BlockReason → Verdict
verdict reason = record { reason = reason; error = none }

abbrev pub unsafe_load : ℤ × Bool × Bool → Option ℤ → Bool
unsafe_load (wanted, configured, false) current = true
unsafe_load (wanted, false, true) current = is_some current
unsafe_load (wanted, true, true) none = ltb_ℤ (pos 100) wanted
unsafe_load (wanted, true, true) (some c) = ltb_ℤ c wanted

abbrev unsafe_operation : Operation → Intent → Account → Bool
unsafe_operation set_account_schedulable i a =
    (schedulable_of i.desired_state).1 && (schedulable_of i.desired_state).0
unsafe_operation set_account_load_factor i a =
    unsafe_load (load_factor_of i.desired_state) a.load_factor
unsafe_operation _ i a = true

-- Whether the intent would send the account more traffic.
unfoldable pub unsafe_target : Intent → Account → Bool
unsafe_target i a = unsafe_operation i.operation i a

-- `time.Unix(seconds, 0)` for a positive number of seconds.
abbrev unix_time : ℤ → ℕ
unix_time seconds = (pos_part seconds + 62135596800) * 10 ^ 9

abbrev credential_expired : Option ℤ → ℕ → Bool
credential_expired none at = false
credential_expired (some e) at = ltb_ℤ (pos 0) e && ltb (unix_time e) at

unfoldable pub account_credential_valid : Account → ℕ → Bool
account_credential_valid a at =
    let credential = to_lower (trim a.credential_status) in
    if not (text_eq a.status (codes "active")) || not (is_blank a.error_message)
    then false
    else if text_eq credential (codes "invalid")
        || text_eq credential (codes "expired")
        || text_eq credential (codes "error")
    then false
    else not (credential_expired a.expires_at at)

abbrev pub is_after : Option ℕ → ℕ → Bool
is_after none at = false
is_after (some t) at = ltb at t

unfoldable pub account_rate_limited : Account → ℕ → Bool
account_rate_limited a at =
    is_after a.rate_limit_reset_at at
    || is_after a.overload_until at
    || is_after a.temp_unschedulable_until at

abbrev pub is_writes_frozen : FreezeMode → Bool
is_writes_frozen writes_frozen_mode = true
is_writes_frozen _ = false

abbrev pub is_agent_paused : FreezeMode → Bool
is_agent_paused agent_paused = true
is_agent_paused _ = false

abbrev pub is_read_only : FreezeMode → Bool
is_read_only read_only = true
is_read_only _ = false

abbrev pub is_agent_operator : Producer → Bool
is_agent_operator agent_operator = true
is_agent_operator _ = false

-- What the freeze mode forbids.
unfoldable pub freeze_block : FreezeMode → Intent → BlockReason
freeze_block mode i =
    if is_writes_frozen mode
    then writes_frozen
    else if is_agent_operator i.producer && (is_agent_paused mode || is_read_only mode)
    then agent_writes_frozen
    else if is_active_policy i.authority && is_read_only mode
    then writes_frozen
    else no_block

-- What stale data forbids.
unfoldable pub freshness_block : Intent → SafetyContext → BlockReason
freshness_block i safety =
    if is_active_policy i.authority || is_autonomous_agent i.authority
    then (if not safety.telemetry_fresh
        then stale_telemetry
        else if safety.cooldown_active
        then cooldown
        else no_block)
    else no_block

abbrev pub mode_until : FreezeState → Option ℕ → Program FreezeMode
mode_until f none = ret f.mode
mode_until f (some t) = call now (λ at. ret (if leb t at then active_mode else f.mode))

unfoldable pub effective_mode : FreezeState → Program FreezeMode
effective_mode f = mode_until f f.expires_at

-- The checks of an unsafe increase, from the balance lock on.
abbrev pub after_cost :
    Control → Intent → SafetyContext → Answer (Option CostLock) → Program Verdict
after_cost control i safety (failure e) = ret (record { reason = cost_locked; error = some e })
after_cost control i safety (value lock) = ret (
    if is_some lock || control.cost_locked
    then verdict cost_locked
    else verdict (freshness_block i safety))

abbrev pub after_balance :
    Account → Control → Intent → SafetyContext → Answer (Option BalanceLock) → Program Verdict
after_balance a control i safety (failure e) =
    ret (record { reason = balance_locked; error = some e })
after_balance a control i safety (value lock) =
    if is_some lock || control.balance_locked
    then ret (verdict balance_locked)
    else call (get_cost_lock a.id) (after_cost control i safety)

unfoldable pub check_increase : Intent → Account → Control → SafetyContext → Program Verdict
unfolding account_credential_valid account_rate_limited freshness_block
check_increase i a control safety = call now λ at.
    if not (account_credential_valid a at)
    then ret (verdict credential_invalid)
    else call now λ later.
      if account_rate_limited a later
      then ret (verdict rate_limited)
      else if control.health_locked
      then ret (verdict health_locked)
      else call (get_balance_lock a.id) (after_balance a control i safety)

abbrev pub by_freeze : Intent → Account → Control → SafetyContext → BlockReason → Program Verdict
by_freeze i a control safety no_block =
    if unsafe_target i a
    then check_increase i a control safety
    else ret (verdict (freshness_block i safety))
by_freeze i a control safety reason = ret (verdict reason)

abbrev pub check_mode : Intent → Account → Control → SafetyContext → FreezeMode → Program Verdict
check_mode i a control safety mode = by_freeze i a control safety (freeze_block mode i)

abbrev pub after_freeze :
    Intent → Account → Control → SafetyContext → Answer FreezeState → Program Verdict
after_freeze i a control safety (failure e) =
    ret (record { reason = writes_frozen; error = some e })
after_freeze i a control safety (value f) = effective_mode f >>= check_mode i a control safety

unfoldable pub check_safety : Intent → Account → Control → SafetyContext → Program Verdict
unfolding effective_mode freeze_block unsafe_target check_increase freshness_block ◌>>=◌
check_safety i a control safety = call get_freeze_state (after_freeze i a control safety)
