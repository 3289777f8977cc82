-- ===== src/AccountControl/Projection.antt =====
-- internal/accountcontrol/projection.go: what an account, a mutation and its winner say of each
-- other, and the control record that a mutation leaves behind.
use sub2api_account_schedule.Base.{
  ℕ, Bool, true, false, not, ◌&&◌, ◌||◌, Option, none, some, [], ◌++◌, Text, codes, text_eq,
  contains, to_lower, if◌then◌else◌, leb, ltb, ◌+◌,
}
use sub2api_account_schedule.Base.Int.{ℤ, pos, eq_ℤ}
use sub2api_account_schedule.ControlPlane.Types.{
  Authority, manual_hold, administrator_command, autonomous_agent, Operation,
  set_account_schedulable, DesiredState, schedulable_of, load_factor_of,
}
use sub2api_account_schedule.ControlPlane.Intent.{Intent, is_active_policy, is_none}
use sub2api_account_schedule.AccountControl.Types.{
  MutationStatus, status_string, is_uncertain_status, BlockReason, block_string, is_no_block,
  same_int, is_load_pin,
}
use sub2api_account_schedule.AccountControl.Records.{
  AccountState, Account, Control, Mutation, Result, Event, Submission,
}

abbrev pub same_bool : Bool → Bool → Bool
same_bool true b = b
same_bool false b = not b

abbrev pub matches_load : ℤ × Bool × Bool → Option ℤ → Bool
matches_load (value, configured, false) current = false
matches_load (value, false, true) current = is_none current
matches_load (value, true, true) none = false
matches_load (value, true, true) (some c) = eq_ℤ c value

-- Whether an account's state is the one that is desired.
unfoldable pub account_matches_state : Bool → Option ℤ → DesiredState → Bool
account_matches_state schedulable load_factor desired =
    let (value, is_schedulable) = schedulable_of desired in
    if is_schedulable
    then same_bool schedulable value
    else matches_load (load_factor_of desired) load_factor

abbrev pub account_matches_intent : Account → Intent → Bool
account_matches_intent a i = account_matches_state a.schedulable a.load_factor i.desired_state

unfoldable pub same_account_state : Account → Account → Bool
same_account_state l r =
    same_bool l.schedulable r.schedulable && same_int l.load_factor r.load_factor

abbrev pub state_from_account : Account → AccountState
state_from_account a = record { schedulable = a.schedulable; load_factor = a.load_factor }

unfoldable pub state_matches_account : AccountState → Account → Bool
state_matches_account s a =
    same_bool s.schedulable a.schedulable && same_int s.load_factor a.load_factor

abbrev or_false : Option Bool → Bool
or_false none = false
or_false (some b) = b

unfoldable pub result_from_mutation : Mutation → Bool → Result
result_from_mutation m replay = record {
  command_id = m.command_id;
  mutation_id = m.id;
  intent_id = m.intent_id;
  account_id = m.account_id;
  operation = m.operation;
  requested = record {
    schedulable = or_false m.requested.schedulable;
    load_factor = if m.requested.load_set then m.requested.load_factor else none;
  };
  requested_load_set = m.requested.load_set;
  winning_authority = m.winning.authority;
  status = m.status;
  blocked_reason = m.last_error_code;
  before = m.before;
  verified_after = m.after;
  expires_at = m.winning.expires_at;
  idempotent_replay = replay;
  uncertain = is_uncertain_status m.status;
}

abbrev tally : Bool → ℕ
tally b = if b then 1 else 0

unfoldable pub policy_pause_owner : Control → Text
policy_pause_owner c =
    let count = tally c.health_locked + tally c.balance_locked + tally c.cost_locked in
    if ltb 1 count
    then codes "combined"
    else if c.balance_locked
    then codes "balance"
    else if c.cost_locked
    then codes "cost"
    else codes "automatic"

abbrev is_manual : Authority → Bool
is_manual manual_hold = true
is_manual _ = false

-- Who owns a pause that an authority won.
abbrev pub pause_owner : Authority → Control → Text
pause_owner manual_hold c = codes "operator"
pause_owner administrator_command c = codes "operator"
pause_owner autonomous_agent c = codes "agent"
pause_owner _ c = policy_pause_owner c

-- The branch of `updateControl` for the schedulable operation.
unfoldable pub control_schedulable : Control → Mutation → Account → Control
unfolding policy_pause_owner
control_schedulable c m verified =
    let value = verified.schedulable in
    let policy = value && is_active_policy m.winning.authority in
    record c {
      expected_schedulable = some value;
      last_observed = some value;
      owns_pause = not value;
      owner = if value then [] else pause_owner m.winning.authority c;
      manual_locked = if value then false else is_manual m.winning.authority;
      flap_active = if policy then false else c.flap_active;
      flap_triggered_at = if policy then none else c.flap_triggered_at;
      flap_recovery_required = if policy then pos 0 else c.flap_recovery_required;
      manual_override_until = m.winning.expires_at;
    }

abbrev pub clear_pin : Control → Control
clear_pin c = record c {
  load_pin_value = none;
  load_pin_until = none;
  load_pin_owner = [];
  load_pin_reason = [];
}

-- `event.Type == "load_factor_restored"`
abbrev pub restore_load : Control → Control
restore_load c = record (clear_pin c) {
  owns_load_factor = false;
  original_load_factor = none;
  load_stage = codes "healthy";
  recovery_step = pos 0;
  recovery_started_at = none;
  load_override_until = none;
}

abbrev original_of : Option ℤ → Option AccountState → Option ℤ
original_of none (some before) = before.load_factor
original_of original _ = original

abbrev is_temporary_command : Authority → Bool
is_temporary_command administrator_command = true
is_temporary_command autonomous_agent = true
is_temporary_command _ = false

-- `t != nil && !t.After(now)`
abbrev is_past : Option ℕ → ℕ → Bool
is_past none now = false
is_past (some t) now = leb t now

-- The last `if` chain of `updateControl`.
unfoldable pub control_pin : Control → Mutation → Account → Submission → ℕ → Control
control_pin c m verified submission now =
    if is_load_pin m.winning.override_kind
    then record c {
      owns_load_factor = m.winning.desired.load_set;
      load_pin_value = verified.load_factor;
      load_pin_until = m.winning.expires_at;
      load_pin_owner = m.winning.actor;
      load_pin_reason = m.winning.reason;
      load_override_until = none;
    }
    else if is_temporary_command m.winning.authority
    then record c { load_override_until = m.winning.expires_at }
    else if not (text_eq submission.revoke_override_id [])
    then record (clear_pin c) { load_override_until = none }
    else if is_active_policy m.winning.authority
    then (let d = record c { load_override_until = none } in
        if is_past c.load_pin_until now then clear_pin d else d)
    else c

-- The branch of `updateControl` for the load factor.
unfoldable pub control_load : Control → Mutation → Account → Submission → ℕ → Control
unfolding control_pin
control_load c m verified submission now =
    let owned = record c {
      original_load_factor = original_of c.original_load_factor m.before;
      expected_load_factor = verified.load_factor;
      owns_load_factor = is_active_policy m.winning.authority && m.winning.desired.load_set;
    } in
    control_pin
      (if text_eq submission.event.kind (codes "load_factor_restored")
        then restore_load owned
        else owned)
      m verified submission now

abbrev pub is_schedulable_operation : Operation → Bool
is_schedulable_operation set_account_schedulable = true
is_schedulable_operation _ = false

unfoldable pub update_control : Control → Mutation → Account → Submission → ℕ → Control
unfolding control_schedulable control_load
update_control c m verified submission now =
    let acted = record c {
      account_id = m.account_id;
      last_action_at = some now;
      last_decision = status_string m.status;
    } in
    record (if is_schedulable_operation m.operation
      then control_schedulable acted m verified
      else control_load acted m verified submission now) { updated_at = now }

unfoldable pub default_event : Mutation → MutationStatus → BlockReason → ℕ → Event
default_event m status reason now = record {
  id = pos 0;
  kind = codes "account_mutation_" ++ status_string status;
  severity = codes "info";
  monitor_id = none;
  account_id = some m.account_id;
  goal_id = m.goal_id;
  step_id = m.step_id;
  message =
      let said = codes "account mutation " ++ status_string status in
      if is_no_block reason then said else said ++ (codes ": " ++ block_string reason);
  actor = m.actor;
  created_at = now;
  before_state = none;
  after_state = none;
  details = none;
}

-- An error of the transport or the repository: what `errors.As` and `errors.Is` say of it, and its
-- message.
pub record ExternalError : Type 0 where
  pub is_network : Bool
  pub is_deadline_exceeded : Bool
  pub is_eof : Bool
  pub is_unexpected_eof : Bool
  pub message : Text

unfoldable pub ambiguous_write_error : ExternalError → Bool
ambiguous_write_error e =
    let message = to_lower e.message in
    if e.is_network || e.is_deadline_exceeded || e.is_eof || e.is_unexpected_eof
    then true
    else if contains message (codes "returned 4")
    then false
    else contains message (codes "timeout")
      || contains message (codes "connection")
      || contains message (codes "returned 5")
