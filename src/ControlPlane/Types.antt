-- ===== src/ControlPlane/Types.antt =====
-- internal/controlplane/types.go: the values that an intent is made of. A Go string type with named
-- constants is a data type with one constructor for each constant, and one for any other string.
use sub2api_account_schedule.Base.{
  ℕ, Bool, true, false, not, ◌&&◌, ◌||◌, Option, none, some, [], Text, codes, text_eq, trim,
  is_blank, is_empty, to_lower, if◌then◌else◌, or_else,
}
use sub2api_account_schedule.Base.Int.{ℤ, pos, leb_ℤ, ltb_ℤ, eq_ℤ}

pub data Producer : Type 0 where
  policy_scheduler agent_operator admin_ui failover_controller cost_optimizer : Producer
  unknown_producer : Text → Producer

abbrev pub is_producer : Producer → Bool
is_producer (unknown_producer s) = false
is_producer _ = true

pub data Authority : Type 0 where
  manual_hold administrator_command emergency_automation autonomous_agent : Authority
  active_policy optimization : Authority
  unknown_authority : Text → Authority

-- The rank, and whether the authority is known.
abbrev pub authority_rank : Authority → ℕ × Bool
authority_rank manual_hold = (0, true)
authority_rank administrator_command = (1, true)
authority_rank emergency_automation = (2, true)
authority_rank autonomous_agent = (3, true)
authority_rank active_policy = (4, true)
authority_rank optimization = (5, true)
authority_rank (unknown_authority s) = (0, false)

abbrev pub is_authority : Authority → Bool
is_authority a = (authority_rank a).1

pub data ResourceKind : Type 0 where
  account upstream_key : ResourceKind
  other_resource : Text → ResourceKind

pub record Resource : Type 0 where
  pub kind : ResourceKind
  pub account_id : ℤ
  pub upstream_source_id : ℤ
  pub upstream_key_id : Text

-- Each message that `invalidIntent` is called with.
pub data Invalid : Type 0 where
  id_required idempotency_key_required producer_unknown authority_unknown : Invalid
  account_resource upstream_key_resource resource_kind_unknown operation_unknown : Invalid
  schedulable_state_required load_factor_state_required group_tier_state_required : Invalid
  load_factor_positive group_tier_unknown actor_required reason_required : Invalid
  created_at_explicit expires_at_after_creation snapshot_version_required : Invalid
  policy_version_required evidence_required evidence_empty : Invalid
  agent_temporary optimization_temporary administrator_ttl : Invalid

-- A value and an error: Go returns the zero value beside an error.
pub data Result {ℓ} (A : Type ℓ) : Type ℓ where
  ok : A → Result A
  err : Invalid → Result A

infixl 5 ◌>>=◌
abbrev pub ◌>>=◌ {ℓ κ} : {A : Type ℓ} {B : Type κ} → Result A → (A → Result B) → Result B
ok a >>= f = f a
err e >>= f = err e

-- `if err := check; err != nil { return …, err }; return value, nil`
abbrev pub checked {ℓ} : {A : Type ℓ} → Option Invalid → A → Result A
checked none a = ok a
checked (some e) a = err e

abbrev pub is_positive : ℤ → Bool
is_positive a = ltb_ℤ (pos 0) a

-- The cases of `Validate` by the kind.
abbrev pub validate_kind : ResourceKind → Resource → Option Invalid
validate_kind account r =
    if leb_ℤ r.account_id (pos 0)
      || not (eq_ℤ r.upstream_source_id (pos 0))
      || not (is_empty r.upstream_key_id)
    then some account_resource
    else none
validate_kind upstream_key r =
    if not (eq_ℤ r.account_id (pos 0))
      || leb_ℤ r.upstream_source_id (pos 0)
      || is_blank r.upstream_key_id
    then some upstream_key_resource
    else none
validate_kind (other_resource s) r = some resource_kind_unknown

unfoldable pub validate_resource : Resource → Option Invalid
validate_resource r = validate_kind r.kind r

abbrev pub account_resource_of : ℤ → Resource
account_resource_of account_id = record {
  kind = account;
  account_id = account_id;
  upstream_source_id = pos 0;
  upstream_key_id = [];
}

unfoldable pub new_account_resource : ℤ → Result Resource
unfolding validate_resource
new_account_resource account_id =
    let r = account_resource_of account_id in checked (validate_resource r) r

unfoldable pub new_upstream_key_resource : ℤ → Text → Result Resource
unfolding validate_resource
new_upstream_key_resource source_id key_id =
    let r : Resource = record {
      kind = upstream_key;
      account_id = pos 0;
      upstream_source_id = source_id;
      upstream_key_id = trim key_id;
    } in
    checked (validate_resource r) r

abbrev pub is_account : ResourceKind → Bool
is_account account = true
is_account _ = false

abbrev pub is_upstream_key : ResourceKind → Bool
is_upstream_key upstream_key = true
is_upstream_key _ = false

-- The ID, and whether the resource is an account.
abbrev pub account_id_of : Resource → ℤ × Bool
account_id_of r = (r.account_id, is_account r.kind)

pub data Operation : Type 0 where
  set_account_schedulable set_account_load_factor set_upstream_key_group_tier : Operation
  unknown_operation : Text → Operation

abbrev pub is_operation : Operation → Bool
is_operation (unknown_operation s) = false
is_operation _ = true

-- `unset` is the zero kind, which no constructor function gives.
pub data DesiredStateKind : Type 0 where
  unset schedulable_kind load_factor_kind group_tier_kind : DesiredStateKind

pub record DesiredState : Type 0 where
  pub kind : DesiredStateKind
  pub schedulable : Bool
  pub load_factor : ℤ
  pub load_factor_set : Bool
  pub group_tier : Text

abbrev pub zero_state : DesiredState
zero_state = record {
  kind = unset;
  schedulable = false;
  load_factor = pos 0;
  load_factor_set = false;
  group_tier = [];
}

abbrev pub schedulable_state : Bool → DesiredState
schedulable_state value = record zero_state { kind = schedulable_kind; schedulable = value }

unfoldable pub load_factor_state : Option ℤ → Result DesiredState
load_factor_state none = ok (record zero_state { kind = load_factor_kind })
load_factor_state (some value) =
    if ltb_ℤ value (pos 1)
    then err load_factor_positive
    else ok
        (record zero_state { kind = load_factor_kind; load_factor = value; load_factor_set = true })

-- model.GroupTierMain, model.GroupTierBackup, model.GroupTierEmergency
unfoldable pub is_group_tier : Text → Bool
is_group_tier tier =
    text_eq tier (codes "main") || text_eq tier (codes "backup") || text_eq tier (codes "emergency")

unfoldable pub group_tier_state : Text → Result DesiredState
unfolding is_group_tier
group_tier_state tier =
    let lowered = to_lower (trim tier) in
    if is_group_tier lowered
    then ok (record zero_state { kind = group_tier_kind; group_tier = lowered })
    else err group_tier_unknown

abbrev pub is_schedulable_kind : DesiredStateKind → Bool
is_schedulable_kind schedulable_kind = true
is_schedulable_kind _ = false

abbrev pub is_load_factor_kind : DesiredStateKind → Bool
is_load_factor_kind load_factor_kind = true
is_load_factor_kind _ = false

abbrev pub is_group_tier_kind : DesiredStateKind → Bool
is_group_tier_kind group_tier_kind = true
is_group_tier_kind _ = false

-- `Schedulable()`: the value, and whether this is a schedulable state.
abbrev pub schedulable_of : DesiredState → Bool × Bool
schedulable_of s = (s.schedulable, is_schedulable_kind s.kind)

-- `LoadFactor()`: value, configured, ok.
abbrev pub load_factor_of : DesiredState → ℤ × Bool × Bool
load_factor_of s = (s.load_factor, s.load_factor_set, is_load_factor_kind s.kind)

abbrev pub error_of {ℓ} : {A : Type ℓ} → Result A → Option Invalid
error_of (ok a) = none
error_of (err e) = some e

abbrev pub validate_operation : Operation → DesiredState → Resource → Option Invalid
validate_operation set_account_schedulable s r =
    if not (is_account r.kind) || not (is_schedulable_kind s.kind)
    then some schedulable_state_required
    else none
validate_operation set_account_load_factor s r =
    if not (is_account r.kind) || not (is_load_factor_kind s.kind)
    then some load_factor_state_required
    else if s.load_factor_set && ltb_ℤ s.load_factor (pos 1)
    then some load_factor_positive
    else none
validate_operation set_upstream_key_group_tier s r =
    if not (is_upstream_key r.kind) || not (is_group_tier_kind s.kind)
    then some group_tier_state_required
    else error_of (group_tier_state s.group_tier)
validate_operation (unknown_operation o) s r = some operation_unknown

unfoldable pub validate_for : DesiredState → Resource → Operation → Option Invalid
unfolding validate_resource
validate_for s r operation = or_else (validate_resource r) (validate_operation operation s r)

pub record ConflictKey : Type 0 where
  pub resource : Resource
  pub operation : Operation

-- `==` on values of the string types and of `Resource`, as the map keys are compared.
unfoldable pub same_kind : ResourceKind → ResourceKind → Bool
same_kind account account = true
same_kind upstream_key upstream_key = true
same_kind (other_resource s) (other_resource t) = text_eq s t
same_kind _ _ = false

unfoldable pub same_operation : Operation → Operation → Bool
same_operation set_account_schedulable set_account_schedulable = true
same_operation set_account_load_factor set_account_load_factor = true
same_operation set_upstream_key_group_tier set_upstream_key_group_tier = true
same_operation (unknown_operation s) (unknown_operation t) = text_eq s t
same_operation _ _ = false

unfoldable pub same_resource : Resource → Resource → Bool
unfolding same_kind
same_resource r t =
    same_kind r.kind t.kind
    && eq_ℤ r.account_id t.account_id
    && eq_ℤ r.upstream_source_id t.upstream_source_id
    && text_eq r.upstream_key_id t.upstream_key_id

unfoldable pub same_key : ConflictKey → ConflictKey → Bool
unfolding same_resource same_operation
same_key k j = same_resource k.resource j.resource && same_operation k.operation j.operation
