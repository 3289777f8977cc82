-- ===== src/ControlPlane/Intent.antt =====
-- internal/controlplane/intent.go: an intent, its normalisation and its validation. A time is the
-- number of nanoseconds since Go's zero time, so `IsZero` is `== 0`.
pub mod Valid
use sub2api_account_schedule.Base.{
  ℕ, Bool, true, false, not, ◌&&◌, ◌||◌, Option, none, some, List, [], ◌∷◌, map, Text, text_eq,
  text_lt, trim, is_blank, if◌then◌else◌, or_else, ltb, leb, ◌==◌, any, sort,
}
use sub2api_account_schedule.Base.Int.{ℤ}
use sub2api_account_schedule.ControlPlane.Types.{
  Producer, Authority, manual_hold, administrator_command, emergency_automation, autonomous_agent,
  active_policy, optimization, Resource, Operation, DesiredState, ConflictKey, Invalid, id_required,
  idempotency_key_required, producer_unknown, authority_unknown, operation_unknown, actor_required,
  reason_required, created_at_explicit, expires_at_after_creation, snapshot_version_required,
  policy_version_required, evidence_required, evidence_empty, agent_temporary,
  optimization_temporary, administrator_ttl, Result, checked, ◌>>=◌, ok, is_producer, is_authority,
  is_operation, validate_resource, validate_for, new_account_resource, new_upstream_key_resource,
  schedulable_state, load_factor_state, group_tier_state, set_account_schedulable,
  set_account_load_factor, set_upstream_key_group_tier,
}

pub record IntentMetadata : Type 0 where
  pub id : Text
  pub idempotency_key : Text
  pub producer : Producer
  pub authority : Authority
  pub actor : Text
  pub reason : Text
  pub evidence_refs : List Text
  pub policy_version : Text
  pub snapshot_version : Text
  pub created_at : ℕ
  pub expires_at : Option ℕ

pub record Intent : Type 0 where
  pub id : Text
  pub idempotency_key : Text
  pub producer : Producer
  pub authority : Authority
  pub resource : Resource
  pub operation : Operation
  pub desired_state : DesiredState
  pub actor : Text
  pub reason : Text
  pub evidence_refs : List Text
  pub policy_version : Text
  pub snapshot_version : Text
  pub created_at : ℕ
  pub expires_at : Option ℕ

-- The loop over the sorted references: one that equals the last one kept is dropped.
unfoldable pub unique_after : Text → List Text → List Text
unique_after last [] = []
unique_after last (s ∷ l) = elim (text_eq s last) [
  | true ↦ unique_after last l
  | false ↦ s ∷ unique_after s l
]

unfoldable pub unique : List Text → List Text
unfolding unique_after
unique [] = []
unique (s ∷ l) = s ∷ unique_after s l

unfoldable pub canonical_evidence_refs : List Text → List Text
unfolding unique
canonical_evidence_refs references = unique (sort text_lt (map trim references))

unfoldable pub normalize_metadata : IntentMetadata → IntentMetadata
unfolding canonical_evidence_refs
normalize_metadata m = record {
  id = trim m.id;
  idempotency_key = trim m.idempotency_key;
  producer = m.producer;
  authority = m.authority;
  actor = trim m.actor;
  reason = trim m.reason;
  evidence_refs = canonical_evidence_refs m.evidence_refs;
  policy_version = trim m.policy_version;
  snapshot_version = trim m.snapshot_version;
  created_at = m.created_at;
  expires_at = m.expires_at;
}

abbrev pub is_automation_authority : Authority → Bool
is_automation_authority emergency_automation = true
is_automation_authority autonomous_agent = true
is_automation_authority active_policy = true
is_automation_authority optimization = true
is_automation_authority _ = false

abbrev pub is_active_policy : Authority → Bool
is_active_policy active_policy = true
is_active_policy _ = false

abbrev pub is_autonomous_agent : Authority → Bool
is_autonomous_agent autonomous_agent = true
is_autonomous_agent _ = false

abbrev pub is_emergency_automation : Authority → Bool
is_emergency_automation emergency_automation = true
is_emergency_automation _ = false

abbrev pub is_none {ℓ} : {A : Type ℓ} → Option A → Bool
is_none none = true
is_none (some a) = false

-- `ExpiresAt != nil && !ExpiresAt.After(CreatedAt)`
abbrev pub expires_by : Option ℕ → ℕ → Bool
expires_by none t = false
expires_by (some e) t = leb e t

abbrev pub check : Bool → Invalid → Option Invalid
check b e = if b then some e else none

abbrev pub evidence_check : List Text → Option Invalid
evidence_check [] = some evidence_required
evidence_check (s ∷ l) = check (any is_blank (s ∷ l)) evidence_empty

-- The last `switch`.
abbrev pub expiry_check : Authority → Option ℕ → Option Invalid
expiry_check autonomous_agent e = check (is_none e) agent_temporary
expiry_check optimization e = check (is_none e) optimization_temporary
expiry_check administrator_command e = check (is_none e) administrator_ttl
expiry_check _ e = none

-- The checks of `Validate` up to the desired state.
validate_identity : Intent → Option Invalid
validate_identity i = or_else (check (is_blank i.id) id_required) (
    or_else (check (is_blank i.idempotency_key) idempotency_key_required) (
      or_else (check (not (is_producer i.producer)) producer_unknown) (
        or_else (check (not (is_authority i.authority)) authority_unknown) (
          or_else (validate_resource i.resource) (
            or_else (check (not (is_operation i.operation)) operation_unknown)
              (validate_for i.desired_state i.resource i.operation))))))

-- The checks of `Validate` from the actor on.
validate_context : Intent → Option Invalid
validate_context i = or_else (check (is_blank i.actor) actor_required) (
    or_else (check (is_blank i.reason) reason_required) (
      or_else (check (i.created_at == 0) created_at_explicit) (
        or_else (check (expires_by i.expires_at i.created_at) expires_at_after_creation) (
          or_else
            (check (is_automation_authority i.authority && is_blank i.snapshot_version)
              snapshot_version_required)
            (or_else
              (check (is_active_policy i.authority && is_blank i.policy_version)
                policy_version_required)
              (or_else
                (if is_autonomous_agent i.authority || is_emergency_automation i.authority
                  then evidence_check i.evidence_refs
                  else none)
                (expiry_check i.authority i.expires_at)))))))

unfoldable pub validate : Intent → Option Invalid
unfolding validate_identity validate_context
validate i = or_else (validate_identity i) (validate_context i)

unfoldable pub new_intent : IntentMetadata → Resource → Operation → DesiredState → Result Intent
unfolding normalize_metadata validate
new_intent metadata resource operation desired =
    let m = normalize_metadata metadata in
    let i : Intent = record {
      id = m.id;
      idempotency_key = m.idempotency_key;
      producer = m.producer;
      authority = m.authority;
      resource = resource;
      operation = operation;
      desired_state = desired;
      actor = m.actor;
      reason = m.reason;
      evidence_refs = m.evidence_refs;
      policy_version = m.policy_version;
      snapshot_version = m.snapshot_version;
      created_at = m.created_at;
      expires_at = m.expires_at;
    } in
    checked (validate i) i

unfoldable pub new_account_schedulable_intent : IntentMetadata → ℤ → Bool → Result Intent
unfolding new_intent new_account_resource
new_account_schedulable_intent metadata account_id schedulable = do
  resource ← new_account_resource account_id
  new_intent metadata resource set_account_schedulable (schedulable_state schedulable)

unfoldable pub new_account_load_factor_intent : IntentMetadata → ℤ → Option ℤ → Result Intent
unfolding new_intent new_account_resource load_factor_state
new_account_load_factor_intent metadata account_id load_factor = do
  resource ← new_account_resource account_id
  desired ← load_factor_state load_factor
  new_intent metadata resource set_account_load_factor desired

unfoldable pub new_upstream_key_group_tier_intent : IntentMetadata → ℤ → Text → Text → Result Intent
unfolding new_intent new_upstream_key_resource group_tier_state
new_upstream_key_group_tier_intent metadata source_id key_id target_tier = do
  resource ← new_upstream_key_resource source_id key_id
  desired ← group_tier_state target_tier
  new_intent metadata resource set_upstream_key_group_tier desired

abbrev pub conflict_key : Intent → ConflictKey
conflict_key i = record { resource = i.resource; operation = i.operation }

-- `ExpiresAt != nil && !now.Before(*ExpiresAt)`
abbrev pub expired : Intent → ℕ → Bool
expired i now = expires_by i.expires_at now
