-- ===== src/ControlPlane/Canonical.antt =====
-- internal/controlplane: the canonical texts of types.go and arbiter.go. A text is written behind
-- its length in bytes, so that the parts can be told apart.
pub mod Injective
use sub2api_account_schedule.Base.{
  ℕ, ◌+◌, ◌*◌, ◌-◌, ◌%◌, ◌^◌, ◌≤◌, Bool, true, false, Option, none, some, List, [], ◌∷◌, ◌++◌, Text,
  codes, byte_len, if◌then◌else◌, ltb,
}
use sub2api_account_schedule.Base.Int.{ℤ, pos, negsuc}
use sub2api_account_schedule.Base.Decimal.{format_nat, format_int}
use sub2api_account_schedule.Base.Quote.{quote}
use sub2api_account_schedule.ControlPlane.Types.{
  Producer, policy_scheduler, agent_operator, admin_ui, failover_controller, cost_optimizer,
  unknown_producer, Authority, manual_hold, administrator_command, emergency_automation,
  autonomous_agent, active_policy, optimization, unknown_authority, Resource, ResourceKind, account,
  upstream_key, other_resource, Operation, set_account_schedulable, set_account_load_factor,
  set_upstream_key_group_tier, unknown_operation, DesiredState, DesiredStateKind, unset,
  schedulable_kind, load_factor_kind, group_tier_kind, ConflictKey,
}
use sub2api_account_schedule.ControlPlane.Intent.{Intent, canonical_evidence_refs}

-- The parameter is the table of printable runes, which `strconv.Quote` reads.
module _ (is_print : ℕ → Bool) where
  unfoldable pub producer_string : Producer → Text
  producer_string policy_scheduler = codes "policy_scheduler"
  producer_string agent_operator = codes "agent_operator"
  producer_string admin_ui = codes "admin_ui"
  producer_string failover_controller = codes "failover_controller"
  producer_string cost_optimizer = codes "cost_optimizer"
  producer_string (unknown_producer s) =
      codes "unknown_producer(" ++ (quote is_print s ++ codes ")")

  unfoldable pub authority_string : Authority → Text
  authority_string manual_hold = codes "manual_hold"
  authority_string administrator_command = codes "administrator_command"
  authority_string emergency_automation = codes "emergency_automation"
  authority_string autonomous_agent = codes "autonomous_agent"
  authority_string active_policy = codes "active_policy"
  authority_string optimization = codes "optimization"
  authority_string (unknown_authority s) =
      codes "unknown_authority(" ++ (quote is_print s ++ codes ")")

  abbrev resource_string_of : ResourceKind → Resource → Text
  resource_string_of account r = codes "account:" ++ format_int r.account_id
  resource_string_of upstream_key r =
      codes "upstream_key:"
      ++ (format_int r.upstream_source_id ++ (codes ":" ++ quote is_print r.upstream_key_id))
  resource_string_of (other_resource s) r =
      codes "unknown_resource(" ++ (quote is_print s ++ codes ")")

  unfoldable pub resource_string : Resource → Text
  resource_string r = resource_string_of r.kind r

  unfoldable pub operation_string : Operation → Text
  operation_string set_account_schedulable = codes "set_account_schedulable"
  operation_string set_account_load_factor = codes "set_account_load_factor"
  operation_string set_upstream_key_group_tier = codes "set_upstream_key_group_tier"
  operation_string (unknown_operation s) =
      codes "unknown_operation(" ++ (quote is_print s ++ codes ")")

  unfoldable pub conflict_key_string : ConflictKey → Text
  unfolding resource_string operation_string
  conflict_key_string k = resource_string k.resource ++ (codes "#" ++ operation_string k.operation)

abbrev pub bool_string : Bool → Text
bool_string true = codes "true"
bool_string false = codes "false"

abbrev canonical_of : DesiredStateKind → DesiredState → Text
canonical_of schedulable_kind s = codes "schedulable:" ++ bool_string s.schedulable
canonical_of load_factor_kind s =
    if s.load_factor_set
    then codes "load_factor:" ++ format_int s.load_factor
    else codes "load_factor:default"
canonical_of group_tier_kind s = codes "group_tier:" ++ s.group_tier
canonical_of unset s = codes "invalid_desired_state"

unfoldable pub canonical : DesiredState → Text
canonical s = canonical_of s.kind s

-- A length, `:`, the text, `|`.
unfoldable pub canonical_part : Text → Text
canonical_part value = format_nat (byte_len value) ++ (b':' ∷ (value ++ b'|' ∷ []))

unfoldable pub canonical_parts : List Text → Text
unfolding canonical_part
canonical_parts [] = []
canonical_parts (value ∷ l) = canonical_part value ++ canonical_parts l

-- The nanoseconds from Go's zero time to 1970, modulo 2 ^ 64.
abbrev unix_offset : ℕ
unix_offset = 62135596800 * 10 ^ 9 % 2 ^ 64

-- `UnixNano()`, computed in int64.
unfoldable pub unix_nano : ℕ → ℤ
unix_nano t =
    let u = (t + (2 ^ 64 - unix_offset)) % 2 ^ 64 in
    if ltb u (2 ^ 63) then pos u else negsuc (2 ^ 64 - u - 1)

unfoldable pub expiration_string : Option ℕ → Text
unfolding unix_nano
expiration_string none = codes "no_expiration"
expiration_string (some t) = format_int (unix_nano t)

module _ (is_print : ℕ → Bool) where
  -- The parts that `semanticSignature` appends, in order.
  unfoldable pub signature_parts : Intent → List Text
  unfolding expiration_string canonical
  signature_parts i =
      producer_string is_print i.producer
      ∷ authority_string is_print i.authority
      ∷ resource_string is_print i.resource
      ∷ operation_string is_print i.operation
      ∷ canonical i.desired_state
      ∷ i.actor
      ∷ i.reason
      ∷ i.policy_version
      ∷ i.snapshot_version
      ∷ format_int (unix_nano i.created_at)
      ∷ expiration_string i.expires_at
      ∷ canonical_evidence_refs i.evidence_refs

  unfoldable pub semantic_signature : Intent → Text
  unfolding signature_parts canonical_parts
  semantic_signature i = canonical_parts (signature_parts i)

  unfoldable pub canonical_intent_key : Intent → Text
  unfolding semantic_signature
  canonical_intent_key i = canonical_parts (i.id ∷ i.idempotency_key ∷ semantic_signature i ∷ [])
