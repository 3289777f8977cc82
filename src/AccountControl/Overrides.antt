-- ===== src/AccountControl/Overrides.antt =====
-- internal/accountcontrol: overrides as intents and intents as overrides (types.go), the candidates
-- of a submission and the decision between them (service.go).
pub mod RoundTrip
use sub2api_account_schedule.Base.{
  ℕ, Bool, true, false, Option, none, some, [], ◌++◌, Text, codes, if◌then◌else◌,
}
use sub2api_account_schedule.Base.Int.{ℤ}
use sub2api_account_schedule.ControlPlane.Types
use sub2api_account_schedule.ControlPlane.Types.{
  Authority, manual_hold, Invalid, Operation, set_account_schedulable, set_account_load_factor,
  DesiredState, schedulable_of, load_factor_of, account_id_of, is_account, same_key,
}
use sub2api_account_schedule.ControlPlane.Intent.{
  Intent, IntentMetadata, validate, is_active_policy, new_account_schedulable_intent,
  new_account_load_factor_intent,
}
use sub2api_account_schedule.ControlPlane.Canonical.{semantic_signature}
use sub2api_account_schedule.AccountControl.Types.{
  OverrideKind, unset_kind, temporary, manual_hold_kind, pending,
}
use sub2api_account_schedule.AccountControl.Records.{Override, Submission, Result}
use sub2api_account_schedule.AccountControl.Projection.{ExternalError}

-- What the code takes from Go's libraries: the table of printable runes and the SHA-256 digest of a
-- text in hexadecimal.
pub record Go : Type 0 where
  pub is_print : ℕ → Bool
  pub sha256_hex : Text → Text

-- The errors of the service. `Cause` is what a `MutationStateError` wraps.
pub data Cause : Type 0 where
  no_cause not_found state_mismatch : Cause
  caused_by : ExternalError → Cause
  local_commit : ExternalError → Cause
  code : Text → Cause

pub data ServiceError : Type 0 where
  command_id_required command_id_too_long not_account_resource unsupported_operation : ServiceError
  active_policy_not_persistent no_account_resource bad_schedulable bad_load_factor : ServiceError
  no_stored_schedulable no_stored_load_factor unsupported_override : ServiceError
  invalid_intent : Invalid → ServiceError
  external : ExternalError → ServiceError
  load_override : Text → ServiceError → ServiceError
  idempotency_conflict_error : Text → ServiceError
  blocked_error : Result → ServiceError
  mutation_state_error : Result → Cause → ServiceError

pub data Checked (A : Type 0) : Type 0 where
  good : A → Checked A
  bad : ServiceError → Checked A

abbrev pub from_result : {A : Type 0} → Types.Result A → Checked A
from_result (Types.ok a) = good a
from_result (Types.err e) = bad (invalid_intent e)

-- controlplane.SemanticSignature
abbrev signature_checked : Option Invalid → Text → Checked Text
signature_checked none s = good s
signature_checked (some e) s = bad (invalid_intent e)

unfoldable pub checked_signature : Go → Intent → Checked Text
checked_signature go i =
    signature_checked (validate i)
      (codes "cp-sem-v1-" ++ go.sha256_hex (semantic_signature go.is_print i))

abbrev is_manual_authority : Authority → Bool
is_manual_authority manual_hold = true
is_manual_authority _ = false

-- `if submission.OverrideKind != ""`, and so on.
abbrev kind_or : OverrideKind → Authority → OverrideKind
kind_or unset_kind a = if is_manual_authority a then manual_hold_kind else temporary
kind_or kind a = kind

unfoldable pub override_kind_for_submission : Submission → OverrideKind
override_kind_for_submission s = kind_or s.override_kind s.intent.authority

-- The value that an operation stores, in the order of the Go `switch`.
abbrev with_desired : Operation → DesiredState → Override → Checked Override
with_desired set_account_schedulable d o =
    if (schedulable_of d).1
    then good (record o { schedulable = some ((schedulable_of d).0) })
    else bad bad_schedulable
with_desired set_account_load_factor d o =
    if (load_factor_of d).2
    then good (record o {
      load_factor_set = (load_factor_of d).1;
      load_factor = if (load_factor_of d).1 then some ((load_factor_of d).0) else none;
    })
    else bad bad_load_factor
with_desired _ d o = bad unsupported_override

abbrev bare_override : Text → Text → Intent → Text → Override
bare_override id command_id i signature = record {
  id = id;
  command_id = command_id;
  intent_id = i.id;
  idempotency_key = i.idempotency_key;
  semantic_signature = signature;
  account_id = (account_id_of i.resource).0;
  operation = i.operation;
  kind = if is_manual_authority i.authority then manual_hold_kind else temporary;
  schedulable = none;
  load_factor = none;
  load_factor_set = false;
  producer = i.producer;
  authority = i.authority;
  actor = i.actor;
  reason = i.reason;
  evidence_refs = i.evidence_refs;
  policy_version = i.policy_version;
  snapshot_version = i.snapshot_version;
  created_at = i.created_at;
  expires_at = i.expires_at;
  status = pending;
  mutation_id = [];
  revoked_at = none;
  revoked_by = [];
  revoke_reason = [];
  updated_at = i.created_at;
}

abbrev signed_override : Text → Text → Intent → Checked Text → Checked Override
signed_override id command_id i (bad e) = bad e
signed_override id command_id i (good s) =
    with_desired i.operation i.desired_state (bare_override id command_id i s)

abbrev checked_override : Option Invalid → Go → Text → Text → Intent → Checked Override
checked_override (some e) go id command_id i = bad (invalid_intent e)
checked_override none go id command_id i =
    if is_active_policy i.authority
    then bad active_policy_not_persistent
    else if is_account i.resource.kind
    then signed_override id command_id i (checked_signature go i)
    else bad no_account_resource

unfoldable pub override_from_intent : Go → Text → Text → Intent → Checked Override
unfolding checked_signature
override_from_intent go id command_id i = checked_override (validate i) go id command_id i

abbrev pub metadata_of : Override → IntentMetadata
metadata_of o = record {
  id = o.intent_id;
  idempotency_key = o.idempotency_key;
  producer = o.producer;
  authority = o.authority;
  actor = o.actor;
  reason = o.reason;
  evidence_refs = o.evidence_refs;
  policy_version = o.policy_version;
  snapshot_version = o.snapshot_version;
  created_at = o.created_at;
  expires_at = o.expires_at;
}

abbrev stored_schedulable : Override → Option Bool → Checked Intent
stored_schedulable o none = bad no_stored_schedulable
stored_schedulable o (some b) =
    from_result (new_account_schedulable_intent (metadata_of o) o.account_id b)

abbrev stored_load_factor : Override → Bool → Option ℤ → Checked Intent
stored_load_factor o true none = bad no_stored_load_factor
stored_load_factor o true (some v) =
    from_result (new_account_load_factor_intent (metadata_of o) o.account_id (some v))
stored_load_factor o false v =
    from_result (new_account_load_factor_intent (metadata_of o) o.account_id none)

abbrev stored_intent : Operation → Override → Checked Intent
stored_intent set_account_schedulable o = stored_schedulable o o.schedulable
stored_intent set_account_load_factor o = stored_load_factor o o.load_factor_set o.load_factor
stored_intent _ o = bad unsupported_override

unfoldable pub override_intent : Override → Checked Intent
override_intent o = stored_intent o.operation o
