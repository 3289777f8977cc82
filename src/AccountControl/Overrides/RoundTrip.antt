-- ===== src/AccountControl/Overrides/RoundTrip.antt =====
-- internal/accountcontrol/types.go: an intent that is stored as an override comes back.
use mathlib.Core.Path.{subst}
use sub2api_account_schedule.Base.{◌≡◌, sym, ap, ◌∙◌, Bool, some, Text, arith}
use sub2api_account_schedule.Base.Int.{ℤ}
use sub2api_account_schedule.ControlPlane.Types
use sub2api_account_schedule.ControlPlane.Types.{
  Resource, account_resource_of, new_account_resource, schedulable_state, set_account_schedulable,
}
use sub2api_account_schedule.ControlPlane.Intent.{
  Intent, IntentMetadata, normalize_metadata, new_intent, new_account_schedulable_intent,
}
use sub2api_account_schedule.AccountControl.Records.{Override}
use sub2api_account_schedule.AccountControl.Overrides.{
  Go, good, override_from_intent, override_intent, metadata_of,
}

-- The intent that the metadata, an account and a value make.
abbrev schedulable_intent : IntentMetadata → ℤ → Bool → Intent
schedulable_intent m a v = record {
  id = m.id;
  idempotency_key = m.idempotency_key;
  producer = m.producer;
  authority = m.authority;
  resource = account_resource_of a;
  operation = set_account_schedulable;
  desired_state = schedulable_state v;
  actor = m.actor;
  reason = m.reason;
  evidence_refs = m.evidence_refs;
  policy_version = m.policy_version;
  snapshot_version = m.snapshot_version;
  created_at = m.created_at;
  expires_at = m.expires_at;
}

made_intent :
    (m : IntentMetadata) (a : ℤ) (v : Bool) (i : Intent)
    → new_account_schedulable_intent m a v ≡ Types.ok i
    → schedulable_intent (normalize_metadata m) a v ≡ i
unfolding new_account_schedulable_intent new_account_resource new_intent
made_intent m a v i h = ground arith

stored_override_fields :
    (go : Go) (id command_id : Text) (m : IntentMetadata) (a : ℤ) (v : Bool) (o : Override)
    → override_from_intent go id command_id (schedulable_intent m a v) ≡ good o
    → (o.operation ≡ set_account_schedulable)
      × (o.schedulable ≡ some v)
      × (o.account_id ≡ a)
      × (metadata_of o ≡ m)
unfolding override_from_intent
stored_override_fields go id command_id m a v o h = ground arith

restored :
    (o : Override) (m : IntentMetadata) (a : ℤ) (v : Bool) (i : Intent)
    → o.operation ≡ set_account_schedulable
    → o.schedulable ≡ some v
    → o.account_id ≡ a
    → metadata_of o ≡ m
    → new_account_schedulable_intent m a v ≡ Types.ok i
    → override_intent o ≡ good i
unfolding override_intent
restored o m a v i p q r s h = ground arith

-- A stored override gives its intent back: an intent on the schedulable state of an account, made
-- from metadata that are trimmed and whose evidence is sorted without repetitions, is the intent of
-- the override that it is turned into.
pub override_intent-override_from_intent :
    (go : Go) (id command_id : Text) (m : IntentMetadata) (a : ℤ) (v : Bool) (i : Intent)
    (o : Override)
    → normalize_metadata m ≡ m
    → new_account_schedulable_intent m a v ≡ Types.ok i
    → override_from_intent go id command_id i ≡ good o
    → override_intent o ≡ good i
override_intent-override_from_intent go id command_id m a v i o normal made stored =
    let same = ap (λ n. schedulable_intent n a v) (sym normal) ∙ made_intent m a v i made in
    let (p, q, r, s) =
      stored_override_fields go id command_id m a v o
        (subst (λ j. override_from_intent go id command_id j ≡ good o) (sym same) stored) in
    restored o m a v i p q r s made
