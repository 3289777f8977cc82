-- ===== src/ControlPlane/Examples.antt =====
-- The control plane on a hold by an operator, a temporary command of an administrator and a policy.
use mathlib.Core.List.{Permᴰ, Memᴰ}
use sub2api_account_schedule.Base.{
  ℕ, ◌<◌, ◌≤◌, ◌≡◌, ◌≢◌, ◌↔◌, ◌⊎◌, inl, inr, refl, sym, ◌∙◌, Bool, true, false, none, some, List,
  [], ◌∷◌, codes, ap, ◌&&◌, leb, ltb, is_blank, weigh,
}
use sub2api_account_schedule.Base.Int.{pos}
use sub2api_account_schedule.ControlPlane.Types.{
  admin_ui, policy_scheduler, manual_hold, administrator_command, active_policy,
  set_account_schedulable, account_resource_of, schedulable_state, validate_resource, validate_for,
}
use sub2api_account_schedule.ControlPlane.Intent.{Intent, validate}
use sub2api_account_schedule.ControlPlane.Intent.Valid.{IsValid, validate_iff}
use sub2api_account_schedule.ControlPlane.Canonical.{canonical_intent_key, signature_parts}
use sub2api_account_schedule.ControlPlane.Canonical.Injective.{canonical_intent_key-injective}
use sub2api_account_schedule.ControlPlane.Arbiter.{arbitrate}
use sub2api_account_schedule.ControlPlane.Arbiter.Conservation.{arbitrate_conserves, result_weight}
use sub2api_account_schedule.ControlPlane.Arbiter.Order.{arbitrate-perm}
use sub2api_account_schedule.ControlPlane.Override.{
  OverrideLease, lease, new_temporary_override, revoke, active, temporary_override_ends,
  revoke_ends,
}

-- The printable runes of ASCII.
abbrev is_ascii : ℕ → Bool
is_ascii c = leb 32 c && ltb c 127

abbrev operator_hold : Intent
operator_hold = record {
  id = codes "hold";
  idempotency_key = codes "hold-1";
  producer = admin_ui;
  authority = manual_hold;
  resource = account_resource_of (pos 7);
  operation = set_account_schedulable;
  desired_state = schedulable_state false;
  actor = codes "ops";
  reason = codes "maintenance";
  evidence_refs = [];
  policy_version = [];
  snapshot_version = [];
  created_at = 1000;
  expires_at = none;
}

abbrev command : Intent
command = record operator_hold {
  id = codes "command";
  idempotency_key = codes "command-1";
  authority = administrator_command;
  desired_state = schedulable_state true;
  expires_at = some 3000;
}

abbrev policy : Intent
policy = record operator_hold {
  id = codes "policy";
  idempotency_key = codes "policy-1";
  producer = policy_scheduler;
  authority = active_policy;
  desired_state = schedulable_state true;
  policy_version = codes "v1";
  snapshot_version = codes "s1";
}

abbrev submitted : List Intent
submitted = policy ∷ operator_hold ∷ []

abbrev reordered : List Intent
reordered = operator_hold ∷ policy ∷ []

validate_iff_example : (validate command ≡ none) ↔ IsValid command
validate_iff_example = validate_iff command

arbitrate_conserves_example :
    weigh (result_weight (λ i. 1)) (arbitrate is_ascii 2000 submitted)
    ≡ weigh (λ (i : Intent). 1) submitted
arbitrate_conserves_example = arbitrate_conserves (λ i. 1) is_ascii 2000 submitted

canonical_intent_key-injective_example :
    (policy.id ≡ policy.id)
    × (policy.idempotency_key ≡ policy.idempotency_key)
    × (signature_parts is_ascii policy ≡ signature_parts is_ascii policy)
canonical_intent_key-injective_example = canonical_intent_key-injective is_ascii policy policy refl

submitted-cases : (i : Intent) → Memᴰ i submitted → (i ≡ policy) ⊎ (i ≡ operator_hold)
submitted-cases i (Memᴰ.head e) = inl e
submitted-cases i (Memᴰ.tail (Memᴰ.head e)) = inr e
submitted-cases i (Memᴰ.tail (Memᴰ.tail m)) = elim m [ ]

ids_differ : policy.id ≢ operator_hold.id
ids_differ e = cc

submitted-distinct :
    (i j : Intent)
    → Memᴰ i submitted
    → Memᴰ j submitted
    → canonical_intent_key is_ascii i ≡ canonical_intent_key is_ascii j
    → i ≡ j
submitted-distinct i j m n e =
    let same = (canonical_intent_key-injective is_ascii i j e).0 in
    elim (submitted-cases i m) [
      | inl a ↦ elim (submitted-cases j n) [
        | inl b ↦ a ∙ sym b
        | inr b ↦ absurd (ids_differ (sym (ap (λ k. k.id) a) ∙ (same ∙ ap (λ k. k.id) b)))
      ]
      | inr a ↦ elim (submitted-cases j n) [
        | inl b ↦ absurd (ids_differ (sym (ap (λ k. k.id) b) ∙ (sym same ∙ ap (λ k. k.id) a)))
        | inr b ↦ a ∙ sym b
      ]
    ]

arbitrate-perm_example : arbitrate is_ascii 2000 submitted ≡ arbitrate is_ascii 2000 reordered
arbitrate-perm_example = arbitrate-perm is_ascii 2000 submitted-distinct (Permᴰ.swap refl refl)

abbrev granted : OverrideLease
granted = record { intent = command; revocation = none }

command-granted : new_temporary_override command ≡ lease granted
unfolding new_temporary_override validate is_blank validate_resource validate_for
command-granted = refl

temporary_override_ends_example :
    (t : ℕ) × (command.expires_at ≡ some t)
    × (command.created_at < t)
    × ((5000 < t) ⊎ (active granted 5000 ≡ false))
temporary_override_ends_example = temporary_override_ends command granted 5000 command-granted

abbrev revoked : OverrideLease
revoked = record granted {
  revocation = some (record { actor = codes "ops"; reason = codes "done"; revoked_at = 2000 });
}

granted-revoked : revoke granted 2000 (codes " ops ") (codes "done") ≡ lease revoked
unfolding revoke validate is_blank validate_resource validate_for
granted-revoked = refl

revoke_ends_example :
    (((1500 < 2000) × (active revoked 1500 ≡ active granted 1500))
      ⊎ ((2000 ≤ 1500) × (active revoked 1500 ≡ false)))
    × (revoke revoked 2500 (codes "ops") (codes "again") ≢ lease revoked)
revoke_ends_example =
    revoke_ends granted 2000 (codes " ops ") (codes "done") revoked refl granted-revoked 1500 2500
      (codes "ops") (codes "again") revoked
