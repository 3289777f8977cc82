-- ===== src/ControlPlane/Intent/Valid.antt =====
-- internal/controlplane/intent.go: which intents `Validate` accepts.
use sub2api_account_schedule.Base.{
  ℕ, ◌<◌, ◌≡◌, refl, ◌≢◌, ◌↔◌, ◌⊎◌, inl, inr, Bool, true, false, ◌||◌, ◌&&◌, ◌==◌, Text, Option,
  none, some, List, [], ◌∷◌, arith, is_blank, or_else, if◌then◌else◌, All, any,
}
use sub2api_account_schedule.ControlPlane.Types.{
  Invalid, actor_required, reason_required, created_at_explicit, expires_at_after_creation,
  snapshot_version_required, policy_version_required, Authority, administrator_command,
  emergency_automation, autonomous_agent, active_policy, optimization, is_producer, is_authority,
  is_operation, validate_resource, validate_for,
}
use sub2api_account_schedule.ControlPlane.Intent.{
  Intent, validate, validate_identity, validate_context, is_automation_authority, evidence_check,
  expiry_check, expires_by, check, is_active_policy, is_autonomous_agent, is_emergency_automation,
}

-- Whether an authority must bring evidence, and whether what it asks for must end.
abbrev pub NeedsEvidence : Authority → Type 0
NeedsEvidence a = (a ≡ autonomous_agent) ⊎ (a ≡ emergency_automation)

abbrev pub IsTemporary : Authority → Type 0
IsTemporary a = (a ≡ autonomous_agent) ⊎ (a ≡ optimization) ⊎ (a ≡ administrator_command)

pub record IsValid (i : Intent) : Type 0 where
  pub id_given : is_blank i.id ≡ false
  pub key_given : is_blank i.idempotency_key ≡ false
  pub producer_known : is_producer i.producer ≡ true
  pub authority_known : is_authority i.authority ≡ true
  pub operation_known : is_operation i.operation ≡ true
  pub state_fits : validate_for i.desired_state i.resource i.operation ≡ none
  pub actor_given : is_blank i.actor ≡ false
  pub reason_given : is_blank i.reason ≡ false
  pub created : 0 < i.created_at
  pub ends_later : (t : ℕ) → i.expires_at ≡ some t → i.created_at < t
  pub snapshot_given :
      is_automation_authority i.authority ≡ true → is_blank i.snapshot_version ≡ false
  pub policy_given : i.authority ≡ active_policy → is_blank i.policy_version ≡ false
  pub evidence_given : NeedsEvidence i.authority → i.evidence_refs ≢ []
  pub evidence_named : NeedsEvidence i.authority → All (λ s. is_blank s ≡ false) i.evidence_refs
  pub temporary : IsTemporary i.authority → i.expires_at ≢ none

||-false : (a b : Bool) → (a || b) ≡ false → (a ≡ false) × (b ≡ false)
||-false a b h = ground arith

identity_sound :
    (i : Intent)
    → validate_identity i ≡ none
    → (is_blank i.id ≡ false)
      × (is_blank i.idempotency_key ≡ false)
      × (is_producer i.producer ≡ true)
      × (is_authority i.authority ≡ true)
      × (is_operation i.operation ≡ true)
      × (validate_for i.desired_state i.resource i.operation ≡ none)
unfolding validate_identity
identity_sound i h = ground arith

any_blank_sound : (l : List Text) → any is_blank l ≡ false → All (λ s. is_blank s ≡ false) l
any_blank_sound [] h = tt
any_blank_sound (s ∷ l) h =
    let both = ||-false (is_blank s) (any is_blank l) h in (both.0, any_blank_sound l both.1)

any_blank_complete : (l : List Text) → All (λ s. is_blank s ≡ false) l → any is_blank l ≡ false
any_blank_complete [] h = refl
any_blank_complete (s ∷ l) h = rw h.0 (any_blank_complete l h.1)

evidence_sound :
    (l : List Text) → evidence_check l ≡ none → (l ≢ []) × All (λ s. is_blank s ≡ false) l
evidence_sound [] h = cc
evidence_sound (s ∷ l) h = ((λ e. cc), any_blank_sound (s ∷ l) (ground arith))

evidence_complete :
    (l : List Text) → l ≢ [] → All (λ s. is_blank s ≡ false) l → evidence_check l ≡ none
evidence_complete [] h k = absurd (h refl)
evidence_complete (s ∷ l) h k = rw (any_blank_complete (s ∷ l) k) refl

or_else-none {ℓ} : {A : Type ℓ} (a b : Option A) → or_else a b ≡ none → (a ≡ none) × (b ≡ none)
or_else-none none b h = (refl, h)
or_else-none (some e) b h = cc

expiry_sound : (a : Authority) (e : Option ℕ) → expiry_check a e ≡ none → IsTemporary a → e ≢ none
expiry_sound a e h t = ground arith

expiry_complete :
    (a : Authority) (e : Option ℕ) → (IsTemporary a → e ≢ none) → expiry_check a e ≡ none
expiry_complete autonomous_agent none h = absurd (h (inl refl) refl)
expiry_complete optimization none h = absurd (h (inr (inl refl)) refl)
expiry_complete administrator_command none h = absurd (h (inr (inr refl)) refl)
expiry_complete _ none h = refl
expiry_complete autonomous_agent (some e) h = refl
expiry_complete _ (some e) h = refl

-- The evidence that the code asks an authority for.
abbrev evidence_needed : Authority → List Text → Option Invalid
evidence_needed a l =
    if is_autonomous_agent a || is_emergency_automation a then evidence_check l else none

evidence_needed_sound :
    (a : Authority) (l : List Text)
    → evidence_needed a l ≡ none
    → NeedsEvidence a
    → evidence_check l ≡ none
evidence_needed_sound a l h n = ground arith

evidence_needed_complete :
    (a : Authority) (l : List Text)
    → (NeedsEvidence a → evidence_check l ≡ none)
    → evidence_needed a l ≡ none
evidence_needed_complete autonomous_agent l h = h (inl refl)
evidence_needed_complete emergency_automation l h = h (inr refl)
evidence_needed_complete _ l h = refl

ends_later_sound : (e : Option ℕ) (c : ℕ) → expires_by e c ≡ false → (t : ℕ) → e ≡ some t → c < t
ends_later_sound e c h t k = ground arith

ends_later_complete :
    (e : Option ℕ) (c : ℕ) → ((t : ℕ) → e ≡ some t → c < t) → expires_by e c ≡ false
ends_later_complete none c h = refl
ends_later_complete (some t) c h = ground (arith, h t refl)

check-none : (b : Bool) (e : Invalid) → check b e ≡ none → b ≡ false
check-none b e h = ground arith

both_none {ℓ} : {A : Type ℓ} {a b : Option A} → a ≡ none → b ≡ none → or_else a b ≡ none
both_none h k = rw h k

check-none' : (b : Bool) (e : Invalid) → b ≡ false → check b e ≡ none
check-none' b e h = rw h

created_sound : (c : ℕ) → (c == 0) ≡ false → 0 < c
created_sound c h = ground arith

created_complete : (c : ℕ) → 0 < c → (c == 0) ≡ false
created_complete c h = ground arith

implication : (a b : Bool) → (a && b) ≡ false → a ≡ true → b ≡ false
implication a b h k = ground arith

implied : (a b : Bool) → (a ≡ true → b ≡ false) → (a && b) ≡ false
implied true b h = h refl
implied false b h = refl

policy_sound :
    (a : Authority) (b : Bool) → (is_active_policy a && b) ≡ false → a ≡ active_policy → b ≡ false
policy_sound a b h k = ground arith

policy_complete :
    (a : Authority) (b : Bool) → (a ≡ active_policy → b ≡ false) → (is_active_policy a && b) ≡ false
policy_complete active_policy b h = h refl
policy_complete _ b h = refl

-- What `Validate` accepts is valid.
validate_sound : (i : Intent) → validate i ≡ none → IsValid i
unfolding validate validate_context
validate_sound i h =
    let (named, rest) = or_else-none (validate_identity i) _ h in
    let (a, rest1) = or_else-none _ _ rest in
    let (b, rest2) = or_else-none _ _ rest1 in
    let (c, rest3) = or_else-none _ _ rest2 in
    let (d, rest4) = or_else-none _ _ rest3 in
    let (e, rest5) = or_else-none _ _ rest4 in
    let (f, rest6) = or_else-none _ _ rest5 in
    let (g, last) = or_else-none _ _ rest6 in
    let id = identity_sound i named in
    let proof = evidence_needed_sound i.authority i.evidence_refs g in
    record {
      id_given = id.0;
      key_given = id.1;
      producer_known = id.2;
      authority_known = id.3;
      operation_known = id.4;
      state_fits = id.5;
      actor_given = check-none _ _ a;
      reason_given = check-none _ _ b;
      created = created_sound i.created_at (check-none _ _ c);
      ends_later = ends_later_sound i.expires_at i.created_at (check-none _ _ d);
      snapshot_given = implication (is_automation_authority i.authority) _ (check-none _ _ e);
      policy_given = policy_sound i.authority _ (check-none _ _ f);
      evidence_given = λ n. (evidence_sound i.evidence_refs (proof n)).0;
      evidence_named = λ n. (evidence_sound i.evidence_refs (proof n)).1;
      temporary = expiry_sound i.authority i.expires_at last;
    }

identity_complete : (i : Intent) → IsValid i → validate_identity i ≡ none
unfolding validate_identity validate_for
identity_complete i v =
    let fits = or_else-none (validate_resource i.resource) _ v.state_fits in
    rw (v.id_given, v.key_given, v.producer_known, v.authority_known, fits.0, v.operation_known)
      fits.1

-- `Validate` accepts what is valid.
validate_complete : (i : Intent) → IsValid i → validate i ≡ none
unfolding validate validate_context
validate_complete i v = both_none (identity_complete i v) (
    both_none (check-none' _ actor_required v.actor_given) (
      both_none (check-none' _ reason_required v.reason_given) (
        both_none (check-none' _ created_at_explicit (created_complete i.created_at v.created)) (
          both_none
            (check-none' _ expires_at_after_creation
              (ends_later_complete i.expires_at i.created_at v.ends_later))
            (both_none
              (check-none' _ snapshot_version_required
                (implied (is_automation_authority i.authority) _ v.snapshot_given))
              (both_none
                (check-none' _ policy_version_required
                  (policy_complete i.authority _ v.policy_given))
                (both_none
                  (evidence_needed_complete i.authority i.evidence_refs (λ n.
                    evidence_complete i.evidence_refs (v.evidence_given n) (v.evidence_named n)))
                  (expiry_complete i.authority i.expires_at v.temporary))))))))

-- `Validate` returns no error exactly for an intent with an ID, an idempotency key, an actor and a
-- reason that are not blank, a known producer, authority and operation, a desired state that fits,
-- a creation time, an expiration, if any, after it, and the snapshot, policy version, evidence and
-- expiration that its authority wants.
pub validate_iff : (i : Intent) → (validate i ≡ none) ↔ IsValid i
validate_iff i = (validate_sound i, validate_complete i)
