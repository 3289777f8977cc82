-- ===== src/ControlPlane/Override.antt =====
-- internal/controlplane/override.go: an intent that holds for a while, or until it is revoked.
use sub2api_account_schedule.Base.{
  ℕ, ◌<◌, ◌≤◌, ◌≡◌, ◌≢◌, ap, ◌∙◌, ◌⊎◌, inl, inr, Bool, true, false, ◌||◌, Option, none, some, Text,
  arith, trim, is_blank, if◌then◌else◌, ltb, ◌==◌, is_some, Option-cases, lt_or_le,
}
use sub2api_account_schedule.ControlPlane.Types.{
  Authority, manual_hold, administrator_command, emergency_automation, autonomous_agent,
  optimization, Invalid,
}
use sub2api_account_schedule.ControlPlane.Intent.{Intent, validate, expired, is_none}
use sub2api_account_schedule.ControlPlane.Intent.Valid.{validate_iff}

pub record OverrideRevocation : Type 0 where
  pub actor : Text
  pub reason : Text
  pub revoked_at : ℕ

pub record OverrideLease : Type 0 where
  pub intent : Intent
  pub revocation : Option OverrideRevocation

-- The errors that `ErrInvalidOverride` wraps.
pub data OverrideError : Type 0 where
  invalid_intent : Invalid → OverrideError
  expiration_required authority_not_temporary manual_hold_required : OverrideError
  revocation_incomplete already_revoked : OverrideError

pub data LeaseResult : Type 0 where
  lease : OverrideLease → LeaseResult
  refused : OverrideError → LeaseResult

abbrev pub is_override_authority : Authority → Bool
is_override_authority administrator_command = true
is_override_authority emergency_automation = true
is_override_authority autonomous_agent = true
is_override_authority optimization = true
is_override_authority _ = false

abbrev pub is_manual_hold : Authority → Bool
is_manual_hold manual_hold = true
is_manual_hold _ = false

-- `if err := intent.Validate(); err != nil` before the rest.
abbrev validated : Option Invalid → LeaseResult → LeaseResult
validated (some e) rest = refused (invalid_intent e)
validated none rest = rest

unfoldable pub new_temporary_override : Intent → LeaseResult
new_temporary_override i = validated (validate i) (
    if is_none i.expires_at
    then refused expiration_required
    else if is_override_authority i.authority
    then lease (record { intent = i; revocation = none })
    else refused authority_not_temporary)

unfoldable pub new_manual_hold : Intent → LeaseResult
new_manual_hold i = validated (validate i) (
    if is_manual_hold i.authority
    then lease (record { intent = i; revocation = none })
    else refused manual_hold_required)

unfoldable pub revoke : OverrideLease → ℕ → Text → Text → LeaseResult
revoke l at actor reason = validated (validate l.intent) (
    if is_blank actor || is_blank reason || at == 0 || ltb at l.intent.created_at
    then refused revocation_incomplete
    else if is_some l.revocation
    then refused already_revoked
    else lease (record {
      intent = l.intent;
      revocation = some (record { actor = trim actor; reason = trim reason; revoked_at = at });
    }))

-- `l.revocation == nil || now.Before(l.revocation.RevokedAt)`
abbrev pub before_revocation : Option OverrideRevocation → ℕ → Bool
before_revocation none now = true
before_revocation (some r) now = ltb now r.revoked_at

unfoldable pub active : OverrideLease → ℕ → Bool
active l now =
    if is_some (validate l.intent) || expired l.intent now
    then false
    else before_revocation l.revocation now

temporary_override_inversion :
    (i : Intent) (l : OverrideLease)
    → new_temporary_override i ≡ lease l
    → (validate i ≡ none) × (is_none i.expires_at ≡ false) × (l.intent ≡ i)
unfolding new_temporary_override
temporary_override_inversion i l h = ground arith

active-late :
    (l : OverrideLease) (t now : ℕ) → l.intent.expires_at ≡ some t → t ≤ now → active l now ≡ false
unfolding active
active-late l t now e late = ground arith

-- A temporary override that is granted can always end: it has an expiration after its creation, and
-- from that time on it is not active.
pub temporary_override_ends :
    (i : Intent) (l : OverrideLease) (now : ℕ)
    → new_temporary_override i ≡ lease l
    → (t : ℕ) × (i.expires_at ≡ some t) × (i.created_at < t) × ((now < t) ⊎ (active l now ≡ false))
temporary_override_ends i l now h =
    let (valid, ending, same) = temporary_override_inversion i l h in
    elim (Option-cases i.expires_at) [
      | inl e ↦ absurd (never i.expires_at e ending)
      | inr (t, e) ↦ (
        t,
        e,
        ((validate_iff i).0 valid).ends_later t e,
        ended t (ap (λ j. j.expires_at) same ∙ e),
      )
    ]
  where
    never : (o : Option ℕ) → o ≡ none → is_none o ≡ false → ⊥
    never o e f = ground arith

    ended : (t : ℕ) → l.intent.expires_at ≡ some t → (now < t) ⊎ (active l now ≡ false)
    ended t e = elim (lt_or_le now t) [
      | inl before ↦ inl before
      | inr late ↦ inr (active-late l t now e late)
    ]

-- The revocation of a lease, as far as its time.
abbrev revoked_time : Option OverrideRevocation → Option ℕ
revoked_time none = none
revoked_time (some v) = some v.revoked_at

revoke_inversion :
    (l : OverrideLease) (at : ℕ) (actor reason : Text) (r : OverrideLease)
    → revoke l at actor reason ≡ lease r
    → (r.intent ≡ l.intent) × (revoked_time r.revocation ≡ some at)
unfolding revoke
revoke_inversion l at actor reason r h = ground arith

active-before_revoke :
    (l r : OverrideLease) (at now : ℕ)
    → l.revocation ≡ none
    → r.intent ≡ l.intent
    → revoked_time r.revocation ≡ some at
    → now < at
    → active r now ≡ active l now
unfolding active
active-before_revoke l r at now fresh same done before = ground arith

active-after_revoke :
    (r : OverrideLease) (at now : ℕ)
    → revoked_time r.revocation ≡ some at
    → at ≤ now
    → active r now ≡ false
unfolding active
active-after_revoke r at now done late = ground arith

revoke_again :
    (r : OverrideLease) (later : ℕ) (a b : Text) (s : OverrideLease) (at : ℕ)
    → revoked_time r.revocation ≡ some at
    → revoke r later a b ≢ lease s
unfolding revoke
revoke_again r later a b s at done h = ground arith

-- Revoking ends an override and nothing else: before the time of the revocation it is as active as
-- it was, from then on it is inactive, and it cannot be revoked again.
pub revoke_ends :
    (l : OverrideLease) (at : ℕ) (actor reason : Text) (r : OverrideLease)
    → l.revocation ≡ none
    → revoke l at actor reason ≡ lease r
    → (now later : ℕ) (again why : Text) (s : OverrideLease)
    → (((now < at) × (active r now ≡ active l now)) ⊎ ((at ≤ now) × (active r now ≡ false)))
      × (revoke r later again why ≢ lease s)
revoke_ends l at actor reason r fresh h now later again why s =
    let done = revoke_inversion l at actor reason r h in
    (
      elim (lt_or_le now at) [
        | inl before ↦ inl (before, active-before_revoke l r at now fresh done.0 done.1 before)
        | inr late ↦ inr (late, active-after_revoke r at now done.1 late)
      ],
      λ k. revoke_again r later again why s at done.1 k,
    )
