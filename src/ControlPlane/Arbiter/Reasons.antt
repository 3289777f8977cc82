-- ===== src/ControlPlane/Arbiter/Reasons.antt =====
-- internal/controlplane/arbiter.go: what makes an intent a candidate, and what a reason for ignoring
-- one says of it.
use mathlib.Core.List.{Memᴰ}
use sub2api_account_schedule.Base.{
  ℕ, ◌≡◌, refl, Bool, true, false, none, List, [], ◌∷◌, All, is_some, ◌≢◌, inl, inr, &&-true, all,
  arith, Bool-cases,
}
use sub2api_account_schedule.Base.SortLaws.{IsStrict}
use sub2api_account_schedule.Base.TextLaws.{
  text_lt-asymm, text_lt-negtrans, text_lt-total, text_eq→eq, text_eq_self, text_lt_irrefl,
}
use sub2api_account_schedule.ControlPlane.Canonical.{semantic_signature, canonical_intent_key}
use sub2api_account_schedule.ControlPlane.Types.{ConflictKey}
use sub2api_account_schedule.ControlPlane.Intent.{Intent, validate, conflict_key, expired}
use sub2api_account_schedule.ControlPlane.Arbiter.{
  ReasonCode, expired_reason, invalid, duplicate, idempotency_conflict, CandidateOutcome, id_lt,
}

-- Valid and not expired.
abbrev pub IsLive : ℕ → Intent → Type 0
IsLive now i = (validate i ≡ none) × (expired i now ≡ false)

-- Live, and one of the intents that were given.
abbrev pub IsGiven : List Intent → ℕ → Intent → Type 0
IsGiven l now i = IsLive now i × Memᴰ i l

-- What a reason for ignoring an intent says of it: a duplicate has another live intent with its
-- idempotency key and its meaning, and does not come before it; under a conflict two live intents
-- with its idempotency key differ in meaning.
abbrev pub Reasoned : (ℕ → Bool) → List Intent → ReasonCode → ℕ → Intent → Type 0
Reasoned p l invalid now i = is_some (validate i) ≡ true
Reasoned p l expired_reason now i = (validate i ≡ none) × (expired i now ≡ true)
Reasoned p l duplicate now i =
    IsLive now i
    × (w : Intent) × IsGiven l now w
    × (w.idempotency_key ≡ i.idempotency_key)
    × (semantic_signature p i ≡ semantic_signature p w)
    × (id_lt p i w ≡ false)
Reasoned p l idempotency_conflict now i =
    IsLive now i
    × (v w : Intent) × IsGiven l now v
    × IsGiven l now w
    × (v.idempotency_key ≡ i.idempotency_key)
    × (w.idempotency_key ≡ i.idempotency_key)
    × (semantic_signature p v ≢ semantic_signature p w)
Reasoned p l _ now i = ⊥

abbrev pub IsCandidate : ℕ → ConflictKey → Intent → Type 0
IsCandidate now k i = IsLive now i × (conflict_key i ≡ k)

-- No live intent with the same idempotency key has another meaning.
abbrev pub IsAgreed : (ℕ → Bool) → List Intent → ℕ → Intent → Type 0
IsAgreed p l now i =
    (j : Intent)
    → Memᴰ j l
    → IsLive now j
    → j.idempotency_key ≡ i.idempotency_key
    → semantic_signature p j ≡ semantic_signature p i

abbrev pub IsChosen : (ℕ → Bool) → List Intent → ℕ → ConflictKey → Intent → Type 0
IsChosen p l now k i = IsCandidate now k i × IsAgreed p l now i

abbrev pub IsIgnored : (ℕ → Bool) → List Intent → ℕ → ConflictKey → CandidateOutcome → Type 0
IsIgnored p l now k o = Reasoned p l o.reason_code now o.intent × (conflict_key o.intent ≡ k)

id_lt-asymm : (p : ℕ → Bool) (a b : Intent) → id_lt p a b ≡ true → id_lt p b a ≡ false
id_lt-asymm p a b h = ground (
  arith,
  text_lt-asymm a.id b.id,
  text_lt-asymm (canonical_intent_key p a) (canonical_intent_key p b),
  text_eq→eq a.id b.id,
  text_eq→eq b.id a.id,
  text_eq_self a.id,
)

id_lt-negtrans :
    (p : ℕ → Bool) (a b c : Intent)
    → id_lt p a b ≡ false
    → id_lt p b c ≡ false
    → id_lt p a c ≡ false
id_lt-negtrans p a b c h k = ground (
  arith,
  text_lt-negtrans a.id b.id c.id,
  text_lt-negtrans (canonical_intent_key p a) (canonical_intent_key p b) (canonical_intent_key p c),
  text_eq→eq a.id b.id,
  text_eq→eq b.id c.id,
  text_eq→eq a.id c.id,
  text_lt-total a.id b.id,
  text_lt-total b.id c.id,
  text_eq_self a.id,
  text_eq_self b.id,
  text_lt_irrefl a.id,
)

pub id_lt-IsStrict : (p : ℕ → Bool) → IsStrict (id_lt p)
id_lt-IsStrict p = record { asymm = id_lt-asymm p; negtrans = id_lt-negtrans p }

-- What a test on all elements says, when it holds and when it does not.
pub all-All : (t : Intent → Bool) (l : List Intent) → all t l ≡ true → All (λ j. t j ≡ true) l
all-All t [] h = tt
all-All t (i ∷ l) h = let both = &&-true (t i) (all t l) h in (both.0, all-All t l both.1)

pub all-witness :
    (t : Intent → Bool) (l : List Intent)
    → all t l ≡ false
    → (j : Intent) × Memᴰ j l × (t j ≡ false)
all-witness t [] h = cc
all-witness t (i ∷ l) h = elim (Bool-cases (t i)) [
  | inl e ↦ let (j, m, f) = all-witness t l (ground (arith, e, h)) in (j, Memᴰ.tail m, f)
  | inr e ↦ (i, Memᴰ.head refl, e)
]

pub All-forall :
    {A : Type 0} {B : Type 0} (P : A → B → Type 0) (l : List B)
    → ((a : A) → All (P a) l)
    → All (λ b. (a : A) → P a b) l
All-forall P [] h = tt
All-forall P (b ∷ l) h = (λ a. (h a).0, All-forall P l (λ a. (h a).1))
