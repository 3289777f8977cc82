-- ===== src/ControlPlane/Arbiter.antt =====
-- internal/controlplane/arbiter.go: `Arbitrate`. A Go map is an association list whose keys differ;
-- the loops over a map end in a sort, so the order of the list is not seen.
pub mod Conservation
pub mod Order
pub mod Keys
pub mod Groups
pub mod Reasons
pub mod Settled
pub mod Winner
use sub2api_account_schedule.Base.{
  ℕ, Bool, true, false, not, ◌&&◌, Option, none, some, List, [], ◌∷◌, ◌++◌, map, Text, codes,
  text_eq, text_lt, if◌then◌else◌, ltb, ◌==◌, all, sort,
}
use sub2api_account_schedule.ControlPlane.Types.{
  Authority, ConflictKey, Invalid, authority_rank, same_key,
}
use sub2api_account_schedule.ControlPlane.Intent.{Intent, validate, conflict_key, expired}
use sub2api_account_schedule.ControlPlane.Canonical.{
  semantic_signature, canonical_intent_key, conflict_key_string,
}

pub data ReasonCode : Type 0 where
  no_reason selected expired_reason invalid lower_authority older_same_authority : ReasonCode
  duplicate idempotency_conflict deterministic_tie_break : ReasonCode

-- The string of a reason code, which `sortOutcomes` orders by.
abbrev pub reason_string : ReasonCode → Text
reason_string no_reason = []
reason_string selected = codes "selected"
reason_string expired_reason = codes "expired"
reason_string invalid = codes "invalid"
reason_string lower_authority = codes "lower_authority"
reason_string older_same_authority = codes "older_same_authority"
reason_string duplicate = codes "duplicate"
reason_string idempotency_conflict = codes "idempotency_conflict"
reason_string deterministic_tie_break = codes "deterministic_tie_break"

-- What `Detail` says: a fixed text, which the reason code determines, or a validation error.
pub data Detail : Type 0 where
  fixed : Detail
  validation : Invalid → Detail

pub record CandidateOutcome : Type 0 where
  pub intent : Intent
  pub reason_code : ReasonCode
  pub detail : Detail

pub record ArbitrationResult : Type 0 where
  pub conflict_key : ConflictKey
  pub winner : Option Intent
  pub superseded : List CandidateOutcome
  pub ignored : List CandidateOutcome
  pub reason_code : ReasonCode

pub record Bucket : Type 0 where
  pub key : ConflictKey
  pub candidates : List Intent
  pub ignored : List CandidateOutcome

abbrev pub empty_bucket : ConflictKey → Bucket
empty_bucket key = record { key = key; candidates = []; ignored = [] }

-- `ensureBucket`, and what is then done to the bucket: the bucket of a key is changed, or a new one.
unfoldable pub update_bucket : ConflictKey → (Bucket → Bucket) → List Bucket → List Bucket
update_bucket key f [] = f (empty_bucket key) ∷ []
update_bucket key f (b ∷ l) = elim (same_key b.key key) [
  | true ↦ f b ∷ l
  | false ↦ b ∷ update_bucket key f l
]

abbrev pub add_ignored : CandidateOutcome → Bucket → Bucket
add_ignored o b = record b { ignored = b.ignored ++ (o ∷ []) }

abbrev pub add_candidate : Intent → Bucket → Bucket
add_candidate i b = record b { candidates = b.candidates ++ (i ∷ []) }

-- `activeByIdempotency`: the intents of each idempotency key.
abbrev pub Groups : Type 0
Groups = List (Text × List Intent)

unfoldable pub append_active : Text → Intent → Groups → Groups
append_active key i [] = (key, i ∷ []) ∷ []
append_active key i ((k, l) ∷ groups) = elim (text_eq k key) [
  | true ↦ (k, l ++ (i ∷ [])) ∷ groups
  | false ↦ (k, l) ∷ append_active key i groups
]

abbrev pub outcome : Intent → ReasonCode → Detail → CandidateOutcome
outcome i r d = record { intent = i; reason_code = r; detail = d }

abbrev pub ignore : Intent → ReasonCode → Detail → List Bucket → List Bucket
ignore i r d = update_bucket (conflict_key i) (add_ignored (outcome i r d))

-- One round of the loop that drops invalid and expired intents.
abbrev pub screen_with :
    Option Invalid → Bool → Intent → List Bucket × Groups → List Bucket × Groups
screen_with (some e) late i (buckets, groups) = (ignore i invalid (validation e) buckets, groups)
screen_with none true i (buckets, groups) = (ignore i expired_reason fixed buckets, groups)
screen_with none false i (buckets, groups) =
    (update_bucket (conflict_key i) (λ b. b) buckets, append_active i.idempotency_key i groups)

unfoldable pub screen : ℕ → List Intent → List Bucket × Groups → List Bucket × Groups
screen now [] s = s
screen now (i ∷ l) s = screen now l (screen_with (validate i) (expired i now) i s)

unfoldable pub ignore_all : ReasonCode → List Intent → List Bucket → List Bucket
ignore_all r [] buckets = buckets
ignore_all r (i ∷ l) buckets = ignore_all r l (ignore i r fixed buckets)

-- `!left.CreatedAt.Equal(…)`, `After`, and so on, over the two ranks.
unfoldable pub superseded_reason : Intent → Intent → ReasonCode
superseded_reason winner loser =
    if not ((authority_rank winner.authority).0 == (authority_rank loser.authority).0)
    then lower_authority
    else if not (winner.created_at == loser.created_at)
    then older_same_authority
    else deterministic_tie_break

module _ (is_print : ℕ → Bool) where
  abbrev pub key_lt : Intent → Intent → Bool
  key_lt i j = text_lt (canonical_intent_key is_print i) (canonical_intent_key is_print j)

  abbrev pub id_lt : Intent → Intent → Bool
  id_lt i j = if not (text_eq i.id j.id) then text_lt i.id j.id else key_lt i j

  unfoldable pub same_idempotent_semantics : List Intent → Bool
  same_idempotent_semantics [] = true
  same_idempotent_semantics (i ∷ l) =
      all (λ j. text_eq (semantic_signature is_print j) (semantic_signature is_print i)) l

  -- What is done with the sorted intents of one idempotency key.
  abbrev pub settle_sorted : Bool → List Intent → List Bucket → List Bucket
  settle_sorted true [] buckets = buckets
  settle_sorted true (i ∷ l) buckets =
      ignore_all duplicate l (update_bucket (conflict_key i) (add_candidate i) buckets)
  settle_sorted false l buckets = ignore_all idempotency_conflict l buckets

  unfoldable pub settle : List Intent → List Bucket → List Bucket
  unfolding ignore_all same_idempotent_semantics
  settle l buckets =
      let sorted = sort id_lt l in settle_sorted (same_idempotent_semantics sorted) sorted buckets

  -- The loop over the idempotency keys.
  unfoldable pub settle_groups : Groups → List Bucket → List Bucket
  unfolding settle
  settle_groups [] buckets = buckets
  settle_groups ((k, l) ∷ groups) buckets = settle_groups groups (settle l buckets)

  unfoldable pub candidate_wins : Intent → Intent → Bool
  candidate_wins left right =
      let left_rank = (authority_rank left.authority).0 in
      let right_rank = (authority_rank right.authority).0 in
      if not (left_rank == right_rank)
      then ltb left_rank right_rank
      else if not (left.created_at == right.created_at)
      then ltb right.created_at left.created_at
      else if not (text_eq left.id right.id)
      then text_lt left.id right.id
      else key_lt left right

  abbrev pub outcome_lt : CandidateOutcome → CandidateOutcome → Bool
  outcome_lt o p =
      if not (text_eq (reason_string o.reason_code) (reason_string p.reason_code))
      then text_lt (reason_string o.reason_code) (reason_string p.reason_code)
      else key_lt o.intent p.intent

  unfoldable pub sort_outcomes : List CandidateOutcome → List CandidateOutcome
  sort_outcomes = sort outcome_lt

  abbrev pub supersede : Intent → Intent → CandidateOutcome
  supersede winner loser = outcome loser (superseded_reason winner loser) fixed

  abbrev pub first_reason : List CandidateOutcome → ReasonCode
  first_reason [] = no_reason
  first_reason (o ∷ l) = o.reason_code

  -- The result of a bucket, from its sorted candidates and ignored outcomes.
  abbrev pub result_of : ConflictKey → List Intent → List CandidateOutcome → ArbitrationResult
  result_of key [] ignored = record {
    conflict_key = key;
    winner = none;
    superseded = [];
    ignored = ignored;
    reason_code = first_reason ignored;
  }
  result_of key (winner ∷ losers) ignored = record {
    conflict_key = key;
    winner = some winner;
    superseded = sort_outcomes (map (supersede winner) losers);
    ignored = ignored;
    reason_code = selected;
  }

  unfoldable pub decide_bucket : Bucket → ArbitrationResult
  unfolding sort_outcomes superseded_reason
  decide_bucket b = result_of b.key (sort candidate_wins b.candidates) (sort_outcomes b.ignored)

  abbrev pub group_lt : Text × List Intent → Text × List Intent → Bool
  group_lt g h = text_lt g.0 h.0

  abbrev pub result_lt : ArbitrationResult → ArbitrationResult → Bool
  result_lt r t =
      text_lt (conflict_key_string is_print r.conflict_key)
        (conflict_key_string is_print t.conflict_key)

  -- The buckets after the first loop, and after both.
  unfoldable pub screened : ℕ → List Intent → List Bucket × Groups
  unfolding screen
  screened now intents = screen now (sort key_lt intents) ([], [])

  unfoldable pub settled : ℕ → List Intent → List Bucket
  unfolding settle_groups screened
  settled now intents =
      let (buckets, groups) = screened now intents in settle_groups (sort group_lt groups) buckets

  unfoldable pub arbitrate : ℕ → List Intent → List ArbitrationResult
  unfolding settled decide_bucket candidate_wins
  arbitrate now intents = sort result_lt (map decide_bucket (settled now intents))
