-- ===== src/AccountControl/Decision.antt =====
-- internal/accountcontrol/service.go: the candidates of a submission, and which of them wins.
pub mod Justified
use sub2api_account_schedule.Base.{
  ℕ, Bool, true, false, Option, none, some, List, [], ◌∷◌, ◌++◌, Text, text_eq, if◌then◌else◌,
  is_blank, trim, byte_len, ltb,
}
use sub2api_account_schedule.ControlPlane.Types.{
  Invalid, Operation, set_account_schedulable, set_account_load_factor, is_account, same_key,
}
use sub2api_account_schedule.ControlPlane.Intent.{Intent, validate, conflict_key}
use sub2api_account_schedule.ControlPlane.Arbiter.{
  arbitrate, ArbitrationResult, CandidateOutcome, ReasonCode, expired_reason,
}
use sub2api_account_schedule.AccountControl.Types.{
  MutationStatus, prepared, superseded, expired, OverrideKind, unset_kind,
}
use sub2api_account_schedule.AccountControl.Records.{Override, Submission}
use sub2api_account_schedule.AccountControl.Program.{Competitor}
use sub2api_account_schedule.AccountControl.Overrides.{
  Go, ServiceError, command_id_required, command_id_too_long, not_account_resource,
  unsupported_operation, invalid_intent, load_override, Checked, good, bad, override_intent,
  override_kind_for_submission,
}

-- The map from an intent's ID to the kind of its override: the entry written last counts.
abbrev pub Kinds : Type 0
Kinds = List (Text × OverrideKind)

unfoldable pub kind_of : Text → Kinds → OverrideKind
kind_of id [] = unset_kind
kind_of id ((k, kind) ∷ l) = elim (text_eq k id) [ true ↦ kind | false ↦ kind_of id l ]

abbrev pub Candidates : Type 0
Candidates = List Intent × Kinds

abbrev add_override : Override → Checked Intent → Candidates → Checked Candidates
add_override o (bad e) c = bad (load_override o.id e)
add_override o (good i) (l, kinds) = good (l ++ (i ∷ []), (i.id, o.kind) ∷ kinds)

abbrev then_overrides : (Candidates → Checked Candidates) → Checked Candidates → Checked Candidates
then_overrides rest (bad e) = bad e
then_overrides rest (good c) = rest c

-- The loop over the stored overrides; the one that the submission revokes is skipped.
unfoldable pub stored_candidates : Text → List Override → Candidates → Checked Candidates
unfolding override_intent
stored_candidates revoked [] c = good c
stored_candidates revoked (o ∷ l) c = elim (text_eq o.id revoked) [
  | true ↦ stored_candidates revoked l c
  | false ↦ then_overrides (stored_candidates revoked l) (add_override o (override_intent o) c)
]

-- The kind of the submission, if it is to persist.
unfoldable pub submitted_kind : Submission → Candidates → Candidates
unfolding override_kind_for_submission
submitted_kind s (l, kinds) =
    if s.persist_override
    then (l, (s.intent.id, override_kind_for_submission s) ∷ kinds)
    else (l, kinds)

-- The loop over the competing candidates of the queue.
unfoldable pub queued_candidates : List Competitor → Candidates → Candidates
queued_candidates [] c = c
queued_candidates (q ∷ l) (intents, kinds) =
    queued_candidates l (intents ++ (q.intent ∷ []), (q.intent.id, q.kind) ∷ kinds)

-- The submitted intent comes last.
unfoldable pub all_candidates : Submission → List Competitor → Candidates → Candidates
unfolding submitted_kind queued_candidates
all_candidates s queued c =
    let (intents, kinds) = queued_candidates queued (submitted_kind s c) in
    (intents ++ (s.intent ∷ []), kinds)

abbrev pub Decision : Type 0
Decision = Option Intent × MutationStatus

abbrev pub is_expired_reason : ReasonCode → Bool
is_expired_reason expired_reason = true
is_expired_reason _ = false

-- Whether the submitted intent is among the ignored as expired.
unfoldable pub ignored_as_expired : Text → List CandidateOutcome → Bool
ignored_as_expired id [] = false
ignored_as_expired id (o ∷ l) = elim (text_eq o.intent.id id) [
  | true ↦ elim (is_expired_reason o.reason_code) [ true ↦ true | false ↦ ignored_as_expired id l ]
  | false ↦ ignored_as_expired id l
]

abbrev pub decide_winner : Option Intent → Bool → Text → Decision → Decision
decide_winner (some w) late id rest =
    if text_eq w.id id then (some w, prepared) else (some w, superseded)
decide_winner none true id rest = (none, expired)
decide_winner none false id rest = rest

-- The loop over the results of the arbitration.
unfoldable pub decide_from : Intent → List ArbitrationResult → Decision
unfolding ignored_as_expired
decide_from submitted [] = (none, superseded)
decide_from submitted (r ∷ l) = elim (same_key r.conflict_key (conflict_key submitted)) [
  | true ↦
      decide_winner r.winner (ignored_as_expired submitted.id r.ignored) submitted.id
        (decide_from submitted l)
  | false ↦ decide_from submitted l
]

unfoldable pub submission_decision : Go → ℕ → List Intent → Intent → Decision
unfolding decide_from
submission_decision go now candidates submitted =
    decide_from submitted (arbitrate go.is_print now candidates)

unfoldable pub validate_command_id : Text → Option ServiceError
validate_command_id s =
    if is_blank s
    then some command_id_required
    else if ltb 256 (byte_len (trim s))
    then some command_id_too_long
    else none

abbrev is_account_operation : Operation → Bool
is_account_operation set_account_schedulable = true
is_account_operation set_account_load_factor = true
is_account_operation _ = false

abbrev checked_account_intent : Option Invalid → Intent → Option ServiceError
checked_account_intent (some e) i = some (invalid_intent e)
checked_account_intent none i =
    if is_account i.resource.kind
    then (if is_account_operation i.operation then none else some unsupported_operation)
    else some not_account_resource

unfoldable pub validate_account_intent : Intent → Option ServiceError
validate_account_intent i = checked_account_intent (validate i) i
