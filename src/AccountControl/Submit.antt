-- ===== src/AccountControl/Submit.antt =====
-- internal/accountcontrol/service.go: `Submit` and `submitLocked` up to the journal entry.
pub mod Fair
pub mod Attempts
pub mod Quiet
pub mod Watched
pub mod Executed
pub mod Observed
pub mod Carried
pub mod Discipline
pub mod Balance
use sub2api_account_schedule.Base.{
  ℕ, Bool, true, false, Option, none, some, List, [], ◌∷◌, ◌++◌, Text, codes, text_eq, trim_prefix,
  if◌then◌else◌,
}
use sub2api_account_schedule.Base.Int.{ℤ}
use sub2api_account_schedule.ControlPlane.Types.{account_id_of}
use sub2api_account_schedule.ControlPlane.Intent.{Intent}
use sub2api_account_schedule.AccountControl.Types.{
  MutationStatus, applied, applied_noop, blocked, superseded, expired, executing, verifying,
  uncertain, no_block, OverrideKind,
}
use sub2api_account_schedule.AccountControl.Records.{
  Mutation, Override, Result, Submission, CommandContext,
}
use sub2api_account_schedule.AccountControl.Projection.{ExternalError, result_from_mutation}
use sub2api_account_schedule.AccountControl.Program.{
  Program, ret, call, ◌>>=◌, Answer, value, failure, Competitor, now, new_id, competing,
  find_mutation, list_overrides, prepare_mutation, enqueue, acquire_slot, release_slot,
  finish_candidate, acquire_lock, release_lock,
}
use sub2api_account_schedule.AccountControl.Overrides.{
  Go, Checked, good, bad, ServiceError, external, idempotency_conflict_error, blocked_error,
  mutation_state_error, Cause, no_cause, override_from_intent, override_kind_for_submission,
}
use sub2api_account_schedule.AccountControl.Decision.{
  Candidates, Decision, kind_of, stored_candidates, all_candidates, submission_decision,
  validate_command_id, validate_account_intent,
}
use sub2api_account_schedule.AccountControl.Journal.{
  Outcome, fail, request_key, request_signature, new_mutation, finish_without_write,
}
use sub2api_account_schedule.AccountControl.Carry.{carry_out}

-- `replayMutation`
abbrev pub replay_error : MutationStatus → Result → Option ServiceError
replay_error applied r = none
replay_error applied_noop r = none
replay_error superseded r = none
replay_error expired r = none
replay_error blocked r = some (blocked_error r)
replay_error _ r = some (mutation_state_error r no_cause)

unfoldable pub replay_mutation : Mutation → Outcome
unfolding result_from_mutation
replay_mutation m =
    let r = result_from_mutation m true in
    record { result = some r; error = replay_error m.status r }

-- An entry that the key already has: the same request again, or another one.
unfoldable pub replay_or_conflict : Text → Text → Mutation → Outcome
unfolding replay_mutation
replay_or_conflict key signature m =
    if text_eq m.semantic_signature signature
    then replay_mutation m
    else fail (idempotency_conflict_error key)

abbrev pub is_without_write : MutationStatus → Bool
is_without_write expired = true
is_without_write superseded = true
is_without_write _ = false

abbrev pub winning_intent : Option Intent → Intent → Intent
winning_intent none submitted = submitted
winning_intent (some w) submitted = w

-- What `submitLocked` has when it writes the journal entry.
pub record Plan : Type 0 where
  pub submission : Submission
  pub mutation : Mutation
  pub winner : Intent
  pub kind : OverrideKind
  pub status : MutationStatus
  pub at : ℕ

abbrev pub after_prepare : Plan → Bool → Answer (Mutation × Bool) → Program Outcome
after_prepare p persisted (failure e) = ret (fail (external e))
after_prepare p persisted (value (stored, true)) =
    ret (replay_or_conflict p.mutation.idempotency_key p.mutation.semantic_signature stored)
after_prepare p persisted (value (stored, false)) =
    if is_without_write p.status
    then finish_without_write p.submission p.mutation p.status no_block no_cause
    else carry_out p.submission p.mutation persisted p.winner p.kind p.at

abbrev pub stored_override : Override → Mutation → Submission → Override
stored_override o m s = record o { mutation_id = m.id; kind = override_kind_for_submission s }

abbrev pub with_override : Plan → Checked Override → Program Outcome
with_override p (bad e) = ret (fail e)
with_override p (good o) =
    let m = record (p.mutation) { override_id = o.id } in
    call (prepare_mutation m (some (stored_override o m p.submission)))
      (after_prepare (record p { mutation = m }) true)

abbrev pub after_override_id : Go → Plan → Answer Text → Program Outcome
after_override_id go p (failure e) = ret (fail (external e))
after_override_id go p (value id) = with_override p (
    override_from_intent go (codes "override-" ++ trim_prefix id (codes "cmd-"))
      p.submission.command_id p.submission.intent)

abbrev pub prepare : Go → Plan → Program Outcome
prepare go p =
    if p.submission.persist_override
    then call new_id (after_override_id go p)
    else call (prepare_mutation p.mutation none) (after_prepare p false)

abbrev pub with_mutation :
    Go
    → CommandContext
    → Submission
    → Intent
    → OverrideKind
    → MutationStatus
    → ℕ
    → Checked Mutation
    → Program Outcome
with_mutation go ctx s winner kind status at (bad e) = ret (fail e)
with_mutation go ctx s winner kind status at (good m) = prepare go (record {
  submission = s;
  mutation = record m { run_id = ctx.run_id; goal_id = ctx.goal_id; step_id = ctx.step_id };
  winner = winner;
  kind = kind;
  status = status;
  at = at;
})

abbrev pub after_id :
    Go → CommandContext → Submission → Candidates → ℕ → Answer Text → Program Outcome
after_id go ctx s c at (failure e) = ret (fail (external e))
after_id go ctx s (l, kinds) at (value id) =
    let d = submission_decision go at l s.intent in
    let winner = winning_intent d.0 s.intent in
    let kind = kind_of winner.id kinds in
    with_mutation go ctx s winner kind d.1 at
      (new_mutation go (codes "mutation-" ++ trim_prefix id (codes "cmd-")) s winner kind at)

abbrev pub after_overrides :
    Go → CommandContext → Submission → ℕ → Checked Candidates → Program Outcome
after_overrides go ctx s at (bad e) = ret (fail e)
after_overrides go ctx s at (good c) =
    call competing (λ queued. call new_id (after_id go ctx s (all_candidates s queued c) at))

abbrev pub after_list :
    Go → CommandContext → Submission → ℕ → Answer (List Override) → Program Outcome
after_list go ctx s at (failure e) = ret (fail (external e))
after_list go ctx s at (value l) =
    after_overrides go ctx s at (stored_candidates s.revoke_override_id l ([], []))

abbrev pub after_find :
    Go → CommandContext → Submission → ℕ → Text → Answer (Option Mutation) → Program Outcome
after_find go ctx s at signature (failure e) = ret (fail (external e))
after_find go ctx s at signature (value (some m)) =
    ret (replay_or_conflict (request_key s) signature m)
after_find go ctx s at signature (value none) =
    call (list_overrides (account_id_of s.intent.resource).0 s.intent.operation at)
      (after_list go ctx s at)

abbrev pub with_signature : Go → CommandContext → Submission → ℕ → Checked Text → Program Outcome
with_signature go ctx s at (bad e) = ret (fail e)
with_signature go ctx s at (good signature) =
    call (find_mutation (request_key s)) (after_find go ctx s at signature)

unfoldable pub submit_locked : Go → CommandContext → Submission → Program Outcome
submit_locked go ctx s = call now (λ at. with_signature go ctx s at (request_signature go s))

-- `retainQueuedCandidate`, false for the zero result.
abbrev pub retain_status : MutationStatus → Bool
retain_status applied = true
retain_status applied_noop = true
retain_status executing = true
retain_status verifying = true
retain_status uncertain = true
retain_status _ = false

abbrev pub retain_queued_candidate : Option Result → Bool
retain_queued_candidate none = false
retain_queued_candidate (some r) = retain_status r.status

-- The deferred calls, last first.
abbrev pub leave : ℤ → Outcome → Program Outcome
leave account o =
    call (finish_candidate (retain_queued_candidate o.result))
      (λ _. call (release_lock account) (λ _. ret o))

abbrev pub with_slot : Go → CommandContext → Submission → ℤ → Option ExternalError → Program Outcome
with_slot go ctx s account (some e) = leave account (fail (external e))
with_slot go ctx s account none =
    submit_locked go ctx s >>= λ o. call release_slot (λ _. leave account o)

abbrev pub with_lock : Go → CommandContext → Submission → ℤ → Option ExternalError → Program Outcome
with_lock go ctx s account (some e) = call (finish_candidate false) (λ _. ret (fail (external e)))
with_lock go ctx s account none = call acquire_slot (with_slot go ctx s account)

abbrev pub submit_checked :
    Go → CommandContext → Submission → Option ServiceError → Option ServiceError → Program Outcome
submit_checked go ctx s (some e) _ = ret (fail e)
submit_checked go ctx s none (some e) = ret (fail e)
submit_checked go ctx s none none =
    let account = (account_id_of s.intent.resource).0 in
    call enqueue (λ _. call (acquire_lock account) (with_lock go ctx s account))

unfoldable pub submit : Go → CommandContext → Submission → Program Outcome
unfolding submit_locked ◌>>=◌
submit go ctx s =
    submit_checked go ctx s (validate_command_id s.command_id) (validate_account_intent s.intent)
