-- ===== src/AccountControl/Submit/Discipline.antt =====
-- internal/accountcontrol/service.go: what `Submit` keeps to against every environment.
use sub2api_account_schedule.Base.{
  if◌then◌else◌, ℕ, Text, text_eq, [], ◌≡◌, refl, Bool, true, false, Option, none, some, List,
  arith,
}
use sub2api_account_schedule.ControlPlane.Intent.{Intent}
use sub2api_account_schedule.AccountControl.Types.{MutationStatus, no_block, OverrideKind}
use sub2api_account_schedule.AccountControl.Records.{
  Mutation, Submission, Override, Result, CommandContext,
}
use sub2api_account_schedule.AccountControl.Projection.{result_from_mutation}
use sub2api_account_schedule.AccountControl.Program.{
  is_inner, call, Keeps, Answer, value, failure, new_id, prepare_mutation,
}
use sub2api_account_schedule.AccountControl.Overrides.{
  idempotency_conflict_error, Go, Checked, good, bad, no_cause,
}
use sub2api_account_schedule.AccountControl.Decision.{Candidates, stored_candidates, all_candidates}
use sub2api_account_schedule.AccountControl.Journal.{
  fail, request_key, request_signature, finish_without_write,
}
use sub2api_account_schedule.AccountControl.Carry.{carry_out}
use sub2api_account_schedule.AccountControl.Submit.{
  Plan, after_prepare, with_override, after_override_id, prepare, with_mutation, after_id,
  after_overrides, after_list, after_find, with_signature, submit_locked, replay_error,
  replay_or_conflict, replay_mutation, is_without_write,
}
use sub2api_account_schedule.AccountControl.Submit.Carried.{carry_out-Keeps}
use sub2api_account_schedule.AccountControl.Submit.Fair.{Fair, is_end, finish_without_write-Keeps}

replay_error-Fair :
    (m : MutationStatus) (r : Result)
    → r.status ≡ m
    → r.idempotent_replay ≡ true
    → Fair (record { result = some r; error = replay_error m r })
replay_error-Fair m r e f = ground arith

replay_or_conflict-Fair :
    (key signature : Text) (m : Mutation) → Fair (replay_or_conflict key signature m)
unfolding replay_or_conflict replay_mutation result_from_mutation
replay_or_conflict-Fair key signature m = go (text_eq m.semantic_signature signature)
  where
    go : (b : Bool) → Fair (if b then replay_mutation m else fail (idempotency_conflict_error key))
    go true = replay_error-Fair m.status (result_from_mutation m true) refl refl
    go false = refl

without_write-end : (s : MutationStatus) → is_without_write s ≡ true → is_end s no_cause ≡ true
without_write-end s e = ground arith

after_prepare-Keeps :
    (j : Bool) (p : Plan) (persisted : Bool) (r : Answer (Mutation × Bool))
    → Keeps is_inner Fair 2 j (after_prepare p persisted r)
after_prepare-Keeps j p persisted (failure e) = refl
after_prepare-Keeps j p persisted (value (stored, true)) =
    replay_or_conflict-Fair p.mutation.idempotency_key p.mutation.semantic_signature stored
after_prepare-Keeps j p persisted (value (stored, false)) = go (is_without_write p.status) refl
  where
    go :
        (b : Bool)
        → is_without_write p.status ≡ b
        → Keeps is_inner Fair 2 j (
            if b
            then finish_without_write p.submission p.mutation p.status no_block no_cause
            else carry_out p.submission p.mutation persisted p.winner p.kind p.at)
    go true e =
        finish_without_write-Keeps 2 j p.submission p.mutation p.status no_block no_cause
          (without_write-end p.status e)
    go false e = carry_out-Keeps p.submission persisted p.winner p.kind j p.mutation p.at

with_override-Keeps :
    (j : Bool) (p : Plan) (o : Checked Override) → Keeps is_inner Fair 2 j (with_override p o)
with_override-Keeps j p (bad e) = refl
with_override-Keeps j p (good o) = (
  refl,
  refl,
  λ r.
      after_prepare-Keeps false (record p { mutation = record (p.mutation) { override_id = o.id } })
        true r,
)

module _ (go : Go) (ctx : CommandContext) (s : Submission) where
  prepare-Keeps : (j : Bool) (p : Plan) → Keeps is_inner Fair 2 j (prepare go p)
  prepare-Keeps j p = by p.submission.persist_override
    where
      with_id : (r : Answer Text) → Keeps is_inner Fair 2 false (after_override_id go p r)
      with_id (failure e) = refl
      with_id (value id) = with_override-Keeps false p _

      by :
          (b : Bool)
          → Keeps is_inner Fair 2 j (
              if b
              then call new_id (after_override_id go p)
              else call (prepare_mutation p.mutation none) (after_prepare p false))
      by true = (refl, refl, with_id)
      by false = (refl, refl, λ r. after_prepare-Keeps false p false r)

  with_mutation-Keeps :
      (w : Intent) (k : OverrideKind) (status : MutationStatus) (at : ℕ) (m : Checked Mutation)
      → Keeps is_inner Fair 2 false (with_mutation go ctx s w k status at m)
  with_mutation-Keeps w k status at (bad e) = refl
  with_mutation-Keeps w k status at (good m) = prepare-Keeps false _

  after_id-Keeps :
      (c : Candidates) (at : ℕ) (r : Answer Text)
      → Keeps is_inner Fair 2 false (after_id go ctx s c at r)
  after_id-Keeps c at (failure e) = refl
  after_id-Keeps (l, kinds) at (value id) = with_mutation-Keeps _ _ _ at _

  after_list-Keeps :
      (at : ℕ) (r : Answer (List Override)) → Keeps is_inner Fair 2 false (after_list go ctx s at r)
  after_list-Keeps at (failure e) = refl
  after_list-Keeps at (value l) = by (stored_candidates s.revoke_override_id l ([], []))
    where
      by : (c : Checked Candidates) → Keeps is_inner Fair 2 false (after_overrides go ctx s at c)
      by (bad e) = refl
      by (good c) =
          (refl, refl, λ queued. (refl, refl, λ r. after_id-Keeps (all_candidates s queued c) at r))

  with_signature-Keeps :
      (at : ℕ) (c : Checked Text) → Keeps is_inner Fair 2 false (with_signature go ctx s at c)
  with_signature-Keeps at (bad e) = refl
  with_signature-Keeps at (good signature) = (refl, refl, by)
    where
      by :
          (r : Answer (Option Mutation))
          → Keeps is_inner Fair 2 false (after_find go ctx s at signature r)
      by (failure e) = refl
      by (value (some m)) = replay_or_conflict-Fair (request_key s) signature m
      by (value none) = (refl, refl, after_list-Keeps at)

  pub submit_locked-Keeps : (j : Bool) → Keeps is_inner Fair 2 j (submit_locked go ctx s)
  unfolding submit_locked
  submit_locked-Keeps j = (refl, refl, λ at. with_signature-Keeps at (request_signature go s))
