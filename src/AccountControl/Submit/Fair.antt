-- ===== src/AccountControl/Submit/Fair.antt =====
-- internal/accountcontrol/service.go: what a caller of `Submit` may rely on in a result, and that
-- every end of a mutation (`finishWithoutWrite`, `markUncertain`, `finalize`) keeps to it.
use sub2api_account_schedule.Base.{
  if◌then◌else◌, ℕ, zero, suc, Text, ◌≡◌, refl, Bool, true, false, not, ◌&&◌, ◌||◌, Option, none,
  some, arith, is_some,
}
use sub2api_account_schedule.Base.Int.{ℤ}
use sub2api_account_schedule.ControlPlane.Types.{
  DesiredState, DesiredStateKind, unset, schedulable_kind, load_factor_kind, group_tier_kind,
}
use sub2api_account_schedule.ControlPlane.Intent.{Intent}
use sub2api_account_schedule.AccountControl.Types.{
  MutationStatus, applied_noop, is_settled, is_applied, BlockReason, uncertain,
}
use sub2api_account_schedule.AccountControl.Records.{
  AccountState, Account, Control, Mutation, Requested, Result, Submission,
}
use sub2api_account_schedule.AccountControl.Projection.{
  ExternalError, account_matches_state, account_matches_intent, state_from_account,
  result_from_mutation,
}
use sub2api_account_schedule.AccountControl.Program.{is_inner, Keeps, matches_requested}
use sub2api_account_schedule.AccountControl.Overrides.{Cause, no_cause}
use sub2api_account_schedule.AccountControl.Journal.{
  is_blocked, error_of_status, finished_mutation, Outcome, requested_of, finish_without_write,
  finished_outcome, mark_uncertain, marked_outcome, finalize, after_finalize,
}

abbrev is_fair_result : Option Result → Bool
is_fair_result none = false
is_fair_result (some r) =
    is_settled r.status
    && (r.idempotent_replay || not (is_applied r.status) || is_some r.verified_after)

-- There is an error, or a result with a status that needs no more work; if this call has applied it,
-- the state that was read back is in it.
abbrev pub is_fair : Outcome → Bool
is_fair o = is_some o.error || is_fair_result o.result

abbrev pub Fair : Outcome → Type 0
Fair o = is_fair o ≡ true

-- By the kind of the state, whether a load factor is set, and the account's load factor.
matches-requested_by_kind :
    (k : DesiredStateKind) (set : Bool) (v : Option ℤ) (d : DesiredState) (b : Bool)
    → account_matches_state b v (record d { kind = k; load_factor_set = set }) ≡ true
    → matches_requested
        (requested_of (record d { kind = k; load_factor_set = set }))
        (some (record { schedulable = b; load_factor = v }))
      ≡ true
unfolding requested_of account_matches_state
matches-requested_by_kind schedulable_kind set v d b h = h
matches-requested_by_kind load_factor_kind true none d b h = cc
matches-requested_by_kind load_factor_kind true (some c) d b h = h
matches-requested_by_kind load_factor_kind false v d b h = h
matches-requested_by_kind unset set v d b h = cc
matches-requested_by_kind group_tier_kind set v d b h = cc

-- An account that matches an intent is as the stored form of the intent wants it.
pub account_matches-requested :
    (a : Account) (i : Intent) (r : Requested)
    → r ≡ requested_of i.desired_state
    → account_matches_intent a i ≡ true
    → matches_requested r (some (state_from_account a)) ≡ true
account_matches-requested a i r e h = rw e (
    matches-requested_by_kind i.desired_state.kind i.desired_state.load_factor_set a.load_factor
      i.desired_state a.schedulable h)

abbrev has_cause : Cause → Bool
has_cause no_cause = false
has_cause _ = true

-- The ends without a write: blocked, with a cause, or settled and not applied.
abbrev pub is_end : MutationStatus → Cause → Bool
is_end status c = not (is_applied status) && (is_blocked status || has_cause c || is_settled status)

error_of_status-Fair :
    (status : MutationStatus) (c : Cause) (r : Result)
    → r.status ≡ status
    → is_end status c ≡ true
    → Fair (record { result = some r; error = error_of_status status r c })
error_of_status-Fair status c r e h = ground arith

finished_outcome-Fair :
    (m : Mutation) (status : MutationStatus) (c : Cause) (e : Option ExternalError)
    → m.status ≡ status
    → is_end status c ≡ true
    → Fair (finished_outcome m status c e)
unfolding result_from_mutation
finished_outcome-Fair m status c (some e) same h = refl
finished_outcome-Fair m status c none same h =
    error_of_status-Fair status c (result_from_mutation m false) same h

end-truthful :
    (status : MutationStatus) (c : Cause) (b : Bool)
    → is_end status c ≡ true
    → not (is_applied status) || b ≡ true
end-truthful status c b h = ground arith

pub finish_without_write-Keeps :
    (n : ℕ) (j : Bool) (s : Submission) (m : Mutation) (status : MutationStatus)
    (reason : BlockReason) (c : Cause)
    → is_end status c ≡ true
    → Keeps is_inner Fair n j (finish_without_write s m status reason c)
unfolding finish_without_write
finish_without_write-Keeps zero j s m status reason c h = (
  refl,
  refl,
  λ at. (
    refl,
    end-truthful status c _ h,
    λ r. finished_outcome-Fair (finished_mutation m status reason c at) status c r refl h,
  ),
)
finish_without_write-Keeps (suc n) j s m status reason c h = (
  refl,
  refl,
  λ at. (
    refl,
    end-truthful status c _ h,
    λ r. finished_outcome-Fair (finished_mutation m status reason c at) status c r refl h,
  ),
)

marked_outcome-Fair :
    (m : Mutation) (c : Text) (cause : Cause) (e : Option ExternalError)
    → Fair (marked_outcome m c cause e)
marked_outcome-Fair m c cause none = refl
marked_outcome-Fair m c cause (some e) = refl

pub mark_uncertain-Keeps :
    (n : ℕ) (j : Bool) (m : Mutation) (c : Text) (cause : Cause)
    → Keeps is_inner Fair n j (mark_uncertain m c cause)
unfolding mark_uncertain
mark_uncertain-Keeps zero j m c cause = (
  refl,
  refl,
  λ at. (
    refl,
    refl,
    λ r.
        marked_outcome-Fair (record m { status = uncertain; last_error_code = c; updated_at = at })
          c cause r,
  ),
)
mark_uncertain-Keeps (suc n) j m c cause = (
  refl,
  refl,
  λ at. (
    refl,
    refl,
    λ r.
        marked_outcome-Fair (record m { status = uncertain; last_error_code = c; updated_at = at })
          c cause r,
  ),
)

after_finalize-Keeps :
    (n : ℕ) (j : Bool) (m : Mutation) (e : Option ExternalError)
    → is_applied m.status ≡ true
    → is_some m.after ≡ true
    → Keeps is_inner Fair n j (after_finalize m e)
unfolding result_from_mutation
after_finalize-Keeps n j m none h k = ground arith
after_finalize-Keeps zero j m (some e) h k = (refl, refl, λ r. refl)
after_finalize-Keeps (suc n) j m (some e) h k = (refl, refl, λ r. refl)

pub or_right : (b c : Bool) → c ≡ true → b || c ≡ true
or_right b c e = grind arith

matches-is_some :
    (r : Requested) (s : Option AccountState) → matches_requested r s ≡ true → is_some s ≡ true
matches-is_some r none e = cc
matches-is_some r (some s) e = refl

noop_status-applied :
    (noop : Bool) (s : MutationStatus)
    → is_applied s ≡ true
    → is_applied (if noop then applied_noop else s) ≡ true
noop_status-applied true s e = refl
noop_status-applied false s e = e

abbrev finalized : Mutation → Bool → ℕ → Mutation
finalized m noop at = record m {
  status = if noop then applied_noop else m.status;
  updated_at = at;
  completed_at = some at;
}

-- A mutation that ends as applied, with the state that was verified.
pub finalize-Keeps :
    (n : ℕ) (j : Bool) (s : Submission) (m : Mutation) (persisted : Bool) (c : Control)
    (a : Account) (noop : Bool)
    → is_applied m.status ≡ true
    → matches_requested m.winning.desired m.after ≡ true
    → Keeps is_inner Fair n j (finalize s m persisted c a noop)
unfolding finalize
finalize-Keeps zero j s m persisted c a noop h k = (
  refl,
  refl,
  λ at. (
    refl,
    or_right _ _ k,
    λ r.
        after_finalize-Keeps zero false (finalized m noop at) r
          (noop_status-applied noop m.status h) (matches-is_some m.winning.desired m.after k),
  ),
)
finalize-Keeps (suc n) j s m persisted c a noop h k = (
  refl,
  refl,
  λ at. (
    refl,
    or_right _ _ k,
    λ r.
        after_finalize-Keeps (suc n) false (finalized m noop at) r
          (noop_status-applied noop m.status h) (matches-is_some m.winning.desired m.after k),
  ),
)
