-- ===== src/AccountControl/Submit/Attempts.antt =====
-- internal/accountcontrol/service.go and executor.go: the writes of an attempt, with the reading
-- back, the controlled retry and every way out of them.
use sub2api_account_schedule.Base.{
  if◌then◌else◌, ℕ, suc, Text, ◌≡◌, refl, Bool, true, false, ◌&&◌, Option, none, some, ltb, codes,
}
use sub2api_account_schedule.ControlPlane.Types.{
  Operation, set_account_schedulable, set_account_load_factor,
}
use sub2api_account_schedule.ControlPlane.Intent.{Intent}
use sub2api_account_schedule.AccountControl.Types.{is_executing, executing, failed, no_block}
use sub2api_account_schedule.AccountControl.Records.{Account, Mutation}
use sub2api_account_schedule.AccountControl.Projection.{
  ExternalError, account_matches_intent, same_account_state, ambiguous_write_error,
}
use sub2api_account_schedule.AccountControl.Program.{
  is_inner, Program, call, Keeps, journals, now, update_mutation,
}
use sub2api_account_schedule.AccountControl.Program.Laws.{Keeps-more}
use sub2api_account_schedule.AccountControl.Overrides.{Cause, caused_by, state_mismatch}
use sub2api_account_schedule.AccountControl.Journal.{
  requested_of, finish_without_write, mark_uncertain,
}
use sub2api_account_schedule.AccountControl.Service.{
  Reading, found, missing, unread, read_account, find_account, Attempt, applied_with,
  finalize_applied, settle_reading, after_retry, retry, after_readback, resolve_write_error,
  after_verify, verify, after_write, execute, write_operation, write_error, unsupported_write,
  write,
}
use sub2api_account_schedule.AccountControl.Submit.Fair.{
  Fair, account_matches-requested, finish_without_write-Keeps, mark_uncertain-Keeps, finalize-Keeps,
}

-- The mutation holds what the attempt's winner wants.
abbrev pub Tied : Attempt → Mutation → Type 0
Tied t m = m.winning.desired ≡ requested_of t.winner.desired_state

finalize_applied-Keeps :
    (n : ℕ) (j : Bool) (t : Attempt) (m : Mutation) (a : Account)
    → Tied t m
    → account_matches_intent a t.winner ≡ true
    → Keeps is_inner Fair n j (finalize_applied t m a)
finalize_applied-Keeps n j t m a tied e =
    finalize-Keeps n j t.submission (applied_with m a) t.persisted t.control a false refl
      (account_matches-requested a t.winner m.winning.desired tied e)

settle_reading-Keeps :
    (n : ℕ) (j : Bool) (t : Attempt) (m : Mutation) (r : Reading) (c : Text)
    (cause : Reading → Cause)
    → Tied t m
    → Keeps is_inner Fair n j (settle_reading t m r c cause)
settle_reading-Keeps n j t m (found a) c cause tied = go (account_matches_intent a t.winner) refl
  where
    go :
        (b : Bool)
        → account_matches_intent a t.winner ≡ b
        → Keeps is_inner Fair n j
            (if b then finalize_applied t m a else mark_uncertain m c (cause (found a)))
    go true e = finalize_applied-Keeps n j t m a tied e
    go false e = mark_uncertain-Keeps n j m c (cause (found a))
settle_reading-Keeps n j t m missing c cause tied = mark_uncertain-Keeps n j m c (cause missing)
settle_reading-Keeps n j t m (unread e) c cause tied =
    mark_uncertain-Keeps n j m c (cause (unread e))

after_retry-Keeps :
    (t : Attempt) (m : Mutation) (j : Bool) (e : Option ExternalError)
    → Tied t m
    → Keeps is_inner Fair 0 j (after_retry t m e)
after_retry-Keeps t m j none tied =
    (refl, refl, λ r. settle_reading-Keeps 0 false t m (find_account m.account_id r) _ _ tied)
after_retry-Keeps t m j (some e) tied =
    (refl, refl, λ r. settle_reading-Keeps 0 false t m (find_account m.account_id r) _ _ tied)

-- A write behind its journal entry, with what follows it.
module _ {A : Type 0} (P : A → Type 0) (n : ℕ) (i : Intent) (k : Option ExternalError → Program A)
    (h : (j : Bool) (e : Option ExternalError) → Keeps is_inner P n j (k e)) where
  write_operation-Keeps : (o : Operation) → Keeps is_inner P (suc n) true (write_operation o i k)
  write_operation-Keeps set_account_schedulable = (refl, refl, λ r. h false (write_error r))
  write_operation-Keeps set_account_load_factor = (refl, refl, λ r. h false (write_error r))
  write_operation-Keeps _ =
      Keeps-more is_inner P n true true (k (some unsupported_write)) (λ e. e)
        (h true (some unsupported_write))

  pub write-Keeps : Keeps is_inner P (suc n) true (write i k)
  write-Keeps = write_operation-Keeps i.operation

retry-Keeps :
    (t : Attempt) (m : Mutation) (e : Option ExternalError)
    → is_executing m.status ≡ true
    → Tied t m
    → Keeps is_inner Fair 1 (journals (update_mutation m) e) (retry t m e)
retry-Keeps t m (some e) running tied = refl
retry-Keeps t m none running tied =
    rw running
      (write-Keeps Fair 0 t.winner (after_retry t m) (λ j e. after_retry-Keeps t m j e tied))

abbrev again : Mutation → ℕ → Mutation
again m at = record m {
  status = executing;
  attempt_count = suc m.attempt_count;
  last_error_code = codes "controlled_retry";
  updated_at = at;
}

after_readback-Keeps :
    (j : Bool) (t : Attempt) (m : Mutation) (e : ExternalError) (r : Reading)
    → Tied t m
    → Keeps is_inner Fair 1 j (after_readback t m e r)
after_readback-Keeps j t m e (found a) tied =
    go (account_matches_intent a t.winner)
      (same_account_state a t.before_account && ltb m.attempt_count 2) refl
  where
    go :
        (b d : Bool)
        → account_matches_intent a t.winner ≡ b
        → Keeps is_inner Fair 1 j (
            if b
            then finalize_applied t m a
            else if d
            then call now (λ at. call (update_mutation (again m at)) (retry t (again m at)))
            else mark_uncertain m (codes "write_state_diverged") (caused_by e))
    go true d h = finalize_applied-Keeps 1 j t m a tied h
    go false true h = (refl, refl, λ at. (refl, refl, λ r. retry-Keeps t (again m at) r refl tied))
    go false false h = mark_uncertain-Keeps 1 j m _ _
after_readback-Keeps j t m e missing tied = mark_uncertain-Keeps 1 j m _ _
after_readback-Keeps j t m e (unread f) tied = mark_uncertain-Keeps 1 j m _ _

resolve_write_error-Keeps :
    (j : Bool) (t : Attempt) (m : Mutation) (e : ExternalError)
    → Tied t m
    → Keeps is_inner Fair 1 j (resolve_write_error t m e)
unfolding resolve_write_error
resolve_write_error-Keeps j t m e tied = go (ambiguous_write_error e)
  where
    go :
        (b : Bool)
        → Keeps is_inner Fair 1 j (
            if b
            then read_account m.account_id (after_readback t m e)
            else finish_without_write t.submission m failed no_block (caused_by e))
    go true = (refl, refl, λ r. after_readback-Keeps false t m e (find_account m.account_id r) tied)
    go false = finish_without_write-Keeps 1 j t.submission m failed no_block (caused_by e) refl

verify-Keeps :
    (j : Bool) (t : Attempt) (m : Mutation) (e : Option ExternalError)
    → Tied t m
    → Keeps is_inner Fair 1 j (verify t m e)
verify-Keeps j t m (some e) tied = refl
verify-Keeps j t m none tied = (refl, refl, λ r. read (find_account m.account_id r))
  where
    go :
        (a : Account) (b : Bool)
        → account_matches_intent a t.winner ≡ b
        → Keeps is_inner Fair 1 false (
            if b
            then finalize_applied t m a
            else mark_uncertain m (codes "post_write_mismatch") state_mismatch)
    go a true h = finalize_applied-Keeps 1 false t m a tied h
    go a false h = mark_uncertain-Keeps 1 false m _ _

    read : (r : Reading) → Keeps is_inner Fair 1 false (after_verify t m r)
    read (found a) = go a (account_matches_intent a t.winner) refl
    read missing = mark_uncertain-Keeps 1 false m _ _
    read (unread e) = mark_uncertain-Keeps 1 false m _ _

after_write-Keeps :
    (j : Bool) (t : Attempt) (m : Mutation) (e : Option ExternalError)
    → Tied t m
    → Keeps is_inner Fair 1 j (after_write t m e)
after_write-Keeps j t m (some e) tied = resolve_write_error-Keeps j t m e tied
after_write-Keeps j t m none tied = (refl, refl, λ at. (refl, refl, λ r. verify-Keeps _ t _ r tied))

-- From the journal entry on.
pub execute-Keeps :
    (t : Attempt) (m : Mutation) (e : Option ExternalError)
    → is_executing m.status ≡ true
    → Tied t m
    → Keeps is_inner Fair 2 (journals (update_mutation m) e) (execute t m e)
execute-Keeps t m (some e) running tied = refl
execute-Keeps t m none running tied =
    rw running
      (write-Keeps Fair 1 t.winner (after_write t m) (λ j e. after_write-Keeps j t m e tied))
