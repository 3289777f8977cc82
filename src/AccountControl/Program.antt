-- ===== src/AccountControl/Program.antt =====
-- internal/accountcontrol: the service as a program over the calls that it makes, of the Repository
-- and Transport interfaces (types.go), of the clock and the ID generator, and of the candidate
-- queue. The environment answers each call as it likes, so a theorem about a program covers every
-- store, every upstream and every interleaving with other work.
pub mod Laws
use sub2api_account_schedule.Base.{
  ℕ, zero, suc, ◌≡◌, Bool, true, false, not, ◌&&◌, ◌||◌, Option, none, some, List, Text,
  if◌then◌else◌,
}
use sub2api_account_schedule.Base.Int.{ℤ}
use sub2api_account_schedule.ControlPlane.Types.{Operation, Invalid}
use sub2api_account_schedule.ControlPlane.Intent.{Intent, is_none}
use sub2api_account_schedule.AccountControl.Types.{OverrideKind, is_executing, is_applied, same_int}
use sub2api_account_schedule.AccountControl.Records.{
  AccountState, Requested, Account, Control, FreezeState, BalanceLock, CostLock, Override, Mutation,
  Result, Finalization,
}
use sub2api_account_schedule.AccountControl.Projection.{ExternalError, same_bool}

-- A candidate of the queue, in competition with a submission.
pub record Competitor : Type 0 where
  pub intent : Intent
  pub kind : OverrideKind

-- A value, or an error of the environment.
pub data Answer {ℓ} (A : Type ℓ) : Type ℓ where
  value : A → Answer A
  failure : ExternalError → Answer A

pub data Command : Type 0 where
  now new_id competing get_freeze_state list_accounts : Command
  find_mutation : Text → Command
  list_overrides : ℤ → Operation → ℕ → Command
  prepare_mutation : Mutation → Option Override → Command
  update_mutation : Mutation → Command
  finalize_mutation : Finalization → Command
  get_control get_balance_lock get_cost_lock : ℤ → Command
  set_schedulable : ℤ → Bool → Command
  update_load_factor : ℤ → Option ℤ → Command
  -- The candidate queue, the lock of an account, and the slots for concurrent mutations.
  enqueue acquire_slot release_slot : Command
  finish_candidate : Bool → Command
  acquire_lock release_lock : ℤ → Command

abbrev pub Reply : Command → Type 0
Reply now = ℕ
Reply new_id = Answer Text
Reply competing = List Competitor
Reply get_freeze_state = Answer FreezeState
Reply list_accounts = Answer (List Account)
Reply (find_mutation key) = Answer (Option Mutation)
Reply (list_overrides account operation at) = Answer (List Override)
Reply (prepare_mutation m o) = Answer (Mutation × Bool)
Reply (update_mutation m) = Option ExternalError
Reply (finalize_mutation f) = Option ExternalError
Reply (get_control account) = Answer Control
Reply (get_balance_lock account) = Answer (Option BalanceLock)
Reply (get_cost_lock account) = Answer (Option CostLock)
Reply (set_schedulable account b) = Answer Account
Reply (update_load_factor account v) = Answer Account
Reply enqueue = Unit {0}
Reply acquire_slot = Option ExternalError
Reply release_slot = Unit {0}
Reply (finish_candidate retain) = Unit {0}
Reply (acquire_lock account) = Option ExternalError
Reply (release_lock account) = Unit {0}

pub data Program (A : Type 0) : Type 0 where
  ret : A → Program A
  call : (c : Command) → (Reply c → Program A) → Program A

infixl 5 ◌>>=◌
unfoldable pub ◌>>=◌ : {A B : Type 0} → Program A → (A → Program B) → Program B
ret a >>= f = f a
call c k >>= f = call c (λ r. k r >>= f)

-- A single call.
abbrev pub ask : (c : Command) → Program (Reply c)
ask c = call c (λ r. ret r)

-- The calls that change an account upstream.
abbrev pub is_write : Command → Bool
is_write (set_schedulable account b) = true
is_write (update_load_factor account v) = true
is_write _ = false

-- Whether a call has just recorded that the mutation is being executed.
abbrev pub journals : (c : Command) → Reply c → Bool
journals (update_mutation m) none = is_executing m.status
journals _ r = false

-- Whether an account is as a mutation's winner wants it.
abbrev pub matches_requested : Requested → Option AccountState → Bool
matches_requested r none = false
matches_requested r (some s) = elim r.schedulable [
  | some b ↦ same_bool s.schedulable b
  | none ↦ if r.load_set then same_int s.load_factor r.load_factor else is_none s.load_factor
]

-- Whether a call that commits a mutation as applied has seen that the account is as its winner
-- wants it.
abbrev pub is_truthful : Command → Bool
is_truthful (finalize_mutation f) =
    not (is_applied f.mutation.status)
    || matches_requested f.mutation.winning.desired f.mutation.after
is_truthful _ = true

-- A write wants one of the writes that are left, and the journal entry directly before it.
abbrev pub allows : ℕ → Bool → Command → Bool
allows zero journaled c = not (is_write c)
allows (suc n) journaled c = not (is_write c) || journaled

abbrev pub writes_left : ℕ → Command → ℕ
writes_left zero c = zero
writes_left (suc n) (set_schedulable account b) = n
writes_left (suc n) (update_load_factor account v) = n
writes_left (suc n) c = suc n

-- The calls that take a place in the queue, the lock of an account or a slot, or give it back.
abbrev pub is_holding : Command → Bool
is_holding enqueue = true
is_holding acquire_slot = true
is_holding release_slot = true
is_holding (finish_candidate retain) = true
is_holding (acquire_lock account) = true
is_holding (release_lock account) = true
is_holding _ = false

-- What holds of the calls inside the lock and the slot.
abbrev pub is_inner : Command → Bool
is_inner c = not (is_holding c) && is_truthful c

-- Whatever is answered, the program makes only calls that are `ok` and at most `n` writes, each
-- directly behind a journal entry that was stored, and what it returns satisfies `P`.
abbrev pub Keeps {κ} :
    (Command → Bool) → {A : Type 0} → (A → Type κ) → ℕ → Bool → Program A → Type κ
Keeps ok P n journaled (ret a) = P a
Keeps ok P n journaled (call c k) =
    allows n journaled c ≡ true
    × ok c ≡ true
    × ((r : Reply c) → Keeps ok P (writes_left n c) (journals c r) (k r))

-- The program against an environment that always answers the same.
unfoldable pub run : {A : Type 0} → ((c : Command) → Reply c) → Program A → A
run env (ret a) = a
run env (call c k) = run env (k (env c))
