-- ===== src/AccountControl/Submit/Watched.antt =====
-- internal/accountcontrol: what a program has seen of an account when it commits a mutation.
use mathlib.Core.Path.{subst}
use sub2api_account_schedule.Base.{
  ◌≡◌, refl, sym, Bool, true, false, Option, none, some, List, if◌then◌else◌,
}
use sub2api_account_schedule.Base.Int.{ℤ}
use sub2api_account_schedule.ControlPlane.Types.{
  Operation, set_account_schedulable, set_account_load_factor,
}
use sub2api_account_schedule.ControlPlane.Intent.{Intent}
use sub2api_account_schedule.AccountControl.Types.{is_applied}
use sub2api_account_schedule.AccountControl.Records.{Account, Mutation, Finalization}
use sub2api_account_schedule.AccountControl.Projection.{ExternalError, state_from_account}
use sub2api_account_schedule.AccountControl.Program.{
  Command, Reply, Program, ret, call, ◌>>=◌, Answer, value, failure, list_accounts,
  finalize_mutation, set_schedulable, update_load_factor, now, get_freeze_state, get_control,
  get_balance_lock, get_cost_lock, Keeps,
}
use sub2api_account_schedule.AccountControl.Service.{
  Reading, found, missing, unread, find_account, read_account, write_operation, write_error,
  unsupported_write,
}
use sub2api_account_schedule.AccountControl.Submit.Quiet.{Any, is_reading}

-- The accounts that were listed last, if that succeeded and no account was written since.
abbrev pub Seen : Type 0
Seen = Option (List Account)

abbrev pub seen_after : Seen → (c : Command) → Reply c → Seen
seen_after s list_accounts (value l) = some l
seen_after s list_accounts (failure e) = none
seen_after s (set_schedulable a b) r = none
seen_after s (update_load_factor a v) r = none
seen_after s c r = s

-- The state that a mutation records after it is that of its account in what was seen.
abbrev pub IsSeen : Seen → Mutation → Type 0
IsSeen none m = ⊥
IsSeen (some l) m =
    (a : Account) × (find_account m.account_id (value l) ≡ found a)
    × (m.after ≡ some (state_from_account a))

-- A call that commits a mutation as applied records what was seen.
abbrev pub Commits : Seen → Command → Type 0
Commits s (finalize_mutation f) = is_applied f.mutation.status ≡ true → IsSeen s f.mutation
Commits s _ = Unit {0}

-- Whatever is answered, each commit as applied records the state that the account had when it was
-- listed last, with no write in between.
abbrev pub Observes : {A : Type 0} → Seen → Program A → Type 0
Observes s (ret a) = Unit {0}
Observes s (call c k) = Commits s c × ((r : Reply c) → Observes (seen_after s c r) (k r))

-- It does so whatever was seen before.
abbrev pub Watches : {A : Type 0} → Program A → Type 0
Watches p = (s : Seen) → Observes s p

reading-Commits : (s : Seen) (c : Command) → is_reading c ≡ true → Commits s c
reading-Commits s now e = tt
reading-Commits s get_freeze_state e = tt
reading-Commits s (get_control a) e = tt
reading-Commits s (get_balance_lock a) e = tt
reading-Commits s (get_cost_lock a) e = tt
reading-Commits s _ e = cc

reading-seen : (s : Seen) (c : Command) (r : Reply c) → is_reading c ≡ true → seen_after s c r ≡ s
reading-seen s now r e = refl
reading-seen s get_freeze_state r e = refl
reading-seen s (get_control a) r e = refl
reading-seen s (get_balance_lock a) r e = refl
reading-seen s (get_cost_lock a) r e = refl
reading-seen s _ r e = cc

-- A mutation that does not end as applied commits nothing.
pub unapplied-Commits :
    (s : Seen) (f : Finalization)
    → is_applied f.mutation.status ≡ false
    → Commits s (finalize_mutation f)
unapplied-Commits s f h = λ e. cc

module _ {A : Type 0} where
  pub if-Observes :
      (b : Bool) (s : Seen) (p q : Program A)
      → Observes s p
      → Observes s q
      → Observes s (if b then p else q)
  if-Observes true s p q h k = h
  if-Observes false s p q h k = k

  -- After a successful listing the account is the one that it lists.
  pub read_account-Watches :
      (id : ℤ) (k : Reading → Program A)
      → ((l : List Account) (a : Account)
          → find_account id (value l) ≡ found a
          → Observes (some l) (k (found a)))
      → Watches (k missing)
      → ((e : ExternalError) → Watches (k (unread e)))
      → Watches (read_account id k)
  read_account-Watches id k here gone broken s = (tt, by)
    where
      with_reading :
          (l : List Account) (r : Reading) → find_account id (value l) ≡ r → Observes (some l) (k r)
      with_reading l (found a) e = here l a e
      with_reading l missing e = gone (some l)
      with_reading l (unread x) e = broken x (some l)

      by :
          (r : Answer (List Account))
          → Observes (seen_after s list_accounts r) (k (find_account id r))
      by (value l) = with_reading l (find_account id (value l)) refl
      by (failure e) = broken e none

  -- After a write nothing is seen.
  pub write-Watches :
      (o : Operation) (i : Intent) (k : Option ExternalError → Program A)
      → ((e : Option ExternalError) → Watches (k e))
      → Watches (write_operation o i k)
  write-Watches set_account_schedulable i k h s = (tt, λ r. h (write_error r) none)
  write-Watches set_account_load_factor i k h s = (tt, λ r. h (write_error r) none)
  write-Watches _ i k h s = h (some unsupported_write) s

module _ {A B : Type 0} (f : A → Program B) where
  -- What only reads keeps what was seen.
  pub reads-Observes :
      (s : Seen) (j : Bool) (p : Program A)
      → Keeps is_reading Any 0 j p
      → ((a : A) → Observes s (f a))
      → Observes s (p >>= f)
  unfolding ◌>>=◌
  reads-Observes s j (ret a) h k = k a
  reads-Observes s j (call c p) (w, e, h) k = (
    reading-Commits s c e,
    λ r.
        subst (λ t. Observes t (p r >>= f)) (sym (reading-seen s c r e))
          (reads-Observes s _ (p r) (h r) k),
  )

  pub bind-Observes :
      (s : Seen) (p : Program A) → Observes s p → ((a : A) → Watches (f a)) → Observes s (p >>= f)
  unfolding ◌>>=◌
  bind-Observes s (ret a) h k = k a s
  bind-Observes s (call c p) (w, h) k = (w, λ r. bind-Observes (seen_after s c r) (p r) (h r) k)
