-- ===== src/AccountControl/Submit/Balance.antt =====
-- internal/accountcontrol/service.go: `Submit` gives back what it takes, the place in the queue, the
-- lock of the account and the slot, in whatever way it ends.
use mathlib.Core.Path.{subst}
use sub2api_account_schedule.Base.{
  ℕ, ◌≡◌, refl, Bool, true, false, not, ◌&&◌, Option, none, some, is_some,
}
use sub2api_account_schedule.Base.Int.{ℤ, eq_ℤ-self}
use sub2api_account_schedule.ControlPlane.Types.{account_id_of}
use sub2api_account_schedule.ControlPlane.Intent.{is_none}
use sub2api_account_schedule.AccountControl.Types.{same_int}
use sub2api_account_schedule.AccountControl.Records.{Submission, CommandContext}
use sub2api_account_schedule.AccountControl.Projection.{ExternalError}
use sub2api_account_schedule.AccountControl.Program.{
  Program, ret, call, ◌>>=◌, Command, Reply, enqueue, acquire_slot, release_slot, finish_candidate,
  acquire_lock, release_lock, is_inner, Keeps, writes_left, journals,
}
use sub2api_account_schedule.AccountControl.Overrides.{Go, ServiceError, external}
use sub2api_account_schedule.AccountControl.Decision.{validate_command_id, validate_account_intent}
use sub2api_account_schedule.AccountControl.Journal.{Outcome, fail}
use sub2api_account_schedule.AccountControl.Submit.{
  leave, with_slot, with_lock, submit_checked, submit, submit_locked,
}
use sub2api_account_schedule.AccountControl.Submit.Fair.{Fair}
use sub2api_account_schedule.AccountControl.Submit.Discipline.{submit_locked-Keeps}

-- What the program holds: a place in the queue, the lock of an account, and a slot.
pub record Held : Type 0 where
  pub queued : Bool
  pub locked : Option ℤ
  pub slot : Bool

abbrev pub nothing_held : Held
nothing_held = record { queued = false; locked = none; slot = false }

-- A thing is taken by one who does not hold it, the lock before the slot, and given back by one who
-- holds it.
abbrev pub may : Held → Command → Bool
may h enqueue = not h.queued
may h (finish_candidate retain) = h.queued
may h (acquire_lock account) = is_none h.locked && not h.slot
may h (release_lock account) = same_int h.locked (some account) && not h.slot
may h acquire_slot = is_some h.locked && not h.slot
may h release_slot = h.slot
may h _ = true

abbrev pub held_after : Held → (c : Command) → Reply c → Held
held_after h enqueue r = record h { queued = true }
held_after h (finish_candidate retain) r = record h { queued = false }
held_after h (acquire_lock account) none = record h { locked = some account }
held_after h (release_lock account) r = record h { locked = none }
held_after h acquire_slot none = record h { slot = true }
held_after h release_slot r = record h { slot = false }
held_after h c r = h

-- Whatever is answered, each thing is given back once, by the program that took it, before it ends.
abbrev pub Balanced : {A : Type 0} → Held → Program A → Type 0
Balanced h (ret a) = h ≡ nothing_held
Balanced h (call c k) = may h c ≡ true × ((r : Reply c) → Balanced (held_after h c r) (k r))

may-inner : (h : Held) (c : Command) → is_inner c ≡ true → may h c ≡ true
may-inner h enqueue e = cc
may-inner h (finish_candidate retain) e = cc
may-inner h (acquire_lock account) e = cc
may-inner h (release_lock account) e = cc
may-inner h acquire_slot e = cc
may-inner h release_slot e = cc
may-inner h _ e = refl

held_after-inner : (h : Held) (c : Command) (r : Reply c) → is_inner c ≡ true → h ≡ held_after h c r
held_after-inner h enqueue r e = cc
held_after-inner h (finish_candidate retain) r e = cc
held_after-inner h (acquire_lock account) r e = cc
held_after-inner h (release_lock account) r e = cc
held_after-inner h acquire_slot r e = cc
held_after-inner h release_slot r e = cc
held_after-inner h _ r e = refl

-- A program inside the lock and the slot leaves what is held to what follows it.
module _ {A B : Type 0} (P : A → Type 0) (f : A → Program B) (h : Held)
    (rest : (a : A) → Balanced h (f a)) where
  pub Balanced-inner :
      (n : ℕ) (j : Bool) (p : Program A) → Keeps is_inner P n j p → Balanced h (p >>= f)
  unfolding ◌>>=◌
  Balanced-inner n j (ret a) k = rest a
  Balanced-inner n j (call c p) (a, inner, k) = (
    may-inner h c inner,
    λ r.
        subst (λ g. Balanced g (p r >>= f)) (held_after-inner h c r inner)
          (Balanced-inner (writes_left n c) (journals c r) (p r) (k r)),
  )

module _ (go : Go) (ctx : CommandContext) (s : Submission) (account : ℤ) where
  abbrev in_queue : Held
  in_queue = record { queued = true; locked = none; slot = false }

  abbrev in_lock : Held
  in_lock = record in_queue { locked = some account }

  abbrev in_slot : Held
  in_slot = record in_lock { slot = true }

  leave-Balanced : (o : Outcome) → Balanced in_lock (leave account o)
  leave-Balanced o = (refl, λ a. (rw (eq_ℤ-self account), λ b. refl))

  with_slot-Balanced :
      (e : Option ExternalError)
      → Balanced (held_after in_lock acquire_slot e) (with_slot go ctx s account e)
  with_slot-Balanced (some e) = leave-Balanced (fail (external e))
  with_slot-Balanced none =
      Balanced-inner Fair (λ o. call release_slot (λ _. leave account o)) in_slot
        (λ o. (refl, λ a. leave-Balanced o)) 2 false (submit_locked go ctx s)
        (submit_locked-Keeps go ctx s false)

  with_lock-Balanced :
      (e : Option ExternalError)
      → Balanced (held_after in_queue (acquire_lock account) e) (with_lock go ctx s account e)
  with_lock-Balanced (some e) = (refl, λ a. refl)
  with_lock-Balanced none = (refl, with_slot-Balanced)

submit_checked-Balanced :
    (go : Go) (ctx : CommandContext) (s : Submission) (a b : Option ServiceError)
    → Balanced nothing_held (submit_checked go ctx s a b)
submit_checked-Balanced go ctx s (some e) b = refl
submit_checked-Balanced go ctx s none (some e) = refl
submit_checked-Balanced go ctx s none none =
    (refl, λ a. (refl, with_lock-Balanced go ctx s (account_id_of s.intent.resource).0))

-- However a submission ends, it has given back its place in the queue, the lock of its account and
-- its slot, each exactly as often as it got it, the slot before the lock; it takes a slot only
-- inside the lock.
pub submit_gives_back :
    (go : Go) (ctx : CommandContext) (s : Submission) → Balanced nothing_held (submit go ctx s)
unfolding submit
submit_gives_back go ctx s =
    submit_checked-Balanced go ctx s (validate_command_id s.command_id)
      (validate_account_intent s.intent)
