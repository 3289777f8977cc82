-- ===== src/AccountControl/Program/Laws.antt =====
-- Rules for what a program keeps: for a call that does not write, a write, and a sequence.
use mathlib.Core.Path.{subst}
use sub2api_account_schedule.Base.{ℕ, zero, suc, ◌≡◌, refl, sym, Bool, true, false, arith}
use sub2api_account_schedule.AccountControl.Program.{
  Command, set_schedulable, update_load_factor, Reply, Program, ret, call, ◌>>=◌, is_write,
  journals, writes_left, allows, Keeps,
}

writes_left-quiet : (n : ℕ) (c : Command) → is_write c ≡ false → writes_left n c ≡ n
writes_left-quiet zero c e = refl
writes_left-quiet (suc n) (set_schedulable a b) e = cc
writes_left-quiet (suc n) (update_load_factor a v) e = cc
writes_left-quiet (suc n) _ e = refl

allows-quiet : (n : ℕ) (j : Bool) (c : Command) → is_write c ≡ false → allows n j c ≡ true
allows-quiet zero j c e = grind arith
allows-quiet (suc n) j c e = grind arith

allows-more :
    (n : ℕ) (j j' : Bool) (c : Command)
    → (j ≡ true → j' ≡ true)
    → allows (suc n) j c ≡ true
    → allows (suc (suc n)) j' c ≡ true
allows-more n true j' c imp e = grind arith
allows-more n false j' c imp e = grind arith

writes_left-suc : (n : ℕ) (c : Command) → writes_left (suc (suc n)) c ≡ suc (writes_left (suc n) c)
writes_left-suc n (set_schedulable a b) = refl
writes_left-suc n _ = refl

module _ (ok : Command → Bool) {A : Type 0} (P : A → Type 0) where
  -- A call that does not write uses none of the writes.
  pub Keeps-quiet :
      (n : ℕ) (j : Bool) (c : Command) (k : Reply c → Program A)
      → is_write c ≡ false
      → ok c ≡ true
      → ((r : Reply c) → Keeps ok P n (journals c r) (k r))
      → Keeps ok P n j (call c k)
  Keeps-quiet n j c k e t h = (
    allows-quiet n j c e,
    t,
    subst (λ m. (r : Reply c) → Keeps ok P m (journals c r) (k r)) (sym (writes_left-quiet n c e))
        h,
  )

  -- More writes, or a journal entry, do no harm.
  pub Keeps-more :
      (n : ℕ) (j j' : Bool) (p : Program A)
      → (j ≡ true → j' ≡ true)
      → Keeps ok P n j p
      → Keeps ok P (suc n) j' p
  Keeps-more n j j' (ret a) imp h = h
  Keeps-more zero j j' (call c k) imp (a, t, h) =
      Keeps-quiet (suc zero) j' c k (grind arith) t
        (λ r. Keeps-more zero (journals c r) (journals c r) (k r) (λ e. e) (h r))
  Keeps-more (suc n) j j' (call c k) imp (a, t, h) = (
    allows-more n j j' c imp a,
    t,
    subst (λ m. (r : Reply c) → Keeps ok P m (journals c r) (k r)) (sym (writes_left-suc n c))
        (λ r.
          Keeps-more (writes_left (suc n) c) (journals c r) (journals c r) (k r) (λ e. e) (h r)),
  )

module _ (ok : Command → Bool) {A B : Type 0} (P : A → Type 0) (Q : B → Type 0)
    (f : A → Program B) where
  -- A program with no write before one that may write.
  pub Keeps-before :
      (n : ℕ) (j j' : Bool) (p : Program A)
      → ((a : A) (i : Bool) → P a → Keeps ok Q n i (f a))
      → Keeps ok P 0 j p
      → Keeps ok Q n j' (p >>= f)
  unfolding ◌>>=◌
  Keeps-before n j j' (ret a) then h = then a j' h
  Keeps-before n j j' (call c k) then (a, t, h) =
      Keeps-quiet ok Q n j' c (λ r. k r >>= f) (grind arith) t
        (λ r. Keeps-before n (journals c r) (journals c r) (k r) then (h r))

  -- A program before one with no write.
  pub Keeps-after :
      (n : ℕ) (j : Bool) (p : Program A)
      → ((a : A) (m : ℕ) (i : Bool) → P a → Keeps ok Q m i (f a))
      → Keeps ok P n j p
      → Keeps ok Q n j (p >>= f)
  unfolding ◌>>=◌
  Keeps-after n j (ret a) then h = then a n j h
  Keeps-after n j (call c k) then (a, t, h) =
      (a, t, λ r. Keeps-after (writes_left n c) (journals c r) (k r) then (h r))

-- A weaker demand on the calls.
pub Keeps-weaken :
    (ok ok' : Command → Bool) {A : Type 0} (P : A → Type 0)
    → ((c : Command) → ok c ≡ true → ok' c ≡ true)
    → (n : ℕ) (j : Bool) (p : Program A) → Keeps ok P n j p
    → Keeps ok' P n j p
Keeps-weaken ok ok' P weak n j (ret a) h = h
Keeps-weaken ok ok' P weak n j (call c k) (a, t, h) =
    (a, weak c t, λ r. Keeps-weaken ok ok' P weak (writes_left n c) (journals c r) (k r) (h r))
