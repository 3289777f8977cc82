-- ===== src/AccountControl/Locks/Exclusive.antt =====
-- internal/accountcontrol/lock.go: what holds whatever the callers of the locks do, in whatever order.
use mathlib.Core.Path.{subst}
use sub2api_account_schedule.Base.{
  ℕ, ◌+◌, ◌≤◌, ◌≡◌, ◌≢◌, ◌⊎◌, inl, inr, refl, sym, ap, ◌∙◌, Option, none, some, List, [], ◌∷◌, ◌++◌,
  arith, weigh, weigh-append, All, All-append, Bool, true, false, lt_or_le, if◌then◌else◌,
}
use sub2api_account_schedule.Base.Int.{ℤ, eq_ℤ, eq_ℤ→eq}
use sub2api_account_schedule.AccountControl.Locks.{
  AccountLocks, new_account_locks, LockCaller, idle, waiting, holding, releasing, LockEvent, obtain,
  lock_step,
}
use sub2api_account_schedule.AccountControl.Locks.Steps.{
  bit, uses, holds, Aimed, Counts, Good, Outcome, lock_step-Good,
}

-- The locks and all their callers; a step of any of them, and the systems that are reached.
pub record System : Type 0 where
  pub locks : AccountLocks
  pub callers : List LockCaller

pub data Step (s t : System) : Type 0 where
  move :
      (before after : List LockCaller) (c d : LockCaller) (l : AccountLocks) (e : LockEvent)
      → s.callers ≡ before ++ (c ∷ after)
      → lock_step e c s.locks ≡ some (d, l)
      → t ≡ record { locks = l; callers = before ++ (d ∷ after) }
      → Step s t

pub data Reach (s : System) : System → Type 0 where
  start : Reach s s
  later : {t u : System} → Reach s t → Step t u → Reach s u

abbrev pub use_count : List LockCaller → ℕ → ℕ
use_count l p = weigh (uses p) l

abbrev pub hold_count : List LockCaller → ℕ → ℕ
hold_count l p = weigh (holds p) l

pub record Inv (s : System) : Type 0 where
  pub counts : Counts s.locks (use_count s.callers) (hold_count s.callers)
  pub aimed : All (Aimed s.locks) s.callers

-- No caller holds what it does not use.
holds_used : (p : ℕ) (l : List LockCaller) → weigh (holds p) l ≤ weigh (uses p) l
holds_used p [] = omega arith
holds_used p (idle ∷ l) = omega (arith, holds_used p l)
holds_used p (waiting k q ∷ l) = omega (arith, holds_used p l)
holds_used p (holding k q ∷ l) = omega (arith, holds_used p l)
holds_used p (releasing k q ∷ l) = omega (arith, holds_used p l)

weigh_middle :
    (w : LockCaller → ℕ) (before after : List LockCaller) (c : LockCaller)
    → weigh w (before ++ (c ∷ after)) ≡ weigh w before + weigh w after + w c
weigh_middle w before after c = omega (arith, weigh-append w before (c ∷ after))

Counts-cast :
    (l : AccountLocks) (u v h i : ℕ → ℕ)
    → ((p : ℕ) → u p ≡ v p)
    → ((p : ℕ) → h p ≡ i p)
    → Counts l u h
    → Counts l v i
Counts-cast l u v h i a b c = record {
  refs = λ p. c.refs p ∙ a p;
  fresh = λ p n. sym (a p) ∙ c.fresh p n;
  token = λ p n. omega (arith, c.token p n, b p);
  used = λ k p e. omega (arith, c.used k p e, a p);
  one_key = c.one_key;
}

All-split : {A : Type 0} (P : A → Type 0) (xs ys : List A) → All P (xs ++ ys) → All P xs × All P ys
All-split P [] ys h = (tt, h)
All-split P (x ∷ xs) ys h = let r = All-split P xs ys h.1 in ((h.0, r.0), r.1)

-- The others of a step keep their entries.
others-Aimed :
    (l m : AccountLocks) (u : ℕ → ℕ) (xs : List LockCaller)
    → ((x : LockCaller) → ((p : ℕ) → uses p x ≤ u p) → Aimed l x → Aimed m x)
    → ((p : ℕ) → weigh (uses p) xs ≤ u p)
    → All (Aimed l) xs
    → All (Aimed m) xs
others-Aimed l m u [] keep b h = tt
others-Aimed l m u (x ∷ xs) keep b h =
    (keep x (λ p. omega (arith, b p)) h.0, others-Aimed l m u xs keep (λ p. omega (arith, b p)) h.1)

module _ (before after : List LockCaller) where
  abbrev other_uses : ℕ → ℕ
  other_uses p = weigh (uses p) before + weigh (uses p) after

  abbrev other_holds : ℕ → ℕ
  other_holds p = weigh (holds p) before + weigh (holds p) after

  others_le : (p : ℕ) → other_holds p ≤ other_uses p
  others_le p = omega (arith, holds_used p before, holds_used p after)

  moved-Inv :
      (e : LockEvent) (c d : LockCaller) (l m : AccountLocks)
      → lock_step e c l ≡ some (d, m)
      → Inv (record { locks = l; callers = before ++ (c ∷ after) })
      → Inv (record { locks = m; callers = before ++ (d ∷ after) })
  moved-Inv e c d l m step inv =
      let split = All-split (Aimed l) before (c ∷ after) inv.aimed in
      let good : Good other_uses other_holds others_le l m d =
        subst (Outcome other_uses other_holds others_le l) step (
          lock_step-Good other_uses other_holds others_le e c l
            (Counts-cast l _ _ _ _ (λ p. weigh_middle (uses p) before after c)
              (λ p. weigh_middle (holds p) before after c) inv.counts)
            split.1.0) in
      record {
        counts =
            Counts-cast m _ _ _ _ (λ p. sym (weigh_middle (uses p) before after d))
              (λ p. sym (weigh_middle (holds p) before after d)) good.counts;
        aimed =
            All-append (Aimed m) before (d ∷ after)
              (others-Aimed l m other_uses before good.others (λ p. omega arith) split.0)
              (
                good.own,
                others-Aimed l m other_uses after good.others (λ p. omega arith) split.1.1,
              );
      }

Step-Inv : {s t : System} → Step s t → Inv s → Inv t
Step-Inv {s} {t} (move before after c d l e at step result) inv = subst Inv (sym result) (
    moved-Inv before after e c d s.locks l step
      (subst (λ cs. Inv (record { locks = s.locks; callers = cs })) at inv))

Reach-Inv : {s t : System} → Inv s → Reach s t → Inv t
Reach-Inv inv start = inv
Reach-Inv inv (later r st) = Step-Inv st (Reach-Inv inv r)

-- Callers that have not called yet.
abbrev pub AllIdle : List LockCaller → Type 0
AllIdle = All (λ c. c ≡ idle)

weigh-AllIdle : (w : LockCaller → ℕ) (l : List LockCaller) → w idle ≡ 0 → AllIdle l → weigh w l ≡ 0
weigh-AllIdle w [] z h = refl
weigh-AllIdle w (c ∷ l) z h = omega (arith, ap w h.0, z, weigh-AllIdle w l z h.1)

idle-Aimed : (m : AccountLocks) (l : List LockCaller) → AllIdle l → All (Aimed m) l
idle-Aimed m [] h = tt
idle-Aimed m (c ∷ l) h = (subst (Aimed m) (sym h.0) tt, idle-Aimed m l h.1)

start-Inv :
    (l : List LockCaller) → AllIdle l → Inv (record { locks = new_account_locks; callers = l })
start-Inv l h = record {
  counts = record {
    refs = λ p. sym (weigh-AllIdle (uses p) l refl h);
    fresh = λ p n. weigh-AllIdle (uses p) l refl h;
    token = λ p n. ground (arith, n);
    used = λ k p e. ground (arith, e);
    one_key = λ j k p a b. ground (arith, a);
  };
  aimed = idle-Aimed new_account_locks l h;
}

-- How many callers hold the lock of an account.
abbrev holds_key : ℤ → LockCaller → ℕ
holds_key k (holding j q) = if eq_ℤ j k then 1 else 0
holds_key k _ = 0

abbrev pub holders : ℤ → List LockCaller → ℕ
holders k = weigh (holds_key k)

module _ (l : AccountLocks) (u h : ℕ → ℕ) (counts : Counts l u h) where
  -- The holders of an account's lock are those of its entry.
  holder-entry :
      (k : ℤ) (p : ℕ) (c : LockCaller)
      → l.entries k ≡ some p
      → Aimed l c
      → holds_key k c ≡ holds p c
  holder-entry k p idle e a = refl
  holder-entry k p (waiting j q) e a = refl
  holder-entry k p (releasing j q) e a = refl
  holder-entry k p (holding j q) e a = ground (arith, counts.one_key j k p, eq_ℤ→eq j k, e, a)

  holders-entry :
      (k : ℤ) (p : ℕ) (cs : List LockCaller)
      → l.entries k ≡ some p
      → All (Aimed l) cs
      → holders k cs ≡ hold_count cs p
  holders-entry k p [] e a = refl
  holders-entry k p (c ∷ cs) e a =
      omega (arith, holder-entry k p c e a.0, holders-entry k p cs e a.1)

-- Without an entry nobody holds.
holder-none :
    (l : AccountLocks) (k : ℤ) (c : LockCaller) → l.entries k ≡ none → Aimed l c → holds_key k c ≡ 0
holder-none l k idle e a = refl
holder-none l k (waiting j q) e a = refl
holder-none l k (releasing j q) e a = refl
holder-none l k (holding j q) e a = ground (arith, eq_ℤ→eq j k, e, a)

holders-none :
    (l : AccountLocks) (k : ℤ) (cs : List LockCaller)
    → l.entries k ≡ none
    → All (Aimed l) cs
    → holders k cs ≡ 0
holders-none l k [] e a = refl
holders-none l k (c ∷ cs) e a = omega (arith, holder-none l k c e a.0, holders-none l k cs e a.1)

-- The token of an entry in the map, or its holder.
entry_token :
    (s : System) (k : ℤ) (p : ℕ)
    → Inv s
    → s.locks.entries k ≡ some p
    → bit (s.locks.heap p).token + hold_count s.callers p ≡ 1
entry_token s k p inv e = elim (lt_or_le p s.locks.next) [
  | inl i ↦ inv.counts.token p i
  | inr i ↦ absurd (omega (arith, inv.counts.fresh p i, inv.counts.used k p e))
]

module _ (callers : List LockCaller) (all_idle : AllIdle callers) (t : System) where
  abbrev Reached : Type 0
  Reached = Reach (record { locks = new_account_locks; callers = callers }) t

  reached-Inv : Reached → Inv t
  reached-Inv r = Reach-Inv (start-Inv callers all_idle) r

  -- Whatever callers do with new locks, in whatever order, at most one of them holds the lock of an
  -- account.
  pub locks_exclude : Reached → (k : ℤ) → holders k t.callers ≤ 1
  locks_exclude r k = by (t.locks.entries k) refl
    where
      inv : Inv t
      inv = reached-Inv r

      by : (o : Option ℕ) → t.locks.entries k ≡ o → holders k t.callers ≤ 1
      by none e = omega (arith, holders-none t.locks k t.callers e inv.aimed)
      by (some p) e = omega (
        arith,
        holders-entry t.locks _ _ inv.counts k p t.callers e inv.aimed,
        entry_token t k p inv e,
      )

  -- A caller that waits for the lock of an account can obtain it, or some caller holds it.
  pub waiting_progresses :
      Reached
      → (before after : List LockCaller) (k : ℤ) (p : ℕ)
      → t.callers ≡ before ++ (waiting k p ∷ after)
      → (lock_step obtain (waiting k p) t.locks ≢ none) ⊎ (holders k t.callers ≡ 1)
  unfolding lock_step
  waiting_progresses r before after k p at = by (t.locks.heap p).token refl
    where
      inv : Inv t
      inv = reached-Inv r

      e : t.locks.entries k ≡ some p
      e =
          (All-split (Aimed t.locks) before (waiting k p ∷ after)
            (subst (All (Aimed t.locks)) at inv.aimed)).1.0

      by :
          (b : Bool)
          → (t.locks.heap p).token ≡ b
          → (lock_step obtain (waiting k p) t.locks ≢ none) ⊎ (holders k t.callers ≡ 1)
      by true h = inl (λ n. ground (arith, h, n))
      by false h = inr (
          ground (
            arith,
            h,
            holders-entry t.locks _ _ inv.counts k p t.callers e inv.aimed,
            entry_token t k p inv e,
          ))

  -- Once all callers are outside again, no account has an entry left.
  pub locks_leave_nothing : Reached → AllIdle t.callers → (k : ℤ) → t.locks.entries k ≡ none
  locks_leave_nothing r idle_again k = by (t.locks.entries k) refl
    where
      by : (o : Option ℕ) → t.locks.entries k ≡ o → o ≡ none
      by none e = refl
      by (some p) e = absurd (
          omega (
            arith,
            (reached-Inv r).counts.used k p e,
            weigh-AllIdle (uses p) t.callers refl idle_again,
          ))
