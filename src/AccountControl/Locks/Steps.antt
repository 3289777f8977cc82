-- ===== src/AccountControl/Locks/Steps.antt =====
-- internal/accountcontrol/lock.go: what one step of a caller leaves of the counts, and of the
-- entries of the others.
use sub2api_account_schedule.Base.{
  ℕ, ◌+◌, ◌-◌, ◌≤◌, ◌<◌, ◌≡◌, refl, ap, ◌∙◌, ◌==◌, Bool, true, false, ◌&&◌, Option, none, some,
  arith, if◌then◌else◌,
}
use sub2api_account_schedule.Base.Int.{ℤ, eq_ℤ, eq_ℤ→eq, eq_ℤ-self}
use sub2api_account_schedule.AccountControl.Locks.{
  AccountLocks, LockCaller, idle, waiting, holding, releasing, LockEvent, request, obtain, cancel,
  give_back, drop_ref, set_entry, set_key, set_token, is_entry, release_ref, add_ref, lock_step,
}

abbrev at_address : ℕ → ℕ → ℕ
at_address p q = if q == p then 1 else 0

-- How often a caller uses an entry, and holds it.
abbrev pub uses : ℕ → LockCaller → ℕ
uses p idle = 0
uses p (waiting k q) = at_address p q
uses p (holding k q) = at_address p q
uses p (releasing k q) = at_address p q

abbrev pub holds : ℕ → LockCaller → ℕ
holds p (holding k q) = at_address p q
holds p _ = 0

-- The map leads from a caller's key to the caller's entry.
abbrev pub Aimed : AccountLocks → LockCaller → Type 0
Aimed l idle = Unit
Aimed l (waiting k p) = l.entries k ≡ some p
Aimed l (holding k p) = l.entries k ≡ some p
Aimed l (releasing k p) = l.entries k ≡ some p

abbrev pub bit : Bool → ℕ
bit false = 0
bit true = 1

-- The entries count their users, have one token or one holder, and are in the map only while used,
-- each under one key.
pub record Counts (l : AccountLocks) (u h : ℕ → ℕ) : Type 0 where
  pub refs : (p : ℕ) → (l.heap p).refs ≡ u p
  pub fresh : (p : ℕ) → l.next ≤ p → u p ≡ 0
  pub token : (p : ℕ) → p < l.next → bit (l.heap p).token + h p ≡ 1
  pub used : (k : ℤ) (p : ℕ) → l.entries k ≡ some p → 1 ≤ u p
  pub one_key : (j k : ℤ) (p : ℕ) → l.entries j ≡ some p → l.entries k ≡ some p → eq_ℤ j k ≡ true

-- The other callers, of whom none holds what it does not use.
module _ (u h : ℕ → ℕ) (le : (p : ℕ) → h p ≤ u p) where
  -- The counts with one caller beside the others.
  abbrev pub With : AccountLocks → LockCaller → Type 0
  With l c = Counts l (λ p. u p + uses p c) (λ p. h p + holds p c)

  -- A caller that is one of the others.
  abbrev Other : LockCaller → Type 0
  Other x = (p : ℕ) → uses p x ≤ u p

  obtain-Counts :
      (k : ℤ) (p : ℕ) (l : AccountLocks)
      → (l.heap p).token ≡ true
      → With l (waiting k p)
      → With (set_token p false l) (holding k p)
  obtain-Counts k p l t w = record {
    refs = λ q. ground (arith, w.refs q, w.refs p);
    fresh = λ q i. w.fresh q i;
    token = λ q i. ground (arith, w.token q i, t);
    used = λ j q i. w.used j q i;
    one_key = λ i j q a b. w.one_key i j q a b;
  }

  give_back-Counts :
      (k : ℤ) (p : ℕ) (l : AccountLocks)
      → (l.heap p).token ≡ false
      → With l (holding k p)
      → With (set_token p true l) (releasing k p)
  give_back-Counts k p l t w = record {
    refs = λ q. ground (arith, w.refs q, w.refs p);
    fresh = λ q i. w.fresh q i;
    token = λ q i. ground (arith, w.token q i, t);
    used = λ j q i. w.used j q i;
    one_key = λ i j q a b. w.one_key i j q a b;
  }

  add_ref-Counts :
      (k : ℤ) (l : AccountLocks) (o : Option ℕ)
      → l.entries k ≡ o
      → With l idle
      → With (add_ref k l o).1 (add_ref k l o).0
  add_ref-Counts k l (some p) e w = record {
    refs = λ q. ground (arith, w.refs q, w.refs p);
    fresh = λ q i. ground (arith, w.fresh q i, w.fresh p, w.used k p e);
    token = λ q i. ground (arith, w.token q i);
    used = λ j q i. ground (arith, w.used j q i);
    one_key = λ i j q a b. w.one_key i j q a b;
  }
  add_ref-Counts k l none e w = record {
    refs = λ q. ground (arith, w.refs q, w.fresh q);
    fresh = λ q i. ground (arith, w.fresh q, i);
    token = λ q i. ground (arith, w.token q, w.fresh q, le q, i);
    used = λ j q i. ground (arith, w.used j q, i);
    one_key = λ i j q a b.
        ground (
          arith,
          w.one_key i j q,
          a,
          b,
          w.used i q,
          w.used j q,
          w.fresh q,
          eq_ℤ→eq i k,
          eq_ℤ→eq j k,
        );
  }

  -- What a caller that leaves makes of the locks: a caller in the select and one that has returned its
  -- token count alike.
  release_ref-Counts :
      (k : ℤ) (p : ℕ) (l : AccountLocks)
      → l.entries k ≡ some p
      → With l (waiting k p)
      → With (release_ref k p l) idle
  release_ref-Counts k p l e w =
      go ((l.heap p).refs - 1 == 0 && (l.heap p).token && is_entry (l.entries k) p) refl
    where
      go :
          (b : Bool)
          → ((l.heap p).refs - 1 == 0 && (l.heap p).token && is_entry (l.entries k) p) ≡ b
          → With
              (if b
                then set_key k none
                    (set_entry p (record (l.heap p) { refs = (l.heap p).refs - 1 }) l)
                else set_entry p (record (l.heap p) { refs = (l.heap p).refs - 1 }) l)
              idle
      go true c = record {
        refs = λ q. ground (arith, w.refs q, w.refs p);
        fresh = λ q i. ground (arith, w.fresh q i);
        token = λ q i. ground (arith, w.token q i);
        used = λ j q i. ground (arith, w.used j q, i, w.one_key j k p, e);
        one_key = λ i j q a b. ground (arith, w.one_key i j q, a, b);
      }
      go false c = record {
        refs = λ q. ground (arith, w.refs q, w.refs p);
        fresh = λ q i. ground (arith, w.fresh q i);
        token = λ q i. ground (arith, w.token q i);
        used = λ j q i. ground (arith, w.used j q i, w.refs p, c, e, w.token p, w.fresh p, le p);
        one_key = λ i j q a b. w.one_key i j q a b;
      }

  -- The others keep their entries.
  release_ref-Aimed :
      (k : ℤ) (p : ℕ) (l : AccountLocks) (j : ℤ) (q : ℕ)
      → With l (waiting k p)
      → l.entries k ≡ some p
      → at_address q q ≤ u q
      → l.entries j ≡ some q
      → (release_ref k p l).entries j ≡ some q
  release_ref-Aimed k p l j q w e o a = ground (arith, w.refs p, e, a, o, eq_ℤ→eq j k)

  add_ref-Aimed :
      (k : ℤ) (l : AccountLocks) (o : Option ℕ) (j : ℤ) (q : ℕ)
      → l.entries k ≡ o
      → l.entries j ≡ some q
      → (add_ref k l o).1.entries j ≡ some q
  add_ref-Aimed k l (some p) j q e a = a
  add_ref-Aimed k l none j q e a = ground (arith, a, e, eq_ℤ→eq j k)

  add_ref-Own :
      (k : ℤ) (l : AccountLocks) (o : Option ℕ)
      → l.entries k ≡ o
      → Aimed (add_ref k l o).1 (add_ref k l o).0
  add_ref-Own k l (some p) e = e
  add_ref-Own k l none e = rw (eq_ℤ-self k) refl

  -- What a step leaves of the locks and of the others.
  pub record Good (l m : AccountLocks) (d : LockCaller) : Type 0 where
    pub counts : With m d
    pub own : Aimed m d
    pub others : (x : LockCaller) → Other x → Aimed l x → Aimed m x

  abbrev pub Outcome : AccountLocks → Option (LockCaller × AccountLocks) → Type 0
  Outcome l none = Unit
  Outcome l (some (d, m)) = Good l m d

  add_ref-Others :
      (k : ℤ) (l : AccountLocks) (o : Option ℕ) (x : LockCaller)
      → l.entries k ≡ o
      → Aimed l x
      → Aimed (add_ref k l o).1 x
  add_ref-Others k l o idle e a = tt
  add_ref-Others k l o (waiting j q) e a = add_ref-Aimed k l o j q e a
  add_ref-Others k l o (holding j q) e a = add_ref-Aimed k l o j q e a
  add_ref-Others k l o (releasing j q) e a = add_ref-Aimed k l o j q e a

  release_ref-Others :
      (k : ℤ) (p : ℕ) (l : AccountLocks) (x : LockCaller)
      → With l (waiting k p)
      → l.entries k ≡ some p
      → Other x
      → Aimed l x
      → Aimed (release_ref k p l) x
  release_ref-Others k p l idle w e o a = tt
  release_ref-Others k p l (waiting j q) w e o a = release_ref-Aimed k p l j q w e (o q) a
  release_ref-Others k p l (holding j q) w e o a = release_ref-Aimed k p l j q w e (o q) a
  release_ref-Others k p l (releasing j q) w e o a = release_ref-Aimed k p l j q w e (o q) a

  release_ref-Good :
      (k : ℤ) (p : ℕ) (l : AccountLocks)
      → l.entries k ≡ some p
      → With l (waiting k p)
      → Good l (release_ref k p l) idle
  release_ref-Good k p l e w = record {
    counts = release_ref-Counts k p l e w;
    own = tt;
    others = λ x o. release_ref-Others k p l x w e o;
  }

  -- A token changes no entry of the map.
  same-Others :
      (l m : AccountLocks) (x : LockCaller) → m.entries ≡ l.entries → Aimed l x → Aimed m x
  same-Others l m idle e a = tt
  same-Others l m (waiting j q) e a = ap (λ f. f j) e ∙ a
  same-Others l m (holding j q) e a = ap (λ f. f j) e ∙ a
  same-Others l m (releasing j q) e a = ap (λ f. f j) e ∙ a

  obtain-Good :
      (k : ℤ) (p : ℕ) (l : AccountLocks) (b : Bool)
      → (l.heap p).token ≡ b
      → With l (waiting k p)
      → l.entries k ≡ some p
      → Outcome l (if b then some (holding k p, set_token p false l) else none)
  obtain-Good k p l true t w a = record {
    counts = obtain-Counts k p l t w;
    own = a;
    others = λ x o. same-Others l (set_token p false l) x refl;
  }
  obtain-Good k p l false t w a = tt

  give_back-Good :
      (k : ℤ) (p : ℕ) (l : AccountLocks) (b : Bool)
      → (l.heap p).token ≡ b
      → With l (holding k p)
      → l.entries k ≡ some p
      → Outcome l (if b then none else some (releasing k p, set_token p true l))
  give_back-Good k p l true t w a = tt
  give_back-Good k p l false t w a = record {
    counts = give_back-Counts k p l t w;
    own = a;
    others = λ x o. same-Others l (set_token p true l) x refl;
  }

  pub lock_step-Good :
      (e : LockEvent) (c : LockCaller) (l : AccountLocks)
      → With l c
      → Aimed l c
      → Outcome l (lock_step e c l)
  unfolding lock_step
  lock_step-Good (request k) idle l w a = record {
    counts = add_ref-Counts k l (l.entries k) refl w;
    own = add_ref-Own k l (l.entries k) refl;
    others = λ x o. add_ref-Others k l (l.entries k) x refl;
  }
  lock_step-Good (request k) (waiting j p) l w a = tt
  lock_step-Good (request k) (holding j p) l w a = tt
  lock_step-Good (request k) (releasing j p) l w a = tt
  lock_step-Good obtain idle l w a = tt
  lock_step-Good obtain (waiting k p) l w a = obtain-Good k p l (l.heap p).token refl w a
  lock_step-Good obtain (holding k p) l w a = tt
  lock_step-Good obtain (releasing k p) l w a = tt
  lock_step-Good cancel idle l w a = tt
  lock_step-Good cancel (waiting k p) l w a = release_ref-Good k p l a w
  lock_step-Good cancel (holding k p) l w a = tt
  lock_step-Good cancel (releasing k p) l w a = tt
  lock_step-Good give_back idle l w a = tt
  lock_step-Good give_back (waiting k p) l w a = tt
  lock_step-Good give_back (holding k p) l w a = give_back-Good k p l (l.heap p).token refl w a
  lock_step-Good give_back (releasing k p) l w a = tt
  lock_step-Good drop_ref idle l w a = tt
  lock_step-Good drop_ref (waiting k p) l w a = tt
  lock_step-Good drop_ref (holding k p) l w a = tt
  lock_step-Good drop_ref (releasing k p) l w a = release_ref-Good k p l a w
