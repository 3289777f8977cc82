-- ===== src/Automation/Barrier/Safety.antt =====
-- internal/automation/barrier.go: what holds whatever the callers do, in whatever order.
use mathlib.Core.Path.{subst}
use sub2api_account_schedule.Base.{
  ℕ, zero, suc, ◌+◌, ◌≤◌, ◌<◌, ◌≡◌, refl, sym, ap, ◌∙◌, ◌⊎◌, inl, inr, Bool, true, false, some,
  List, [], ◌∷◌, ◌++◌, arith, weigh, weigh-append, ◌≢◌,
}
use sub2api_account_schedule.Automation.Barrier.{
  Barrier, new_barrier, Caller, outside, mutating, waiting, freezing, Event, caller_step,
  mutation_open, freeze_open,
}

pub record System : Type 0 where
  pub barrier : Barrier
  pub callers : List Caller

-- Any caller makes a step that is possible.
pub data Step (s t : System) : Type 0 where
  move :
      (before after : List Caller) (c d : Caller) (b : Barrier) (e : Event)
      → s.callers ≡ before ++ (c ∷ after)
      → caller_step e c s.barrier ≡ some (d, b)
      → t ≡ record { barrier = b; callers = before ++ (d ∷ after) }
      → Step s t

pub data Reach (s : System) : System → Type 0 where
  start : Reach s s
  later : {t u : System} → Reach s t → Step t u → Reach s u

abbrev is_mutating : Caller → ℕ
is_mutating mutating = 1
is_mutating _ = 0

abbrev is_waiting : Caller → ℕ
is_waiting waiting = 1
is_waiting _ = 0

abbrev is_freezing : Caller → ℕ
is_freezing freezing = 1
is_freezing _ = 0

-- How many callers hold a mutation lease, wait for a freeze, and hold a freeze.
abbrev pub mutations : List Caller → ℕ
mutations = weigh is_mutating

abbrev pub waiters : List Caller → ℕ
waiters = weigh is_waiting

abbrev pub freezes : List Caller → ℕ
freezes = weigh is_freezing

abbrev bit : Bool → ℕ
bit false = 0
bit true = 1

-- The barrier counts the callers, and a freeze excludes mutations.
pub record Counts (b : Barrier) (m w f : ℕ) : Type 0 where
  pub mutations_counted : b.active_mutations ≡ m
  pub waiters_counted : b.freeze_waiters ≡ w
  pub freezes_counted : bit b.freeze_active ≡ f
  pub excluded : b.freeze_active ≡ true → m ≡ 0

abbrev pub Inv : System → Type 0
Inv s = Counts s.barrier (mutations s.callers) (waiters s.callers) (freezes s.callers)

-- A step of one caller, beside any others.
caller_step-Counts :
    (e : Event) (c d : Caller) (b b' : Barrier) (m w f : ℕ)
    → caller_step e c b ≡ some (d, b')
    → Counts b (m + is_mutating c) (w + is_waiting c) (f + is_freezing c)
    → Counts b' (m + is_mutating d) (w + is_waiting d) (f + is_freezing d)
unfolding caller_step
caller_step-Counts e c d b b' m w f h k = ground arith

weigh_middle :
    (w : Caller → ℕ) (before after : List Caller) (c : Caller)
    → weigh w (before ++ (c ∷ after)) ≡ weigh w before + weigh w after + w c
weigh_middle w before after c = omega (arith, weigh-append w before (c ∷ after))

Counts-cast :
    {b : Barrier} {m w f m' w' f' : ℕ}
    → m ≡ m'
    → w ≡ w'
    → f ≡ f'
    → Counts b m w f
    → Counts b m' w' f'
Counts-cast p q r k = ground arith

Step-Inv : {s t : System} → Step s t → Inv s → Inv t
Step-Inv {s} {t} (move before after c d b e at step result) inv = subst Inv (sym result) (
    Counts-cast (sym (weigh_middle is_mutating before after d))
      (sym (weigh_middle is_waiting before after d)) (sym (weigh_middle is_freezing before after d))
      (caller_step-Counts e c d s.barrier b _ _ _ step (
        Counts-cast (ap mutations at ∙ weigh_middle is_mutating before after c)
          (ap waiters at ∙ weigh_middle is_waiting before after c)
          (ap freezes at ∙ weigh_middle is_freezing before after c) inv)))

Reach-Inv : {s t : System} → Inv s → Reach s t → Inv t
Reach-Inv inv start = inv
Reach-Inv inv (later r st) = Step-Inv st (Reach-Inv inv r)

-- A new barrier, and callers that have not called yet.
abbrev pub AllOutside : List Caller → Type 0
AllOutside [] = Unit
AllOutside (c ∷ l) = (c ≡ outside) × AllOutside l

weigh-AllOutside : (w : Caller → ℕ) (l : List Caller) → w outside ≡ 0 → AllOutside l → weigh w l ≡ 0
weigh-AllOutside w [] z h = refl
weigh-AllOutside w (c ∷ l) z h = omega (arith, ap w h.0, z, weigh-AllOutside w l z h.1)

start-Inv :
    (callers : List Caller)
    → AllOutside callers
    → Inv (record { barrier = new_barrier; callers = callers })
start-Inv l h = record {
  mutations_counted = sym (weigh-AllOutside is_mutating l refl h);
  waiters_counted = sym (weigh-AllOutside is_waiting l refl h);
  freezes_counted = sym (weigh-AllOutside is_freezing l refl h);
  excluded = λ e. cc;
}

gate_cases :
    (b : Barrier) (m w f : ℕ)
    → Counts b m w f
    → ((freeze_open b ≡ true) ⊎ (0 < m + f)) × ((mutation_open b ≡ true) ⊎ (0 < w + f))
gate_cases b m w f k = (ground arith, ground arith)

lease_bounds : (b : Barrier) (m w f : ℕ) → Counts b m w f → (f ≤ 1) × (0 < f → m ≡ 0)
lease_bounds b m w f k = (ground arith, λ held. k.excluded (ground arith))

closed_while_busy :
    (e : Event) (c d : Caller) (b b' : Barrier) (m w f : ℕ)
    → Counts b m w f
    → 0 < w + f
    → caller_step e c b ≡ some (d, b')
    → c ≢ mutating
    → d ≢ mutating
unfolding caller_step
closed_while_busy e c d b b' m w f k busy step other now = ground arith

free_or_quiet : (f m : ℕ) → (0 < f → m ≡ 0) → (f ≡ 0) ⊎ (m ≡ 0)
free_or_quiet zero m h = inl refl
free_or_quiet (suc f) m h = inr (h (omega arith))

-- Whatever the callers of a new barrier do, at most one of them holds a freeze, and while one does
-- none holds a mutation lease; and the fields of the barrier count the leases and the waiters.
pub freeze_excludes :
    (callers : List Caller)
    → AllOutside callers
    → {s : System} → Reach (record { barrier = new_barrier; callers = callers }) s
    → (freezes s.callers ≤ 1)
      × ((freezes s.callers ≡ 0) ⊎ (mutations s.callers ≡ 0))
      × (s.barrier.active_mutations ≡ mutations s.callers)
      × (s.barrier.freeze_waiters ≡ waiters s.callers)
freeze_excludes l h {s = s} r =
    let inv = Reach-Inv (start-Inv l h) r in
    let bounds = lease_bounds _ _ _ _ inv in
    (
      bounds.0,
      free_or_quiet (freezes s.callers) (mutations s.callers) bounds.1,
      inv.mutations_counted,
      inv.waiters_counted,
    )

-- Freezes come first: once a caller waits for a freeze, or holds one, no step of any caller gives
-- out a mutation lease.
pub freeze_has_priority :
    (callers : List Caller)
    → AllOutside callers
    → {s : System} → Reach (record { barrier = new_barrier; callers = callers }) s
    → 0 < waiters s.callers + freezes s.callers
    → (c d : Caller) (b : Barrier) (e : Event) → caller_step e c s.barrier ≡ some (d, b)
    → c ≢ mutating
    → d ≢ mutating
freeze_has_priority l h {s = s} r busy c d b e =
    closed_while_busy e c d s.barrier b _ _ _ (Reach-Inv (start-Inv l h) r) busy

-- No wake-up is lost: a step that opens the gate for mutations, or the gate for freezes, replaces
-- the channel that the callers at that gate wait on.
pub caller_step_signals :
    (e : Event) (c d : Caller) (b b' : Barrier)
    → caller_step e c b ≡ some (d, b')
    → ((mutation_open b ≡ false) × (mutation_open b' ≡ true))
      ⊎ ((freeze_open b ≡ false) × (freeze_open b' ≡ true))
    → b.changed < b'.changed
unfolding caller_step
caller_step_signals e c d b b' h opens = ground arith

-- In every reachable state the gate for freezes is open or some lease is held, and the gate for
-- mutations is open or some caller waits for a freeze or holds one.
pub gates_progress :
    (callers : List Caller)
    → AllOutside callers
    → {s : System} → Reach (record { barrier = new_barrier; callers = callers }) s
    → ((freeze_open s.barrier ≡ true) ⊎ (0 < mutations s.callers + freezes s.callers))
      × ((mutation_open s.barrier ≡ true) ⊎ (0 < waiters s.callers + freezes s.callers))
gates_progress l h {s = s} r = gate_cases s.barrier _ _ _ (Reach-Inv (start-Inv l h) r)
