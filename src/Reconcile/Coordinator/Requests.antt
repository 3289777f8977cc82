-- ===== src/Reconcile/Coordinator/Requests.antt =====
-- internal/reconcile/coordinator.go: no request is lost, and none is left without a wake-up.
use mathlib.Core.Path.{subst}
use mathlib.Core.Bool.{false≢true}
use sub2api_account_schedule.Base.{
  ℕ, ◌≡◌, refl, ◌⊎◌, inl, inr, Bool, true, false, ◌||◌, Option, none, some, List, [], ◌∷◌, Text,
  arith, any, sort, Bool-cases, if◌then◌else◌, lt→ltb, ap, ◌∙◌, sym, codes, not, ◌==◌,
}
use sub2api_account_schedule.Base.Int.{ℤ, pos, ltb_ℤ, eq_ℤ, ◌<ℤ◌, eq_ℤ-self, eq_ℤ→eq}
use sub2api_account_schedule.Base.SortLaws.{any-sort}
use sub2api_account_schedule.Reconcile.Coordinator.{
  Coordinator, mem_id, add_id, add_ids, request_accounts_from, request_full_from, Pending,
  take_pending, nothing_to_do, is_nil, Loop, LoopEvent, accounts, full, tick, woken, debounced,
  round, signalled, cancel, stopped, new_loop, note_accounts, note_full, drain_round, loop_step,
  run_loop, with_pass,
}

-- A pass covers an account if it is full or lists it.
abbrev pub covers : ℤ → Pending → Bool
covers a p = p.full || mem_id a p.ids

-- The account waits for a pass.
abbrev pub is_owed : ℤ → Coordinator → Bool
is_owed a c = c.pending_full || mem_id a c.pending

mem_id-add_id_self : (a : ℤ) (l : List ℤ) → mem_id a (add_id a l) ≡ true
unfolding add_id mem_id
mem_id-add_id_self a l = ground (arith, eq_ℤ-self a)

mem_id-add_id : (a b : ℤ) (l : List ℤ) → mem_id a l ≡ true → mem_id a (add_id b l) ≡ true
unfolding add_id mem_id
mem_id-add_id a b l h = ground arith

mem_id-add_ids : (a : ℤ) (ids l : List ℤ) → mem_id a l ≡ true → mem_id a (add_ids ids l) ≡ true
unfolding add_ids
mem_id-add_ids a [] l h = h
mem_id-add_ids a (b ∷ ids) l h = mem_id-add_ids a ids _ (ground (arith, mem_id-add_id a b l h))

added_first :
    (a b : ℤ) (l : List ℤ)
    → pos 0 <ℤ a
    → a ≡ b
    → mem_id a (if ltb_ℤ (pos 0) b then add_id b l else l) ≡ true
added_first a b l p e =
    subst (λ c. mem_id a (if ltb_ℤ (pos 0) c then add_id c l else l) ≡ true) e
      (rw (lt→ltb _ _ p) (mem_id-add_id_self a l))

-- Each positive ID that is asked for is added.
add_ids_complete :
    (a : ℤ) (ids l : List ℤ) → pos 0 <ℤ a → mem_id a ids ≡ true → mem_id a (add_ids ids l) ≡ true
unfolding add_ids
add_ids_complete a [] l p h = absurd (false≢true h)
add_ids_complete a (b ∷ ids) l p h = elim (Bool-cases (eq_ℤ a b)) [
  | inl e ↦ mem_id-add_ids a ids _ (added_first a b l p (eq_ℤ→eq a b e))
  | inr e ↦ add_ids_complete a ids _ p (ground arith)
]

request_accounts_from-owed :
    (now : ℕ) (source : Text) (ids : List ℤ) (c : Coordinator) (a : ℤ)
    → (pos 0 <ℤ a) × (mem_id a ids ≡ true)
    → is_owed a (request_accounts_from now source ids c) ≡ true
unfolding request_accounts_from
request_accounts_from-owed now source ids c a h =
    ground (arith, add_ids_complete a ids c.pending h.0 h.1)

note_accounts-keeps :
    (now : ℕ) (source : Text) (ids : List ℤ) (c : Coordinator) (a : ℤ)
    → is_owed a c ≡ true
    → is_owed a (note_accounts now source ids c).0 ≡ true
unfolding note_accounts
note_accounts-keeps now source ids c a h = ground (arith, mem_id-add_ids a ids c.pending)

note_full-owed :
    (now : ℕ) (source : Text) (c : Coordinator) (a : ℤ) → is_owed a (note_full now source c) ≡ true
unfolding note_full
note_full-owed now source c a = ground arith

request_full_from-owed :
    (now : ℕ) (source : Text) (c : Coordinator) (a : ℤ)
    → is_owed a (request_full_from now source c) ≡ true
unfolding request_full_from
request_full_from-owed now source c a = note_full-owed now source c a

mem_id-sort : (a : ℤ) (l : List ℤ) → mem_id a (sort ltb_ℤ l) ≡ mem_id a l
unfolding mem_id
mem_id-sort a l = any-sort ltb_ℤ (eq_ℤ a) l

mem_id-not_nil : (a : ℤ) (l : List ℤ) → mem_id a l ≡ true → is_nil l ≡ false
unfolding mem_id
mem_id-not_nil a [] h = cc
mem_id-not_nil a (b ∷ l) h = refl

-- Work waits for a pass.
abbrev pub has_work : Coordinator → Bool
has_work c = c.pending_full || not (is_nil c.pending)

abbrev covered : ℤ → Option Pending → Bool
covered a none = false
covered a (some p) = covers a p

request_full_from-wake :
    (now : ℕ) (source : Text) (c : Coordinator) → (request_full_from now source c).wake ≡ true
unfolding request_full_from
request_full_from-wake now source c = ground arith

take_pending-empties : (now : ℕ) (c : Coordinator) → has_work (take_pending now c).1 ≡ false
unfolding take_pending
take_pending-empties now c = refl

-- What is owed is in the batch that a take hands out.
take_pending-covers :
    (now : ℕ) (c : Coordinator) (a : ℤ)
    → is_owed a c ≡ true
    → (covers a (take_pending now c).0 ≡ true) × (nothing_to_do (take_pending now c).0 ≡ false)
unfolding take_pending
take_pending-covers now c a h =
    ground (arith, mem_id-sort a c.pending, mem_id-not_nil a (sort ltb_ℤ c.pending))

drain_round-owed :
    (now : ℕ) (l : Loop) (a : ℤ)
    → is_owed a l.coordinator ≡ true
    → let (p, l') = drain_round now l in (covered a p ≡ true) ⊎ (is_owed a l'.coordinator ≡ true)
unfolding drain_round
drain_round-owed now l a h = ground (arith, take_pending-covers now l.coordinator a h)

-- A step keeps what is owed, or runs a pass that covers it.
loop_step-owed :
    (e : LoopEvent) (l : Loop) (a : ℤ)
    → is_owed a l.coordinator ≡ true
    → let (p, l') = loop_step e l in (covered a p ≡ true) ⊎ (is_owed a l'.coordinator ≡ true)
unfolding loop_step
loop_step-owed (accounts now source ids) l a h =
    inr (note_accounts-keeps now source ids l.coordinator a h)
loop_step-owed (full now source) l a h = inr (note_full-owed now source l.coordinator a)
loop_step-owed signalled l a h = ground arith
loop_step-owed cancel l a h = inr h
loop_step-owed stopped l a h = ground arith
loop_step-owed (tick now) l a h =
    ground (arith, request_full_from-owed now (codes "periodic") l.coordinator a)
loop_step-owed woken l a h = ground arith
loop_step-owed debounced l a h = ground arith
loop_step-owed (round now) l a h = ground (arith, drain_round-owed now l a h)

with_pass-covered :
    (a : ℤ) (p : Option Pending) (r : List Pending × Loop)
    → (covered a p ≡ true) ⊎ (any (covers a) r.0 ≡ true)
    → any (covers a) (with_pass p r).0 ≡ true
with_pass-covered a none r (inl h) = cc
with_pass-covered a none r (inr h) = h
with_pass-covered a (some p) r (inl h) = rw h
with_pass-covered a (some p) r (inr h) = ground arith

with_pass-state : (p : Option Pending) (r : List Pending × Loop) → (with_pass p r).1 ≡ r.1
with_pass-state none r = refl
with_pass-state (some p) r = refl

run_loop-owed :
    (es : List LoopEvent) (l : Loop) (a : ℤ)
    → is_owed a l.coordinator ≡ true
    → (any (covers a) (run_loop es l).0 ≡ true) ⊎ (is_owed a (run_loop es l).1.coordinator ≡ true)
unfolding run_loop
run_loop-owed [] l a h = inr h
run_loop-owed (e ∷ es) l a h =
    let p = (loop_step e l).0 in
    let r = run_loop es (loop_step e l).1 in
    elim (loop_step-owed e l a h) [
      | inl now ↦ inl (with_pass-covered a p r (inl now))
      | inr owed ↦ elim (run_loop-owed es (loop_step e l).1 a owed) [
        | inl past ↦ inl (with_pass-covered a p r (inr past))
        | inr still ↦ inr (ap (λ t. is_owed a t.coordinator) (with_pass-state p r) ∙ still)
      ]
    ]

-- No account request is lost: when a positive account ID is requested, then however many requests,
-- wake-ups, ticks, rounds and ends of the context follow, a pass has covered the account (a full
-- one, or one that lists it), or the account is still waiting for one.
pub request_is_served :
    (now : ℕ) (source : Text) (ids : List ℤ) (before : Loop) (a : ℤ)
    → pos 0 <ℤ a
    → mem_id a ids ≡ true
    → (es : List LoopEvent)
    → let l = record before {
      coordinator = request_accounts_from now source ids before.coordinator;
    } in
      (any (covers a) (run_loop es l).0 ≡ true) ⊎ (is_owed a (run_loop es l).1.coordinator ≡ true)
request_is_served now source ids before a p h es =
    run_loop-owed es _ a (request_accounts_from-owed now source ids before.coordinator a (p, h))

-- What keeps pending work from being forgotten.
abbrev pub WillWake : Loop → Type 0
WillWake l =
    (l.coordinator.wake ≡ true)
    ⊎ ((l.draining ≡ true) ⊎ (((l.signalling == 0) ≡ false) ⊎ (l.cancelled ≡ true)))

abbrev IsAwake : Loop → Type 0
IsAwake l = has_work l.coordinator ≡ true → WillWake l

add_ids-not_nil : (ids l : List ℤ) → is_nil l ≡ false → is_nil (add_ids ids l) ≡ false
unfolding add_ids add_id
add_ids-not_nil [] l h = h
add_ids-not_nil (a ∷ ids) l h = add_ids-not_nil ids _ (ground arith)

drain_round-IsAwake : (now : ℕ) (l : Loop) → IsAwake l → IsAwake (drain_round now l).1
unfolding drain_round
drain_round-IsAwake now l h work = ground (arith, h, take_pending-empties now l.coordinator)

loop_step-IsAwake : (e : LoopEvent) (l : Loop) → IsAwake l → IsAwake (loop_step e l).1
unfolding loop_step
loop_step-IsAwake (accounts now source ids) l h work = ground (arith, h)
loop_step-IsAwake (full now source) l h work = inr (inr (inl (ground arith)))
loop_step-IsAwake signalled l h work = ground (arith, h)
loop_step-IsAwake cancel l h work = inr (inr (inr refl))
loop_step-IsAwake stopped l h work = ground (arith, h)
loop_step-IsAwake (tick now) l h work = ground (arith, h)
loop_step-IsAwake woken l h work = ground (arith, h)
loop_step-IsAwake debounced l h work = ground (arith, h)
loop_step-IsAwake (round now) l h work = ground (arith, h, drain_round-IsAwake now l h)

run_loop-IsAwake : (es : List LoopEvent) (l : Loop) → IsAwake l → IsAwake (run_loop es l).1
unfolding run_loop
run_loop-IsAwake [] l h = h
run_loop-IsAwake (e ∷ es) l h =
    subst IsAwake (sym (with_pass-state (loop_step e l).0 (run_loop es (loop_step e l).1)))
      (run_loop-IsAwake es (loop_step e l).1 (loop_step-IsAwake e l h))

-- Work is never left asleep: after any steps of a new coordinator and its loop, no full pass and no
-- account is pending, or a wake-up is in the channel, or the loop is draining, or a client has still
-- to signal, or the context of the loop has ended.
pub pending_is_awake :
    (es : List LoopEvent)
    → let l = (run_loop es new_loop).1 in (has_work l.coordinator ≡ false) ⊎ WillWake l
pending_is_awake es = elim (Bool-cases (has_work (run_loop es new_loop).1.coordinator)) [
  | inl e ↦ inr (run_loop-IsAwake es new_loop (λ e. cc) e)
  | inr e ↦ inl e
]
