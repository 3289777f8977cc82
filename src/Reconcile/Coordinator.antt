-- ===== src/Reconcile/Coordinator.antt =====
-- internal/reconcile/coordinator.go: requests are collected in a small set and taken by one loop.
-- Each function is what runs under the mutex, and the wake-up behind it; `now` is `time.Now()`.
pub mod Requests
use sub2api_account_schedule.Base.{
  ℕ, ◌+◌, ◌-◌, ◌%◌, ◌^◌, Bool, true, false, not, ◌&&◌, ◌||◌, Option, none, some, List, [], ◌∷◌,
  Text, codes, text_eq, text_lt, trim, is_empty, if◌then◌else◌, ◌==◌, any, length, sort,
}
use sub2api_account_schedule.Base.Int.{ℤ, pos, ltb_ℤ, eq_ℤ}

pub record Coordinator : Type 0 where
  pub pending_full : Bool
  -- A set, as a list without repetition.
  pub pending : List ℤ
  pub sources : List Text
  -- Whether the channel `wake`, of capacity one, holds a value.
  pub wake : Bool
  -- uint64
  pub requests : ℕ
  pub coalesced : ℕ
  -- Nanoseconds since Go's zero time.
  pub requested_at : ℕ

abbrev pub new_coordinator : Coordinator
new_coordinator = record {
  pending_full = false;
  pending = [];
  sources = [];
  wake = false;
  requests = 0;
  coalesced = 0;
  requested_at = 0;
}

-- `x++` on uint64.
abbrev pub next_u64 : ℕ → ℕ
next_u64 n = (n + 1) % 2 ^ 64

unfoldable pub mem_id : ℤ → List ℤ → Bool
mem_id a = any (eq_ℤ a)

-- `set[a] = struct{}{}`
unfoldable pub add_id : ℤ → List ℤ → List ℤ
unfolding mem_id
add_id a l = if mem_id a l then l else a ∷ l

unfoldable pub add_text : Text → List Text → List Text
add_text s l = if any (text_eq s) l then l else s ∷ l

unfoldable pub add_source : Text → Coordinator → Coordinator
unfolding add_text
add_source source c =
    let trimmed = trim source in
    record c {
      sources = add_text (if is_empty trimmed then codes "unspecified" else trimmed) c.sources;
    }

unfoldable pub signal : Coordinator → Coordinator
signal c = record c { wake = true }

-- The loop over the account IDs: the positive ones are added.
unfoldable pub add_ids : List ℤ → List ℤ → List ℤ
unfolding add_id
add_ids [] pending = pending
add_ids (a ∷ ids) pending = add_ids ids (if ltb_ℤ (pos 0) a then add_id a pending else pending)

abbrev pub stamp : ℕ → ℕ → ℕ
stamp now at = if at == 0 then now else at

-- What a client does under the mutex, and whether it signals after the unlock.
unfoldable pub note_accounts : ℕ → Text → List ℤ → Coordinator → Coordinator × Bool
unfolding add_source add_ids
note_accounts now source ids c₀ =
    let c = add_source source c₀ in
    let pending = add_ids ids c.pending in
    if c.pending_full then (record c { coalesced = next_u64 c.coalesced }, false) else (
      if length pending == length c.pending
          then record c { pending = pending; coalesced = next_u64 c.coalesced }
          else record c {
            pending = pending;
            requested_at = stamp now c.requested_at;
            requests = next_u64 c.requests;
          },
      true,
    )

unfoldable pub note_full : ℕ → Text → Coordinator → Coordinator
unfolding add_source
note_full now source c₀ =
    let c = add_source source c₀ in
    if c.pending_full then record c { coalesced = next_u64 c.coalesced } else record c {
      requested_at = stamp now c.requested_at;
      requests = next_u64 c.requests;
      pending_full = true;
      pending = [];
    }

unfoldable pub request_accounts_from : ℕ → Text → List ℤ → Coordinator → Coordinator
unfolding note_accounts signal
request_accounts_from now source ids c =
    let (noted, signals) = note_accounts now source ids c in if signals then signal noted else noted

unfoldable pub request_full_from : ℕ → Text → Coordinator → Coordinator
unfolding note_full signal
request_full_from now source c = signal (note_full now source c)

-- What `takePending` returns.
pub record Pending : Type 0 where
  pub full : Bool
  pub ids : List ℤ
  pub sources : List Text
  pub requests : ℕ
  pub coalesced : ℕ
  pub queue_wait : ℕ

unfoldable pub take_pending : ℕ → Coordinator → Pending × Coordinator
take_pending now c = (
  record {
    full = c.pending_full;
    ids = if c.pending_full then [] else sort ltb_ℤ c.pending;
    sources = sort text_lt c.sources;
    requests = c.requests;
    coalesced = c.coalesced;
    queue_wait = if c.requested_at == 0 then 0 else now - c.requested_at;
  },
  record c {
    pending_full = false;
    pending = [];
    sources = [];
    requests = 0;
    coalesced = 0;
    requested_at = 0;
  },
)

abbrev pub is_nil {ℓ} : {A : Type ℓ} → List A → Bool
is_nil [] = true
is_nil (a ∷ l) = false

-- `!full && len(accountIDs) == 0`: the loop of `runPending` returns.
abbrev pub nothing_to_do : Pending → Bool
nothing_to_do p = not p.full && is_nil p.ids

-- The loop of `Run`: it waits for a tick, a wake-up or the end of its context, and after the first
-- two it drains (the debounce and `runPending`) until a take finds nothing or the context has ended.
pub record Loop : Type 0 where
  pub coordinator : Coordinator
  pub draining : Bool
  -- The clients that have unlocked the mutex and have still to signal.
  pub signalling : ℕ
  -- Whether the context has ended, and whether `Run` has returned.
  pub cancelled : Bool
  pub returned : Bool

abbrev pub new_loop : Loop
new_loop = record {
  coordinator = new_coordinator;
  draining = false;
  signalling = 0;
  cancelled = false;
  returned = false;
}

pub data LoopEvent : Type 0 where
  -- A client's turn under the mutex, and its `signal()` after it.
  accounts : ℕ → Text → List ℤ → LoopEvent
  full : ℕ → Text → LoopEvent
  signalled : LoopEvent
  -- The context ends.
  cancel : LoopEvent
  -- `<-ticker.C`, `<-c.wake` and `<-ctx.Done()` in `Run`.
  tick : ℕ → LoopEvent
  woken stopped : LoopEvent
  -- `<-c.wake` in `waitDebounce`, and one turn of the loop of `runPending`.
  debounced : LoopEvent
  round : ℕ → LoopEvent

-- One turn of `for ctx.Err() == nil`: a `waitDebounce` that the context ended is followed by it.
unfoldable pub drain_round : ℕ → Loop → Option Pending × Loop
unfolding take_pending
drain_round now l =
    let (p, c) = take_pending now l.coordinator in
    if l.cancelled
    then (none, record l { draining = false })
    else if nothing_to_do p
    then (none, record l { coordinator = c; draining = false })
    else (some p, record l { coordinator = c })

-- A step of the loop or of a client, with the pass that it runs, if any.
unfoldable pub loop_step : LoopEvent → Loop → Option Pending × Loop
unfolding note_accounts note_full request_full_from signal drain_round
loop_step (accounts now source ids) l =
    let (noted, signals) = note_accounts now source ids l.coordinator in
    (
      none,
      record l {
        coordinator = noted;
        signalling = if signals then l.signalling + 1 else l.signalling;
      },
    )
loop_step (full now source) l = (
  none,
  record l { coordinator = note_full now source l.coordinator; signalling = l.signalling + 1 },
)
loop_step signalled l =
    if l.signalling == 0
    then (none, l)
    else (none, record l { coordinator = signal l.coordinator; signalling = l.signalling - 1 })
loop_step cancel l = (none, record l { cancelled = true })
loop_step (tick now) l = if l.draining || l.returned then (none, l) else (
  none,
  record l {
    coordinator = request_full_from now (codes "periodic") l.coordinator;
    draining = true;
  },
)
loop_step woken l =
    if not l.draining && not l.returned && l.coordinator.wake
    then (none, record l { coordinator = record (l.coordinator) { wake = false }; draining = true })
    else (none, l)
loop_step stopped l =
    if not l.draining && l.cancelled then (none, record l { returned = true }) else (none, l)
loop_step debounced l =
    if l.draining
    then (none, record l { coordinator = record (l.coordinator) { wake = false } })
    else (none, l)
loop_step (round now) l = if l.draining then drain_round now l else (none, l)

-- The passes that a sequence of steps runs, and where it ends.
abbrev pub with_pass : Option Pending → List Pending × Loop → List Pending × Loop
with_pass none (ps, l) = (ps, l)
with_pass (some p) (ps, l) = (p ∷ ps, l)

unfoldable pub run_loop : List LoopEvent → Loop → List Pending × Loop
unfolding loop_step
run_loop [] l = ([], l)
run_loop (e ∷ es) l = let (p, l') = loop_step e l in with_pass p (run_loop es l')
