-- ===== src/Automation/Barrier.antt =====
-- internal/automation/barrier.go: `EnterMutation`, `EnterFreeze` and their release functions, cut at
-- the points where the mutex is given up. A caller that has to wait tries again: its pass is a step
-- that is possible only while the gate is open. `sync.Once` makes a second release do nothing.
pub mod Safety
use sub2api_account_schedule.Base.{
  ℕ, ◌+◌, ◌-◌, Bool, true, false, not, ◌&&◌, Option, none, some, if◌then◌else◌, ◌==◌,
}

-- `changed` is replaced by each signal; its number tells the channels apart.
pub record Barrier : Type 0 where
  pub changed : ℕ
  pub active_mutations : ℕ
  pub freeze_active : Bool
  pub freeze_waiters : ℕ

abbrev pub new_barrier : Barrier
new_barrier = record {
  changed = 0;
  active_mutations = 0;
  freeze_active = false;
  freeze_waiters = 0;
}

-- `signalLocked`: the old channel is closed, which wakes whoever waits on it.
unfoldable pub signal_locked : Barrier → Barrier
signal_locked b = record b { changed = b.changed + 1 }

abbrev pub mutation_open : Barrier → Bool
mutation_open b = not b.freeze_active && (b.freeze_waiters == 0)

abbrev pub freeze_open : Barrier → Bool
freeze_open b = not b.freeze_active && (b.active_mutations == 0)

-- The test of `EnterMutation` and what it does when it passes; `none` means that the caller waits.
unfoldable pub pass_mutation : Barrier → Option Barrier
pass_mutation b =
    if mutation_open b then some (record b { active_mutations = b.active_mutations + 1 }) else none

unfoldable pub release_mutation : Barrier → Barrier
unfolding signal_locked
release_mutation b = signal_locked (record b { active_mutations = b.active_mutations - 1 })

-- The head of `EnterFreeze`: the caller becomes a waiter.
unfoldable pub request_freeze : Barrier → Barrier
unfolding signal_locked
request_freeze b = signal_locked (record b { freeze_waiters = b.freeze_waiters + 1 })

unfoldable pub pass_freeze : Barrier → Option Barrier
pass_freeze b =
    if freeze_open b
    then some (record b { freeze_waiters = b.freeze_waiters - 1; freeze_active = true })
    else none

unfoldable pub cancel_freeze : Barrier → Barrier
unfolding signal_locked
cancel_freeze b = signal_locked (record b { freeze_waiters = b.freeze_waiters - 1 })

unfoldable pub release_freeze : Barrier → Barrier
unfolding signal_locked
release_freeze b = signal_locked (record b { freeze_active = false })

-- Where a caller stands.
pub data Caller : Type 0 where
  outside at_gate mutating waiting freezing finished : Caller

pub data Event : Type 0 where
  enter_mutation enter_freeze pass cancel release : Event

abbrev with_caller : Caller → Option Barrier → Option (Caller × Barrier)
with_caller c none = none
with_caller c (some b) = some (c, b)

-- One atomic step of a caller; `none` where the step is not possible.
unfoldable pub caller_step : Event → Caller → Barrier → Option (Caller × Barrier)
unfolding pass_mutation release_mutation request_freeze pass_freeze cancel_freeze release_freeze
caller_step enter_mutation outside b = some (at_gate, b)
caller_step pass at_gate b = with_caller mutating (pass_mutation b)
caller_step cancel at_gate b = some (finished, b)
caller_step release mutating b = some (finished, release_mutation b)
caller_step enter_freeze outside b = some (waiting, request_freeze b)
caller_step pass waiting b = with_caller freezing (pass_freeze b)
caller_step cancel waiting b = some (finished, cancel_freeze b)
caller_step release freezing b = some (finished, release_freeze b)
caller_step release finished b = some (finished, b)
caller_step _ _ b = none
