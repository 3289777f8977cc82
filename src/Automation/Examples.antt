-- ===== src/Automation/Examples.antt =====
-- The barrier with one mutation and one freeze: the mutation enters, and the freeze waits for it.
use sub2api_account_schedule.Base.{
  ◌+◌, ◌≤◌, ◌<◌, ◌≡◌, ◌≢◌, refl, ◌⊎◌, inr, true, false, some, List, [], ◌∷◌, arith,
}
use sub2api_account_schedule.Automation.Barrier.{
  Barrier, new_barrier, Caller, outside, at_gate, mutating, waiting, enter_mutation, enter_freeze,
  pass, release, finished, caller_step, mutation_open, freeze_open, pass_mutation, request_freeze,
  release_mutation, signal_locked,
}
use sub2api_account_schedule.Automation.Barrier.Safety.{
  System, Step, Reach, AllOutside, mutations, waiters, freezes, freeze_excludes,
  freeze_has_priority, caller_step_signals, gates_progress,
}

abbrev two : List Caller
two = outside ∷ outside ∷ []

two-AllOutside : AllOutside two
two-AllOutside = (refl, (refl, tt))

abbrev begin : System
begin = record { barrier = new_barrier; callers = two }

abbrev arrived : System
arrived = record { barrier = new_barrier; callers = at_gate ∷ outside ∷ [] }

abbrev one_mutation : Barrier
one_mutation = record new_barrier { active_mutations = 1 }

abbrev entered : System
entered = record { barrier = one_mutation; callers = mutating ∷ outside ∷ [] }

abbrev one_waiter : Barrier
one_waiter = record { changed = 1; active_mutations = 1; freeze_active = false; freeze_waiters = 1 }

abbrev contended : System
contended = record { barrier = one_waiter; callers = mutating ∷ waiting ∷ [] }

contended-Reach : Reach begin contended
unfolding caller_step pass_mutation request_freeze signal_locked
contended-Reach =
    Reach.later
      (Reach.later
        (Reach.later Reach.start
          (Step.move [] (outside ∷ []) outside at_gate new_barrier enter_mutation refl refl refl))
        (Step.move [] (outside ∷ []) at_gate mutating one_mutation pass refl refl refl))
      (Step.move (mutating ∷ []) [] outside waiting one_waiter enter_freeze refl refl refl)

freeze_excludes_example :
    (freezes contended.callers ≤ 1)
    × ((freezes contended.callers ≡ 0) ⊎ (mutations contended.callers ≡ 0))
    × (contended.barrier.active_mutations ≡ mutations contended.callers)
    × (contended.barrier.freeze_waiters ≡ waiters contended.callers)
freeze_excludes_example = freeze_excludes two two-AllOutside contended-Reach

abbrev released : Barrier
released = record { changed = 2; active_mutations = 0; freeze_active = false; freeze_waiters = 1 }

contended-release : caller_step release mutating one_waiter ≡ some (finished, released)
unfolding caller_step release_mutation signal_locked
contended-release = refl

newcomer-arrives : caller_step enter_mutation outside one_waiter ≡ some (at_gate, one_waiter)
unfolding caller_step
newcomer-arrives = refl

one_waits : 0 < waiters contended.callers + freezes contended.callers
one_waits = omega arith

not_mutating : outside ≢ mutating
not_mutating e = cc

freeze_has_priority_example : at_gate ≢ mutating
freeze_has_priority_example =
    freeze_has_priority two two-AllOutside contended-Reach one_waits outside at_gate one_waiter
      enter_mutation newcomer-arrives not_mutating

freeze_opens :
    ((mutation_open one_waiter ≡ false) × (mutation_open released ≡ true))
    ⊎ ((freeze_open one_waiter ≡ false) × (freeze_open released ≡ true))
freeze_opens = inr (refl, refl)

caller_step_signals_example : one_waiter.changed < released.changed
caller_step_signals_example =
    caller_step_signals release mutating finished one_waiter released contended-release freeze_opens

gates_progress_example :
    ((freeze_open contended.barrier ≡ true)
      ⊎ (0 < mutations contended.callers + freezes contended.callers))
    × ((mutation_open contended.barrier ≡ true)
        ⊎ (0 < waiters contended.callers + freezes contended.callers))
gates_progress_example = gates_progress two two-AllOutside contended-Reach
