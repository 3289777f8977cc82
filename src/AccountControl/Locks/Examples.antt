-- ===== src/AccountControl/Locks/Examples.antt =====
-- Two callers of the lock of account 7, and one that comes back.
use sub2api_account_schedule.Base.{◌≡◌, ◌≤◌, ◌⊎◌, ◌≢◌, refl, true, false, none, some, List, [], ◌∷◌}
use sub2api_account_schedule.Base.Int.{pos}
use sub2api_account_schedule.AccountControl.Locks.{
  AccountLocks, new_account_locks, LockCaller, idle, waiting, holding, releasing, request, obtain,
  give_back, drop_ref, set_token, add_ref, release_ref, lock_step,
}
use sub2api_account_schedule.AccountControl.Locks.Exclusive.{
  System, Reach, start, later, move, holders, locks_exclude, waiting_progresses,
  locks_leave_nothing,
}

abbrev two : List LockCaller
two = idle ∷ idle ∷ []

abbrev first_request : AccountLocks
first_request = (add_ref (pos 7) new_account_locks none).1

abbrev first_holds : AccountLocks
first_holds = set_token 0 false first_request

abbrev second_waits : AccountLocks
second_waits = (add_ref (pos 7) first_holds (some 0)).1

abbrev busy : System
busy = record { locks = second_waits; callers = holding (pos 7) 0 ∷ waiting (pos 7) 0 ∷ [] }

-- The first caller obtains the lock, and the second one waits.
Reach-busy : Reach (record { locks = new_account_locks; callers = two }) busy
unfolding lock_step
Reach-busy =
    later
      (later
        (later start (
          move [] (idle ∷ []) idle (waiting (pos 7) 0) first_request (request (pos 7)) refl refl
            refl))
        (move [] (idle ∷ []) (waiting (pos 7) 0) (holding (pos 7) 0) first_holds obtain refl refl
          refl))
      (move (holding (pos 7) 0 ∷ []) [] idle (waiting (pos 7) 0) second_waits (request (pos 7)) refl
        refl refl)

locks_exclude_example : holders (pos 7) busy.callers ≤ 1
locks_exclude_example = locks_exclude two (refl, (refl, tt)) busy Reach-busy (pos 7)

waiting_progresses_example :
    (lock_step obtain (waiting (pos 7) 0) busy.locks ≢ none) ⊎ (holders (pos 7) busy.callers ≡ 1)
waiting_progresses_example =
    waiting_progresses two (refl, (refl, tt)) busy Reach-busy (holding (pos 7) 0 ∷ []) [] (pos 7) 0
      refl

abbrev one : List LockCaller
one = idle ∷ []

abbrev given_back : AccountLocks
given_back = set_token 0 true first_holds

abbrev left : System
left = record { locks = release_ref (pos 7) 0 given_back; callers = one }

-- A caller obtains the lock and gives it back.
Reach-left : Reach (record { locks = new_account_locks; callers = one }) left
unfolding lock_step
Reach-left =
    later
      (later
        (later
          (later start
            (move [] [] idle (waiting (pos 7) 0) first_request (request (pos 7)) refl refl refl))
          (move [] [] (waiting (pos 7) 0) (holding (pos 7) 0) first_holds obtain refl refl refl))
        (move [] [] (holding (pos 7) 0) (releasing (pos 7) 0) given_back give_back refl refl refl))
      (move [] [] (releasing (pos 7) 0) idle (release_ref (pos 7) 0 given_back) drop_ref refl refl
        refl)

locks_leave_nothing_example : left.locks.entries (pos 7) ≡ none
locks_leave_nothing_example = locks_leave_nothing one (refl, tt) left Reach-left (refl, tt) (pos 7)
