-- ===== src/Reconcile/Examples.antt =====
-- The coordinator with a request for two accounts, a wake-up and a round.
use sub2api_account_schedule.Base.{◌≡◌, refl, ◌⊎◌, true, false, List, [], ◌∷◌, codes, any, arith}
use sub2api_account_schedule.Base.Int.{ℤ, pos, ◌<ℤ◌}
use sub2api_account_schedule.Reconcile.Coordinator.{
  new_coordinator, new_loop, signalled, mem_id, request_accounts_from, Loop, LoopEvent, accounts,
  woken, debounced, round, run_loop,
}
use sub2api_account_schedule.Reconcile.Coordinator.Requests.{
  covers, is_owed, has_work, WillWake, request_is_served, pending_is_awake,
}

abbrev wanted : List ℤ
wanted = pos 3 ∷ pos 9 ∷ []

abbrev steps : List LoopEvent
steps = woken ∷ debounced ∷ round 50 ∷ []

nine-positive : pos 0 <ℤ pos 9
nine-positive = omega arith

nine-wanted : mem_id (pos 9) wanted ≡ true
unfolding mem_id
nine-wanted = refl

abbrev requested : Loop
requested = record new_loop {
  coordinator = request_accounts_from 40 (codes "api") wanted new_coordinator;
}

request_is_served_example :
    (any (covers (pos 9)) (run_loop steps requested).0 ≡ true)
    ⊎ (is_owed (pos 9) (run_loop steps requested).1.coordinator ≡ true)
request_is_served_example =
    request_is_served 40 (codes "api") wanted new_loop (pos 9) nine-positive nine-wanted steps

abbrev request_only : List LoopEvent
request_only = accounts 40 (codes "api") wanted ∷ signalled ∷ []

pending_is_awake_example :
    let l = (run_loop request_only new_loop).1 in (has_work l.coordinator ≡ false) ⊎ WillWake l
pending_is_awake_example = pending_is_awake request_only
