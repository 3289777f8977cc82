-- ===== src/Health/Observe/Merge.antt =====
-- internal/health/health.go: which observations `mergeObservations` leaves.
use sub2api_account_schedule.Base.{
  ℕ, ◌+◌, ◌≡◌, ◌≤◌, ap, ◌∙◌, ◌==◌, Bool, not, ◌&&◌, ◌||◌, some, List, [], ◌∷◌, any, keep, weigh,
  if◌then◌else◌, arith,
}
use sub2api_account_schedule.Base.SortLaws.{any-sort, weigh-sort}
use sub2api_account_schedule.Health.Floats.{Floats}
use sub2api_account_schedule.Health.Observe.{
  MonitorObservation, put, put_all, is_recent, is_before, with_current, merge_observations,
}

module _ (f : Floats) (t : ℕ) where
  -- An observation at the time, as a test and as a count.
  abbrev pub is_at : MonitorObservation f → Bool
  is_at o = o.checked_at == t

  abbrev pub at_weight : MonitorObservation f → ℕ
  at_weight o = if is_at o then 1 else 0

  any-put :
      (o : MonitorObservation f) (l : List (MonitorObservation f))
      → any is_at (put f o l) ≡ (is_at o || any is_at l)
  unfolding put
  any-put o [] = ground arith
  any-put o (p ∷ l) = ground (arith, any-put o l)

  weigh-put :
      (o : MonitorObservation f) (l : List (MonitorObservation f))
      → weigh at_weight (put f o l) ≤ at_weight o + weigh at_weight l
  unfolding put
  weigh-put o [] = ground arith
  weigh-put o (p ∷ l) = ground (arith, weigh-put o l)

  put_once :
      (o : MonitorObservation f) (l : List (MonitorObservation f))
      → weigh at_weight l ≤ 1
      → weigh at_weight (put f o l) ≤ 1
  unfolding put
  put_once o [] h = ground arith
  put_once o (p ∷ l) h = ground (arith, put_once o l, weigh-put o l, h)

  put_all_keeps :
      (m l : List (MonitorObservation f))
      → weigh at_weight m ≤ 1
      → (any is_at (put_all f m l) ≡ (any is_at m || any is_at l))
        × (weigh at_weight (put_all f m l) ≤ 1)
  unfolding put_all
  put_all_keeps m [] h = (ground arith, h)
  put_all_keeps m (o ∷ l) h =
      let rest = put_all_keeps (put f o m) l (put_once o m h) in
      (ground (arith, rest.0, any-put o m), rest.1)

  with_current_keeps :
      (c : MonitorObservation f) (m : List (MonitorObservation f))
      → weigh at_weight m ≤ 1
      → (any is_at (with_current f (some c) m)
          ≡ ((not (c.checked_at == 0) && is_at c) || any is_at m))
        × (weigh at_weight (with_current f (some c) m) ≤ 1)
  with_current_keeps c m h = (ground (arith, any-put c m), ground (arith, put_once c m h, h))

  -- After mergeObservations there is an observation at a time exactly if the current one was made at
  -- this non-zero time or the recent history has one, and there is only one.
  pub merge_observations_times :
      (history : List (MonitorObservation f)) (c : MonitorObservation f) (now : ℕ)
      → (any is_at (merge_observations f history (some c) now)
          ≡ ((not (c.checked_at == 0) && is_at c) || any is_at (keep (is_recent f now) history)))
        × (weigh at_weight (merge_observations f history (some c) now) ≤ 1)
  unfolding merge_observations
  merge_observations_times history c now =
      let recent = keep (is_recent f now) history in
      let all = put_all_keeps [] recent (ground arith) in
      let both = with_current_keeps c (put_all f [] recent) all.1 in
      let merged = with_current f (some c) (put_all f [] recent) in
      (
        any-sort (is_before f) is_at merged
            ∙ both.0
            ∙ ap (λ b. (not (c.checked_at == 0) && is_at c) || b) all.0,
        omega (arith, weigh-sort (is_before f) at_weight merged, both.1),
      )
