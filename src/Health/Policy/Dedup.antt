-- ===== src/Health/Policy/Dedup.antt =====
-- internal/health/v3.go: which checks `deduplicateChecks` leaves.
use sub2api_account_schedule.Base.{
  ℕ, suc, ◌≡◌, ◌≤◌, ◌<◌, refl, ◌∙◌, ap, ◌==◌, Bool, Option, none, some, List, [], ◌∷◌, find, arith,
  if◌then◌else◌,
}
use sub2api_account_schedule.Health.Classify.{Check}
use sub2api_account_schedule.Health.Policy.{place, place_all, deduplicate_checks}

-- The check was made at the time.
abbrev pub is_at : ℕ → Check → Bool
is_at t c = c.checked_at == t

abbrev pub count_at : ℕ → List Check → ℕ
count_at t [] = 0
count_at t (c ∷ l) = let rest = count_at t l in if is_at t c then suc rest else rest

-- The last of the checks that were made at the time.
abbrev pub last_at : ℕ → Option Check → List Check → Option Check
last_at t before [] = before
last_at t before (c ∷ l) = last_at t (if is_at t c then some c else before) l

module _ (t : ℕ) (nonzero : 0 < t) where
  find-place :
      (c : Check) (l : List Check)
      → find (is_at t) (place c l) ≡ (if is_at t c then some c else find (is_at t) l)
  unfolding place
  find-place c [] = ground (arith, nonzero)
  find-place c (d ∷ l) = ground (arith, nonzero, find-place c l)

  count-place :
      (c : Check) (l : List Check)
      → count_at t (place c l) ≤ (if is_at t c then suc (count_at t l) else count_at t l)
  unfolding place
  count-place c [] = ground (arith, nonzero)
  count-place c (d ∷ l) = ground (arith, nonzero, count-place c l)

  count_at_once : (c : Check) (l : List Check) → count_at t l ≤ 1 → count_at t (place c l) ≤ 1
  unfolding place
  count_at_once c [] h = ground (arith, nonzero)
  count_at_once c (d ∷ l) h = ground (arith, nonzero, count_at_once c l, count-place c l, h)

  place_all_keeps :
      (placed l : List Check)
      → count_at t placed ≤ 1
      → (find (is_at t) (place_all placed l) ≡ last_at t (find (is_at t) placed) l)
        × (count_at t (place_all placed l) ≤ 1)
  unfolding place_all
  place_all_keeps placed [] h = (refl, h)
  place_all_keeps placed (c ∷ l) h =
      let rest = place_all_keeps (place c placed) l (count_at_once c placed h) in
      (rest.0 ∙ ap (λ o. last_at t o l) (find-place c placed), rest.1)

  -- Of the checks that are made at one non-zero time deduplicateChecks leaves exactly the last.
  pub deduplicate_keeps_last :
      (l : List Check)
      → (find (is_at t) (deduplicate_checks l) ≡ last_at t none l)
        × (count_at t (deduplicate_checks l) ≤ 1)
  unfolding deduplicate_checks
  deduplicate_keeps_last l = place_all_keeps [] l (ground arith)
