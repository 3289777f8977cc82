-- ===== src/Health/Evaluate/Bounds.antt =====
-- internal/health/v3.go: which loads are recommended, and when none is.
use sub2api_account_schedule.Base.{
  ℕ, zero, suc, ◌-◌, leb, not, ◌≡◌, ◌⊎◌, refl, ◌∙◌, ◌==◌, Bool, true, false, ◌&&◌, ◌||◌, List, [],
  ◌∷◌, All, if◌then◌else◌, arith, length,
}
use sub2api_account_schedule.Base.Int.{ℤ, pos, ltb_ℤ, leb_ℤ}
use sub2api_account_schedule.Health.Floats.{Floats}
use sub2api_account_schedule.Health.Classify.{
  SignalClass, ClassifiedCheck, credential_failure, infrastructure_failure,
}
use sub2api_account_schedule.Health.Policy.{
  V3Input, V3Policy, positive_or, normalize_v3_policy, success_rate,
}
use sub2api_account_schedule.Health.Window.{
  is_class, count_class, trailing_class_count, drop, classified_window, latest_is, availability_of,
}
use sub2api_account_schedule.Health.Evaluate.{
  classified, evaluate_v3, has_enough_traffic, monitor_wants_pause,
}
use sub2api_account_schedule.Health.Evaluate.Load.{
  capped, lowest, all_limits, pauses, is_traffic_healthy,
}
use sub2api_account_schedule.Health.Evaluate.Verdict.{evaluate_v3-HasLoad}

-- The loads that are recommended to an account that is not paused.
abbrev pub is_open_load : ℕ → Bool
is_open_load n = n == 25 || n == 50 || n == 80 || n == 100

capped-open :
    (b : Bool) (m n : ℕ)
    → is_open_load m ≡ true
    → is_open_load n ≡ true
    → is_open_load (capped b m n) ≡ true
capped-open b m n h k = ground (arith, h, k)

lowest-open :
    (l : List (Bool × ℕ)) → All (λ p. is_open_load p.1 ≡ true) l → is_open_load (lowest l) ≡ true
lowest-open [] h = refl
lowest-open ((b, m) ∷ l) h = capped-open b m (lowest l) h.0 (lowest-open l h.1)

module _ (f : Floats) where
  all_limits-open :
      (policy : V3Policy f) (input : V3Input f) (l : List ClassifiedCheck) (score : f.Float)
      → is_open_load (lowest (all_limits f policy input l score)) ≡ true
  all_limits-open policy input l score =
      lowest-open (all_limits f policy input l score)
        (refl, (refl, (refl, (refl, (refl, (refl, (refl, (ground arith, tt))))))))

  -- EvaluateV3 either pauses the account and recommends a load of 0, or does not pause it and
  -- recommends a load of 25, 50, 80 or 100.
  pub evaluate_v3_load :
      (input : V3Input f)
      → (((evaluate_v3 f input).pause ≡ true) × ((evaluate_v3 f input).recommended_load ≡ 0))
        ⊎ (((evaluate_v3 f input).pause ≡ false)
            × (is_open_load (evaluate_v3 f input).recommended_load ≡ true))
  evaluate_v3_load input =
      let h = evaluate_v3-HasLoad f input in
      let k =
        all_limits-open (normalize_v3_policy f input) input (classified f input)
          (evaluate_v3 f input).quality_score in
      ground (arith, h.pause, h.load, k)

-- No check of the class.
abbrev pub None : SignalClass → List ClassifiedCheck → Type 0
None k = All (λ c. is_class c.class k ≡ false)

count-None : (k : SignalClass) (l : List ClassifiedCheck) → None k l → count_class l k ≡ 0
unfolding count_class
count-None k [] h = refl
count-None k (c ∷ l) h = rw h.0 (count-None k l h.1)

trailing-None :
    (k : SignalClass) (l : List ClassifiedCheck) → None k l → trailing_class_count l k ≡ 0
unfolding trailing_class_count
trailing-None k [] h = refl
trailing-None k (c ∷ l) h = rw h.0 (trailing-None k l h.1)

drop-None : (k : SignalClass) (n : ℕ) (l : List ClassifiedCheck) → None k l → None k (drop n l)
unfolding drop
drop-None k zero l h = h
drop-None k (suc n) [] h = h
drop-None k (suc n) (c ∷ l) h = drop-None k n l h.1

window-None :
    (k : SignalClass) (n : ℕ) (l : List ClassifiedCheck) → None k l → None k (classified_window n l)
unfolding classified_window
window-None k n l h = go (leb (length l) n)
  where
    go : (b : Bool) → None k (if b then l else drop (length l - n) l)
    go true = h
    go false = drop-None k (length l - n) l h

latest-None : (k : SignalClass) (l : List ClassifiedCheck) → None k l → latest_is k l ≡ false
unfolding latest_is
latest-None k [] h = refl
latest-None k (c ∷ []) h = h.0
latest-None k (c ∷ d ∷ l) h = latest-None k (d ∷ l) h.1

positive_or-positive : (d v : ℤ) → ltb_ℤ (pos 0) d ≡ true → leb_ℤ (positive_or d v) (pos 0) ≡ false
positive_or-positive d v h = ground (arith, h)

zero_counts :
    (s w : ℤ) (m n : ℕ)
    → leb_ℤ s (pos 0) ≡ false
    → leb_ℤ w (pos 0) ≡ false
    → m ≡ 0
    → n ≡ 0
    → (leb_ℤ s (pos m) || leb_ℤ w (pos n)) ≡ false
zero_counts s w m n hs hw hm hn = ground (arith, hs, hw, hm, hn)

module _ (f : Floats) where
  wants_None :
      (policy : V3Policy f) (l : List ClassifiedCheck)
      → leb_ℤ policy.hard_failure_streak (pos 0) ≡ false
      → leb_ℤ policy.hard_failures_in_window (pos 0) ≡ false
      → None infrastructure_failure l
      → monitor_wants_pause f policy (availability_of f l) ≡ false
  unfolding availability_of
  wants_None policy l s w h =
      zero_counts policy.hard_failure_streak policy.hard_failures_in_window _ _ s w
        (trailing-None infrastructure_failure l h)
        (count-None infrastructure_failure (classified_window 10 l)
          (window-None infrastructure_failure 10 l h))

  no_pause :
      (cred enough low wants t : Bool)
      → cred ≡ false
      → enough ≡ false
      → wants ≡ false
      → (cred || ((enough && low) || (wants && not t))) ≡ false
  no_pause cred enough low wants t a b c = ground (arith, a, b, c)

  pauses-None :
      (policy : V3Policy f) (input : V3Input f) (l : List ClassifiedCheck)
      → leb_ℤ policy.hard_failure_streak (pos 0) ≡ false
      → leb_ℤ policy.hard_failures_in_window (pos 0) ≡ false
      → None infrastructure_failure l
      → None credential_failure l
      → has_enough_traffic f policy input ≡ false
      → pauses f policy input l (availability_of f l) ≡ false
  pauses-None policy input l s w h k e =
      no_pause (latest_is credential_failure l) (has_enough_traffic f policy input)
        (f.below (success_rate f input.real_traffic) policy.traffic_pause_below)
        (monitor_wants_pause f policy (availability_of f l)) (is_traffic_healthy f policy input l)
        (latest-None credential_failure l k) e (wants_None policy l s w h)

  streak-positive :
      (input : V3Input f) → leb_ℤ (normalize_v3_policy f input).hard_failure_streak (pos 0) ≡ false
  unfolding normalize_v3_policy
  streak-positive input = positive_or-positive (pos 3) input.hard_failure_streak refl

  window-positive :
      (input : V3Input f)
      → leb_ℤ (normalize_v3_policy f input).hard_failures_in_window (pos 0) ≡ false
  unfolding normalize_v3_policy
  window-positive input = positive_or-positive (pos 5) input.hard_failures_in_window refl

  -- Without an infrastructure failure and a rejected credential in the window, and without enough
  -- real traffic, EvaluateV3 does not pause the account, however slow its answers are.
  pub slow_never_pauses :
      (input : V3Input f)
      → None infrastructure_failure (classified f input)
      → None credential_failure (classified f input)
      → has_enough_traffic f (normalize_v3_policy f input) input ≡ false
      → (evaluate_v3 f input).pause ≡ false
  slow_never_pauses input h k e =
      (evaluate_v3-HasLoad f input).pause
      ∙ pauses-None (normalize_v3_policy f input) input (classified f input) (streak-positive input)
          (window-positive input) h k e
