-- ===== src/Health/Window.antt =====
-- internal/health/v3.go: the result of a decision, and what is counted in a window of checks.
use sub2api_account_schedule.Base.{
  ℕ, zero, suc, ◌-◌, ◌==◌, Bool, true, false, not, ◌&&◌, List, [], ◌∷◌, Text, ltb, leb,
  if◌then◌else◌, length,
}
use sub2api_account_schedule.Base.Int.{ℤ, pos, ltb_ℤ}
use sub2api_account_schedule.Health.Floats.{Floats, lit, percent}
use sub2api_account_schedule.Health.Classify.{
  SignalClass, operational, performance_slow, credential_failure, infrastructure_failure,
  capacity_limited, semantic_mismatch, client_error, model_unsupported, unknown, ClassifiedCheck,
}

pub data Recommendation : Type 0 where
  full reduce_80 reduce_50 reduce_25 pause_traffic : Recommendation

pub record DecisionReason : Type 0 where
  pub code : Text
  pub explanation : Text

pub record HardAvailability (f : Floats) : Type 0 where
  pub considered : ℕ
  pub successes : ℕ
  pub failures : ℕ
  pub success_rate : f.Float
  pub infrastructure_failures : ℕ
  pub capacity_failures : ℕ
  pub credential_failures : ℕ
  pub semantic_mismatches : ℕ
  pub client_errors_excluded : ℕ
  pub unsupported_models_excluded : ℕ
  pub consecutive_infrastructure : ℕ
  pub infrastructure_failures_last_10 : ℕ
  pub capacity_failures_last_10 : ℕ

-- `error_category_counts` reads 0 at a class that the map does not have.
pub record V3Result (f : Floats) : Type 0 where
  pub checks : List ClassifiedCheck
  pub availability : HardAvailability f
  pub quality_score : f.Float
  pub p90_latency_ms : ℤ
  pub latency_penalty : f.Float
  pub recommended_load : ℕ
  pub recommendation : Recommendation
  pub pause : Bool
  pub monitor_pause_suppressed : Bool
  pub real_traffic_success_rate : f.Float
  pub reasons : List DecisionReason
  pub hard_success_rate_10 : f.Float
  pub hard_success_rate_60 : f.Float
  pub degraded_rate_10 : f.Float
  pub degraded_rate_60 : f.Float
  pub traffic_success_rate : f.Float
  pub traffic_sample_count : ℤ
  pub hard_failure_streak : ℕ
  pub hard_failures_10 : ℕ
  pub suggested_load_percent : ℕ
  pub action : Recommendation
  pub disagreement : Bool
  pub response_p90_ms : ℤ
  pub baseline_latency_ms : f.Float
  pub reason_codes : List Text
  pub error_category_counts : SignalClass → ℕ
  pub checked_at : ℕ

abbrev pub is_class : SignalClass → SignalClass → Bool
is_class operational operational = true
is_class performance_slow performance_slow = true
is_class credential_failure credential_failure = true
is_class infrastructure_failure infrastructure_failure = true
is_class capacity_limited capacity_limited = true
is_class semantic_mismatch semantic_mismatch = true
is_class client_error client_error = true
is_class model_unsupported model_unsupported = true
is_class unknown unknown = true
is_class _ _ = false

unfoldable pub count_class : List ClassifiedCheck → SignalClass → ℕ
count_class [] k = 0
count_class (c ∷ l) k = let rest = count_class l k in if is_class c.class k then suc rest else rest

-- `trailingClassCount`: the run of the class at the end, which is the whole of it or is later.
unfoldable pub trailing_class_count : List ClassifiedCheck → SignalClass → ℕ
trailing_class_count [] k = 0
trailing_class_count (c ∷ l) k =
    let rest = trailing_class_count l k in
    if is_class c.class k && rest == length l then suc rest else rest

unfoldable pub drop : ℕ → List ClassifiedCheck → List ClassifiedCheck
drop zero l = l
drop (suc n) [] = []
drop (suc n) (c ∷ l) = drop n l

-- The last checks, at most as many as asked for.
unfoldable pub classified_window : ℕ → List ClassifiedCheck → List ClassifiedCheck
unfolding drop
classified_window size l = if leb (length l) size then l else drop (length l - size) l

unfoldable pub count_if : (ClassifiedCheck → Bool) → List ClassifiedCheck → ℕ
count_if p [] = 0
count_if p (c ∷ l) = let rest = count_if p l in if p c then suc rest else rest

abbrev pub considered_count : List ClassifiedCheck → ℕ
considered_count = count_if (λ c. c.counted_in_availability)

unfoldable pub latest_is : SignalClass → List ClassifiedCheck → Bool
latest_is k [] = false
latest_is k (c ∷ []) = is_class c.class k
latest_is k (c ∷ d ∷ l) = latest_is k (d ∷ l)

-- The latencies of the answered requests.
unfoldable pub latencies : List ClassifiedCheck → List ℤ
latencies [] = []
latencies (c ∷ l) =
    let rest = latencies l in
    if c.availability_success && ltb_ℤ (pos 0) c.check.latency_ms
    then c.check.latency_ms ∷ rest
    else rest

unfoldable pub latest_time : ℕ → List ClassifiedCheck → ℕ
latest_time at [] = at
latest_time at (c ∷ l) =
    latest_time (if ltb at c.check.checked_at then c.check.checked_at else at) l

module _ (f : Floats) where
  unfoldable pub rate_of : (ClassifiedCheck → Bool) → List ClassifiedCheck → f.Float
  unfolding count_if
  rate_of p l =
      if considered_count l == 0
      then lit f 0
      else percent f (count_if (λ c. c.counted_in_availability && p c) l) (considered_count l)

  -- `hardSuccessRate` and `classRate`
  abbrev pub hard_success_rate : List ClassifiedCheck → f.Float
  hard_success_rate = rate_of (λ c. c.availability_success)

  abbrev pub class_rate : SignalClass → List ClassifiedCheck → f.Float
  class_rate k = rate_of (λ c. is_class c.class k)

  -- The counters of the loop over the checks, and what follows it.
  unfoldable pub availability_of : List ClassifiedCheck → HardAvailability f
  unfolding count_if count_class trailing_class_count classified_window rate_of
  availability_of l =
      let last = classified_window 10 l in
      record {
        considered = considered_count l;
        successes = count_if (λ c. c.counted_in_availability && c.availability_success) l;
        failures = count_if (λ c. c.counted_in_availability && not c.availability_success) l;
        success_rate = hard_success_rate l;
        infrastructure_failures = count_class l infrastructure_failure;
        capacity_failures = count_class l capacity_limited;
        credential_failures = count_class l credential_failure;
        semantic_mismatches = count_class l semantic_mismatch;
        client_errors_excluded = count_class l client_error;
        unsupported_models_excluded = count_class l model_unsupported;
        consecutive_infrastructure = trailing_class_count l infrastructure_failure;
        infrastructure_failures_last_10 = count_class last infrastructure_failure;
        capacity_failures_last_10 = count_class last capacity_limited;
      }
