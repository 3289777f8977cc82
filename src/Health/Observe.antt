-- ===== src/Health/Observe.antt =====
-- internal/health/health.go: the observations of a monitor.
pub mod Merge
use sub2api_account_schedule.Base.{
  ℕ, zero, suc, ◌+◌, ◌-◌, ◌*◌, ◌/◌, ◌%◌, ◌==◌, Bool, false, not, ◌&&◌, ◌||◌, Option, none, some,
  List, [], ◌∷◌, ◌++◌, Text, codes, text_eq, to_lower, trim, ltb, leb, if◌then◌else◌, length, sort,
  any, all, keep,
}
use sub2api_account_schedule.Base.Int.{ℤ, pos, pos_part, ltb_ℤ, wrap_int64, times}
use sub2api_account_schedule.Health.Floats.{Floats, lit}
use sub2api_account_schedule.Health.Policy.{value_at}
use sub2api_account_schedule.Health.Stage.{time_since}

pub record MonitorObservation (f : Floats) : Type 0 where
  pub monitor_id : ℤ
  pub checked_at : ℕ
  pub status : Text
  pub latency_ms : ℤ
  pub availability_7d : f.Float
  pub extra_ok : ℕ
  pub extra_degraded : ℕ
  pub extra_failed : ℕ
  pub decrypt_failed : Bool
  pub score : f.Float
  pub confidence : f.Float
  pub reason_json : Text
  pub created_at : ℕ

-- The fields of model.Monitor that the engine reads; of an extra model it reads the status.
pub record Monitor (f : Floats) : Type 0 where
  pub id : ℤ
  pub enabled : Bool
  pub interval_seconds : ℤ
  pub last_checked_at : Option ℕ
  pub primary_status : Text
  pub primary_latency_ms : ℤ
  pub availability_7d : Option f.Float
  pub extra_models : List Text
  pub extra_models_status : List Text
  pub decrypt_failed : Bool

-- `normalizedStatus`
abbrev pub normalized_status : Text → Text
normalized_status s = to_lower (trim s)

abbrev pub is_operational : Text → Bool
is_operational s = text_eq (normalized_status s) (codes "operational")

abbrev pub is_degraded : Text → Bool
is_degraded s = text_eq (normalized_status s) (codes "degraded")

abbrev pub is_failure : Text → Bool
is_failure s =
    text_eq (normalized_status s) (codes "failed") || text_eq (normalized_status s) (codes "error")

abbrev pub second : ℕ
second = 1000000000

abbrev pub minute : ℕ
minute = 60 * second

abbrev pub hour : ℕ
hour = 60 * minute

abbrev count_status : (Text → Bool) → List Text → ℕ
count_status p l = length (keep p l)

module _ (f : Floats) where
  abbrev pub half : f.Float
  half = f.divide (lit f 1) (lit f 2)

  -- `observationFromMonitor`; the time is that of the last check.
  unfoldable pub observation_from_monitor : Monitor f → ℕ → ℕ → MonitorObservation f
  observation_from_monitor m at now =
      let extra = m.extra_models ++ m.extra_models_status in
      record {
        monitor_id = m.id;
        checked_at = at;
        status = normalized_status m.primary_status;
        latency_ms = m.primary_latency_ms;
        availability_7d = elim m.availability_7d [ none ↦ lit f 0 | some a ↦ a ];
        extra_ok = count_status is_operational extra;
        extra_degraded = count_status is_degraded extra;
        extra_failed = count_status is_failure extra;
        decrypt_failed = m.decrypt_failed;
        score = lit f 0;
        confidence = lit f 0;
        reason_json = [];
        created_at = now;
      }

  -- `containsCheckedAt`
  abbrev pub contains_checked_at : List (MonitorObservation f) → ℕ → Bool
  contains_checked_at l at = any (λ o. o.checked_at == at) l

  -- An observation in a map by its time.
  unfoldable pub put :
      MonitorObservation f → List (MonitorObservation f) → List (MonitorObservation f)
  put o [] = o ∷ []
  put o (p ∷ l) = let rest = put o l in if p.checked_at == o.checked_at then o ∷ l else p ∷ rest

  unfoldable pub put_all :
      List (MonitorObservation f) → List (MonitorObservation f) → List (MonitorObservation f)
  unfolding put
  put_all m [] = m
  put_all m (o ∷ l) = put_all (put o m) l

  -- The history that is neither too old nor in the future.
  abbrev pub is_recent : ℕ → MonitorObservation f → Bool
  is_recent now o =
      not (ltb o.checked_at (now - 24 * hour)) && not (ltb (now + minute) o.checked_at)

  abbrev pub with_current :
      Option (MonitorObservation f) → List (MonitorObservation f) → List (MonitorObservation f)
  with_current none m = m
  with_current (some o) m = if o.checked_at == 0 then m else put o m

  abbrev pub is_before : MonitorObservation f → MonitorObservation f → Bool
  is_before o p = ltb o.checked_at p.checked_at

  -- `mergeObservations`; no current observation stands for one with the zero time. The map's order
  -- does not matter, since its entries are sorted by their keys.
  unfoldable pub merge_observations :
      List (MonitorObservation f) → Option (MonitorObservation f) → ℕ → List (MonitorObservation f)
  unfolding put put_all sort
  merge_observations history current now =
      sort is_before (with_current current (put_all [] (keep (is_recent now) history)))

  -- `availability`
  unfoldable pub availability_sum : ℕ → List (MonitorObservation f) → f.Float × ℕ → f.Float × ℕ
  availability_sum since [] (total, count) = (total, count)
  availability_sum since (o ∷ l) (total, count) = availability_sum since l (
      if ltb o.checked_at since
      then (total, count)
      else if is_operational o.status
      then (f.add total (lit f 1), count + 1)
      else if is_degraded o.status
      then (f.add total half, count + 1)
      else if is_failure o.status
      then (total, count + 1)
      else (total, count))

  unfoldable pub availability : List (MonitorObservation f) → ℕ → f.Float × ℕ
  unfolding availability_sum
  availability l since =
      let sum = availability_sum since l (lit f 0, 0) in
      if sum.1 == 0
      then (lit f 0, 0)
      else (f.multiply (f.divide sum.0 (lit f sum.1)) (lit f 100), sum.1)

  -- The latencies of the last day's operational observations.
  abbrev pub has_latency : ℕ → MonitorObservation f → Bool
  has_latency now o =
      not (ltb o.checked_at (now - 24 * hour))
      && not (ltb now o.checked_at)
      && is_operational o.status
      && ltb_ℤ (pos 0) o.latency_ms

  unfoldable pub baseline_latencies : ℕ → List (MonitorObservation f) → List ℤ
  baseline_latencies now [] = []
  baseline_latencies now (o ∷ l) =
      let rest = baseline_latencies now l in if has_latency now o then o.latency_ms ∷ rest else rest

  -- `latencyBaseline`: the median. The minimum is positive, so that the list is not empty, and the
  -- latencies are positive.
  unfoldable pub latency_baseline : List (MonitorObservation f) → ℕ → ℤ → f.Float × ℕ
  unfolding baseline_latencies value_at sort
  latency_baseline l now minimum =
      let values = baseline_latencies now l in
      let ordered = sort ltb_ℤ values in
      let count = length values in
      let middle = count / 2 in
      if ltb_ℤ (pos count) minimum
      then (lit f 0, count)
      else if count % 2 == 1
      then (f.of_int (value_at middle ordered), count)
      else (
        f.divide
            (f.of_int (
              wrap_int64 (
                pos
                  (pos_part (value_at (middle - 1) ordered) + pos_part (value_at middle ordered)))))
            (lit f 2),
        count,
      )

  -- The last observations, at most as many as asked for.
  unfoldable pub drop_first : ℕ → List (MonitorObservation f) → List (MonitorObservation f)
  drop_first zero l = l
  drop_first (suc n) [] = []
  drop_first (suc n) (o ∷ l) = drop_first n l

  abbrev pub last_observations : ℕ → List (MonitorObservation f) → List (MonitorObservation f)
  last_observations n l = drop_first (length l - n) l

  -- `consecutiveFailures` and `lowScores`
  unfoldable pub consecutive_failures : List (MonitorObservation f) → ℕ → Bool
  unfolding drop_first
  consecutive_failures l required =
      if ltb (length l) required
      then false
      else all (λ o. is_failure o.status) (last_observations required l)

  unfoldable pub low_scores : List (MonitorObservation f) → ℕ → ℕ → ℤ → Bool
  unfolding drop_first
  low_scores l window required threshold =
      leb required
        (length (keep (λ o. f.below o.score (f.of_int threshold)) (last_observations window l)))

  -- `frozenReason`: the empty text for none.
  unfoldable pub stale_after : ℤ → ℤ
  stale_after interval =
      let stale = wrap_int64 (times second (wrap_int64 (times 3 interval))) in
      if ltb_ℤ stale (pos (3 * minute)) then pos (3 * minute) else stale

  abbrev pub status_reason : Text → Text
  status_reason s =
      if is_operational s || is_degraded s || is_failure s then [] else codes "监控状态未知，保持账号现状"

  abbrev pub check_reason : Monitor f → ℕ → ℕ → Text
  check_reason m at now =
      if ltb_ℤ (stale_after m.interval_seconds) (time_since now at)
      then codes "监控结果长时间未更新，保持账号现状"
      else status_reason m.primary_status

  unfoldable pub frozen_reason : Monitor f → ℕ → Text
  unfolding stale_after time_since
  frozen_reason m now = if not m.enabled then codes "监控已关闭，保持账号现状" else elim m.last_checked_at [
    | none ↦ codes "监控暂无检测数据，保持账号现状"
    | some at ↦ check_reason m at now
  ]
