-- ===== src/Health/Evaluate/Load.antt =====
-- internal/health/v3.go: the load and the pause that a window of checks leads to.
use mathlib.Core.Path.{subst}
use sub2api_account_schedule.Base.{
  ℕ, ◌≡◌, refl, sym, ◌==◌, Bool, true, false, not, ◌&&◌, ◌||◌, List, [], ◌∷◌, Text, codes, ltb, leb,
  if◌then◌else◌, arith,
}
use sub2api_account_schedule.Health.Floats.{Floats}
use sub2api_account_schedule.Health.Classify.{
  ClassifiedCheck, credential_failure, semantic_mismatch,
}
use sub2api_account_schedule.Health.Policy.{V3Input, V3Policy, success_rate}
use sub2api_account_schedule.Health.Window.{
  Recommendation, DecisionReason, full, pause_traffic, HardAvailability, V3Result, count_class,
  classified_window, latest_is, availability_of,
}
use sub2api_account_schedule.Health.Evaluate.{
  is_persistently_slow, limit_load, has_enough_traffic, has_failure_streak, monitor_wants_pause,
  decide_pause, observe_mismatch, explain_healthy,
}
use sub2api_account_schedule.Health.Quality.{add_reason, cap_name, cap_load, cap_if, pause_load}

-- The name of a load.
abbrev pub named : ℕ → Recommendation
named load = if load == 100 then full else if load == 0 then pause_traffic else cap_name load

-- A limit where it applies.
abbrev pub capped : Bool → ℕ → ℕ → ℕ
capped b limit load = if b && ltb limit load then limit else load

-- The lowest of the limits that apply, or 100.
abbrev pub lowest : List (Bool × ℕ) → ℕ
lowest [] = 100
lowest ((b, limit) ∷ l) = capped b limit (lowest l)

module _ (f : Floats) (policy : V3Policy f) (input : V3Input f) (l : List ClassifiedCheck) where
  -- Real traffic that is enough and healthy speaks against the monitor.
  abbrev pub is_traffic_healthy : Bool
  is_traffic_healthy =
      has_enough_traffic f policy input
      && f.at_most policy.traffic_healthy_at (success_rate f input.real_traffic)

  -- When an account is paused, with what is counted of its checks.
  abbrev pub pauses : HardAvailability f → Bool
  pauses a =
      latest_is credential_failure l
      || ((has_enough_traffic f policy input
            && f.below (success_rate f input.real_traffic) policy.traffic_pause_below)
          || (monitor_wants_pause f policy a && not is_traffic_healthy))

  abbrev pub quality_load : f.Float → ℕ
  quality_load score =
      if f.at_most policy.quality_full_at score
      then 100
      else if f.at_most policy.quality_reduce_80_at score
      then 80
      else if f.at_most policy.quality_reduce_50_at score
      then 50
      else 25

  -- The limits before a pause is considered, with the counts of the last ten checks.
  abbrev pub limits : HardAvailability f → f.Float → List (Bool × ℕ)
  limits a score =
      (is_persistently_slow f policy l, 80)
      ∷ (leb 2 a.capacity_failures_last_10, 25)
      ∷ (leb 1 a.capacity_failures_last_10, 50)
      ∷ (leb 2 a.infrastructure_failures_last_10, 25)
      ∷ (leb 1 a.infrastructure_failures_last_10, 50)
      ∷ (true, quality_load score)
      ∷ []

  -- All limits of an account that is not paused.
  abbrev pub all_limits : f.Float → List (Bool × ℕ)
  all_limits score =
      (ltb 0 (count_class (classified_window 10 l) semantic_mismatch) && not is_traffic_healthy, 80)
      ∷ (monitor_wants_pause f policy (availability_of f l), 25)
      ∷ limits (availability_of f l) score

  -- The result says whether it pauses, its load and the name of it follow, and its counts and its
  -- score are known.
  pub record HasLoad (score : f.Float) (paused : Bool) (limit : ℕ) (r : V3Result f) : Type 0 where
    pub pause : r.pause ≡ paused
    pub load : r.recommended_load ≡ (if paused then 0 else limit)
    pub name : r.recommendation ≡ named (if paused then 0 else limit)
    pub availability : r.availability ≡ availability_of f l
    pub quality : r.quality_score ≡ score

  module _ (score : f.Float) where
    -- A limit has a name.
    abbrev IsNamed : ℕ → Type 0
    IsNamed m = named m ≡ cap_name m

    cap_load-HasLoad :
        (m : ℕ) (code why : Text) (p : Bool) (q : ℕ) (r : V3Result f)
        → IsNamed m
        → HasLoad score p q r
        → HasLoad score p (capped true m q) (cap_load f m code why r)
    unfolding cap_load
    cap_load-HasLoad m code why true q r e h = record {
      pause = ground (arith, h.pause);
      load = ground (arith, h.pause, h.load);
      name = ground (arith, h.pause, h.name);
      availability = ground (arith, h.availability);
      quality = ground (arith, h.quality);
    }
    cap_load-HasLoad m code why false q r e h = record {
      pause = ground (arith, h.pause);
      load = ground (arith, h.pause, h.load);
      name = ground (arith, h.pause, h.name, h.load, e);
      availability = ground (arith, h.availability);
      quality = ground (arith, h.quality);
    }

    cap_if-HasLoad :
        (b : Bool) (m : ℕ) (code why : Text) (p : Bool) (q : ℕ) (r : V3Result f)
        → IsNamed m
        → HasLoad score p q r
        → HasLoad score p (capped b m q) (cap_if f b m code why r)
    cap_if-HasLoad true m code why p q r e h = cap_load-HasLoad m code why p q r e h
    cap_if-HasLoad false m code why p q r e h = h

    pause_load-HasLoad :
        (code why : Text) (q k : ℕ) (r : V3Result f)
        → HasLoad score false q r
        → HasLoad score true k (pause_load f code why r)
    unfolding pause_load
    pause_load-HasLoad code why q k r h = record {
      pause = refl;
      load = refl;
      name = refl;
      availability = h.availability;
      quality = h.quality;
    }

    -- The limits that the recent failures, refusals and slow results set.
    pub limit_load-HasLoad :
        (r : V3Result f)
        → HasLoad score false (lowest ((true, quality_load score) ∷ [])) r
        → HasLoad score false
            (lowest (limits (availability_of f l) score))
            (limit_load f policy l r)
    unfolding limit_load
    limit_load-HasLoad r h =
        subst (λ a. HasLoad score false (lowest (limits a score)) (limit_load f policy l r))
          h.availability
          (cap_if-HasLoad (is_persistently_slow f policy l) 80 _ _ false _ _ refl (
            cap_if-HasLoad (leb 2 r.availability.capacity_failures_last_10) 25 _ _ false _ _ refl (
              cap_if-HasLoad (leb 1 r.availability.capacity_failures_last_10) 50 _ _ false _ _ refl
                (cap_if-HasLoad (leb 2 r.availability.infrastructure_failures_last_10) 25 _ _ false
                  _ _ refl
                  (cap_if-HasLoad (leb 1 r.availability.infrastructure_failures_last_10) 50 _ _
                    false _ _ refl h)))))

    if-HasLoad :
        (b p : Bool) (k : ℕ) {x y : V3Result f}
        → HasLoad score p k x
        → HasLoad score p k y
        → HasLoad score p k (if b then x else y)
    if-HasLoad true p k h i = h
    if-HasLoad false p k h i = i

    -- A pause that a test decides, and one of two outcomes for a test.
    paused_or :
        (b p : Bool) (k : ℕ) {x y : V3Result f}
        → HasLoad score true k x
        → HasLoad score p k y
        → HasLoad score (b || p) k (if b then x else y)
    paused_or true p k h i = h
    paused_or false p k h i = i

    unless_paused :
        (b : Bool) (k : ℕ) {x y : V3Result f}
        → HasLoad score false k x
        → HasLoad score true k y
        → HasLoad score (not b) k (if b then x else y)
    unless_paused true k h i = h
    unless_paused false k h i = i

    only_if :
        (b p : Bool) (m k : ℕ) {x y : V3Result f}
        → HasLoad score p (capped true m k) x
        → HasLoad score false k y
        → HasLoad score (b && p) (capped b m k) (if b then x else y)
    only_if true p m k h i = h
    only_if false p m k h i = i

    abbrev with_rate : V3Result f → V3Result f
    with_rate r = record r { real_traffic_success_rate = success_rate f input.real_traffic }

    with_rate-HasLoad :
        (k : ℕ) (r : V3Result f) → HasLoad score false k r → HasLoad score false k (with_rate r)
    with_rate-HasLoad k r h = record {
      pause = h.pause;
      load = h.load;
      name = h.name;
      availability = h.availability;
      quality = h.quality;
    }

    abbrev suppressed : V3Result f → V3Result f
    suppressed r = record (with_rate r) { monitor_pause_suppressed = true }

    suppressed-HasLoad :
        (k : ℕ) (r : V3Result f) → HasLoad score false k r → HasLoad score false k (suppressed r)
    suppressed-HasLoad k r h = record {
      pause = h.pause;
      load = h.load;
      name = h.name;
      availability = h.availability;
      quality = h.quality;
    }

    add_reason-HasLoad :
        (code why : Text) (p : Bool) (k : ℕ) (r : V3Result f)
        → HasLoad score p k r
        → HasLoad score p k (add_reason f code why r)
    add_reason-HasLoad code why p k r h = record {
      pause = h.pause;
      load = h.load;
      name = h.name;
      availability = h.availability;
      quality = h.quality;
    }

    pub decide_pause-HasLoad :
        (k : ℕ) (r : V3Result f)
        → HasLoad score false k r
        → HasLoad score
            (pauses (availability_of f l))
            (capped (monitor_wants_pause f policy (availability_of f l)) 25 k)
            (decide_pause f policy input l r)
    unfolding decide_pause
    decide_pause-HasLoad k r h =
        let known = with_rate-HasLoad k r h in
        subst
          (λ a.
            HasLoad score (pauses a) (capped (monitor_wants_pause f policy a) 25 k)
              (decide_pause f policy input l r))
          h.availability
          (paused_or (latest_is credential_failure l) _ _
            (pause_load-HasLoad _ _ k _ (with_rate r) known)
            (paused_or
              (has_enough_traffic f policy input
                && f.below (success_rate f input.real_traffic) policy.traffic_pause_below)
              _ _ (pause_load-HasLoad _ _ k _ (with_rate r) known)
              (only_if (monitor_wants_pause f policy r.availability) _ 25 k
                (unless_paused is_traffic_healthy _
                  (cap_load-HasLoad 25 _ _ false k (suppressed r) refl (suppressed-HasLoad k r h))
                  (if-HasLoad (has_failure_streak f policy r.availability) true _
                    (pause_load-HasLoad _ _ k _ (with_rate r) known)
                    (pause_load-HasLoad _ _ k _ (with_rate r) known)))
                known)))

    any_limit : (k m : ℕ) (r : V3Result f) → HasLoad score true k r → HasLoad score true m r
    any_limit k m r h = record {
      pause = h.pause;
      load = h.load;
      name = h.name;
      availability = h.availability;
      quality = h.quality;
    }

    mismatch-HasLoad :
        (b t p : Bool) (k : ℕ) (r x y : V3Result f)
        → HasLoad score p k r
        → HasLoad score p k x
        → HasLoad score p (capped true 80 k) y
        → HasLoad score p
            (capped (b && not t) 80 k)
            (if not p && b then (if t then x else y) else r)
    mismatch-HasLoad b t true k r x y h i j = any_limit k _ r h
    mismatch-HasLoad false t false k r x y h i j = h
    mismatch-HasLoad true true false k r x y h i j = i
    mismatch-HasLoad true false false k r x y h i j = j

    pub observe_mismatch-HasLoad :
        (p : Bool) (k : ℕ) (r : V3Result f)
        → HasLoad score p k r
        → HasLoad score p
            (capped
              (ltb 0 (count_class (classified_window 10 l) semantic_mismatch)
                && not is_traffic_healthy)
              80
              k)
            (observe_mismatch f policy input l r)
    unfolding observe_mismatch
    observe_mismatch-HasLoad p k r h =
        let found = ltb 0 (count_class (classified_window 10 l) semantic_mismatch) in
        subst
          (λ q. HasLoad score p (capped (found && not is_traffic_healthy) 80 k) (
            if not q && found
            then (if is_traffic_healthy
                then add_reason f (codes "semantic_mismatch_overridden") (codes "内容校验异常，但真实业务流量健康")
                    r
                else cap_load f 80 (codes "semantic_mismatch_observe") (codes "内容校验异常仅进入观察，不作为暂停依据")
                    r)
            else r))
          (sym h.pause)
          (mismatch-HasLoad found is_traffic_healthy p k r _ _ h (add_reason-HasLoad _ _ p k r h)
            (cap_load-HasLoad 80 _ _ p k r refl h))

    pub explain_healthy-HasLoad :
        (p : Bool) (k : ℕ) (r : V3Result f)
        → HasLoad score p k r
        → HasLoad score p k (explain_healthy f r)
    explain_healthy-HasLoad p k r h = go r.reasons
      where
        go :
            (l : List DecisionReason)
            → HasLoad score p k
                (elim l [ [] ↦ add_reason f (codes "healthy") (codes "硬可用性与性能质量均正常") r | _ ↦ r ])
        go [] = add_reason-HasLoad _ _ p k r h
        go (d ∷ l) = h
