-- ===== src/Health/Evaluate/Verdict.antt =====
-- internal/health/v3.go: the verdict of `EvaluateV3` against a flat description of it.
use mathlib.Core.Path.{subst}
use sub2api_account_schedule.Base.{
  ◌≡◌, refl, sym, Bool, true, false, ◌&&◌, Option, none, some, List, [], ◌∷◌, Text, ltb,
  if◌then◌else◌, arith,
}
use sub2api_account_schedule.Base.Int.{pos, eq_ℤ}
use sub2api_account_schedule.Health.Floats.{Floats, lit}
use sub2api_account_schedule.Health.Classify.{ClassifiedCheck, performance_slow}
use sub2api_account_schedule.Health.Policy.{
  V3Input, V3Policy, normalize_v3_policy, long_term_penalty, percentile_90,
  absolute_latency_penalty, relative_latency_penalty,
}
use sub2api_account_schedule.Health.Window.{V3Result, count_class, latencies, availability_of}
use sub2api_account_schedule.Health.Evaluate.{
  limit_load, decide_pause, observe_mismatch, explain_healthy, finalize_v3_result, classified,
  evaluate_v3,
}
use sub2api_account_schedule.Health.Quality.{
  add_reason, first_result, lower_quality, penalize_latency, penalize_slow, penalize_long_term,
  clamp_quality, set_load_from_quality, quality_result,
}
use sub2api_account_schedule.Health.Evaluate.Load.{
  HasLoad, lowest, quality_load, all_limits, pauses, limit_load-HasLoad, decide_pause-HasLoad,
  observe_mismatch-HasLoad, explain_healthy-HasLoad,
}

module _ (f : Floats) (policy : V3Policy f) (input : V3Input f) (l : List ClassifiedCheck) where
  -- What the quality's steps leave alone.
  pub record IsFresh (r : V3Result f) : Type 0 where
    pub pause : r.pause ≡ false
    pub availability : r.availability ≡ availability_of f l

  if-IsFresh : (b : Bool) {x y : V3Result f} → IsFresh x → IsFresh y → IsFresh (if b then x else y)
  if-IsFresh true h i = h
  if-IsFresh false h i = i

  set_load_from_quality-HasLoad :
      (r : V3Result f)
      → IsFresh r
      → HasLoad f policy input l r.quality_score false
          (lowest ((true, quality_load f policy input l r.quality_score) ∷ []))
          (set_load_from_quality f policy r)
  unfolding set_load_from_quality
  set_load_from_quality-HasLoad r h = record {
    pause = ground (arith, h.pause);
    load = ground arith;
    name = ground arith;
    availability = ground (arith, h.availability);
    quality = ground arith;
  }

  lower_quality-IsFresh :
      (points : f.Float) (r : V3Result f) → IsFresh r → IsFresh (lower_quality f points r)
  lower_quality-IsFresh points r h = record { pause = h.pause; availability = h.availability }

  add_reason-IsFresh :
      (code why : Text) (r : V3Result f) → IsFresh r → IsFresh (add_reason f code why r)
  add_reason-IsFresh code why r h = record { pause = h.pause; availability = h.availability }

  penalize_latency-IsFresh :
      (r : V3Result f) → IsFresh r → IsFresh (penalize_latency f policy input r)
  penalize_latency-IsFresh r h =
      if-IsFresh
        (f.below (lit f 0) (
          f.max
            (absolute_latency_penalty f r.p90_latency_ms policy.latency_warning_ms
              policy.latency_critical_ms).0
            (relative_latency_penalty f r.p90_latency_ms input.baseline_latency_ms).0))
        (record { pause = h.pause; availability = h.availability })
        (record { pause = h.pause; availability = h.availability })

  penalize_slow-IsFresh : (r : V3Result f) → IsFresh r → IsFresh (penalize_slow f l r)
  penalize_slow-IsFresh r h =
      if-IsFresh (eq_ℤ r.p90_latency_ms (pos 0) && ltb 0 (count_class l performance_slow))
        (add_reason-IsFresh _ _ (lower_quality f (lit f 4) r) (lower_quality-IsFresh (lit f 4) r h))
        h

  penalize_long_term-IsFresh :
      (o : Option f.Float) (r : V3Result f) → IsFresh r → IsFresh (penalize_long_term f o r)
  penalize_long_term-IsFresh none r h = h
  penalize_long_term-IsFresh (some rate) r h =
      let p = long_term_penalty f rate in
      if-IsFresh (f.below (lit f 0) p)
        (add_reason-IsFresh _ _ (lower_quality f p r) (lower_quality-IsFresh p r h))
        (lower_quality-IsFresh p r h)

  clamp_quality-IsFresh : (r : V3Result f) → IsFresh r → IsFresh (clamp_quality f r)
  clamp_quality-IsFresh r h = record { pause = h.pause; availability = h.availability }

  -- The result before its load is set.
  abbrev scored : V3Result f
  scored = clamp_quality f (
      penalize_long_term f input.long_term_success_rate (
        penalize_slow f l
          (penalize_latency f policy input (first_result f l (percentile_90 (latencies l))))))

  scored-IsFresh : IsFresh scored
  scored-IsFresh = clamp_quality-IsFresh _ (
      penalize_long_term-IsFresh input.long_term_success_rate _ (
        penalize_slow-IsFresh _ (
          penalize_latency-IsFresh (first_result f l (percentile_90 (latencies l)))
            (record { pause = refl; availability = refl }))))

  quality_result-HasLoad :
      HasLoad f policy input l scored.quality_score false
        (lowest ((true, quality_load f policy input l scored.quality_score) ∷ []))
        (quality_result f policy input l)
  unfolding quality_result
  quality_result-HasLoad = set_load_from_quality-HasLoad scored scored-IsFresh

  -- The steps after the classification.
  abbrev decided : V3Result f
  decided = finalize_v3_result f input l (
      explain_healthy f (
        observe_mismatch f policy input l (
          decide_pause f policy input l (limit_load f policy l (quality_result f policy input l)))))

  abbrev Verdict : f.Float → V3Result f → Type 0
  Verdict score =
      HasLoad f policy input l score (pauses f policy input l (availability_of f l))
        (lowest (all_limits f policy input l score))

  finalize_v3_result-Verdict :
      (score : f.Float) (r : V3Result f)
      → Verdict score r
      → Verdict score (finalize_v3_result f input l r)
  unfolding finalize_v3_result
  finalize_v3_result-Verdict score r h = record {
    pause = h.pause;
    load = h.load;
    name = h.name;
    availability = h.availability;
    quality = h.quality;
  }

  decided-Verdict : Verdict decided.quality_score decided
  decided-Verdict =
      let score = scored.quality_score in
      let h : Verdict score decided = finalize_v3_result-Verdict score _ (
        explain_healthy-HasLoad f policy input l score _ _ _ (
          observe_mismatch-HasLoad f policy input l score _ _ _ (
            decide_pause-HasLoad f policy input l score _ _
              (limit_load-HasLoad f policy input l score _ quality_result-HasLoad)))) in
      subst (λ s. Verdict s decided) (sym h.quality) h

-- With its normalised thresholds, and the checks without repeated times classified, EvaluateV3
-- pauses exactly if the latest check rejects the credentials, or enough real traffic fails, or the
-- monitor's failures reach a threshold and no healthy real traffic speaks against them. A paused
-- result recommends a load of 0, any other the lowest of the limits that apply: that of the quality
-- score, 50 and 25 for one and two infrastructure failures or refusals in the last ten checks, 25
-- for a pause that real traffic suppresses, and 80 for persistent slowness or a mismatch that
-- nothing overrides. The recommendation is the name of the load.
pub evaluate_v3-HasLoad :
    (f : Floats) (input : V3Input f)
    → HasLoad f
        (normalize_v3_policy f input)
        input
        (classified f input)
        (evaluate_v3 f input).quality_score
        (pauses f
          (normalize_v3_policy f input)
          input
          (classified f input)
          (availability_of f (classified f input)))
        (lowest (
          all_limits f
            (normalize_v3_policy f input)
            input
            (classified f input)
            (evaluate_v3 f input).quality_score))
        (evaluate_v3 f input)
unfolding evaluate_v3
evaluate_v3-HasLoad f input =
    decided-Verdict f (normalize_v3_policy f input) input (classified f input)
