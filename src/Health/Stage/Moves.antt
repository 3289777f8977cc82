-- ===== src/Health/Stage/Moves.antt =====
-- internal/health/health.go: the moves of `transitionStage` as a step relation.
use sub2api_account_schedule.Base.{
  ℕ, ◌≡◌, ◌⊎◌, inl, inr, refl, &&-true, Bool, true, false, not, ◌&&◌, ◌||◌, Option, none,
  if◌then◌else◌, arith,
}
use sub2api_account_schedule.Health.Settings.{Settings}
use sub2api_account_schedule.Health.Stage.{
  HealthStage, healthy, watch, degraded, quarantined, recovering_25, recovering_50, frozen,
  other_stage, same_stage, RecoveryResult, StageState, at_stage, first_transition, trial_elapsed,
  quarantine, leave_quarantine, continue_trial, transition_stage,
}

-- A stage of the ordinary operation, outside the quarantine and the trials.
abbrev pub is_ordinary : HealthStage → Bool
is_ordinary quarantined = false
is_ordinary recovering_25 = false
is_ordinary recovering_50 = false
is_ordinary _ = true

-- A test for one of the stages tells which it is.
is_quarantined-eq : (c : HealthStage) → same_stage c quarantined ≡ true → c ≡ quarantined
is_quarantined-eq c h = ground arith

is_healthy-eq : (c : HealthStage) → same_stage c healthy ≡ true → c ≡ healthy
is_healthy-eq c h = ground arith

is_watch-eq : (c : HealthStage) → same_stage c watch ≡ true → c ≡ watch
is_watch-eq c h = ground arith

is_degraded-eq : (c : HealthStage) → same_stage c degraded ≡ true → c ≡ degraded
is_degraded-eq c h = ground arith

or-true : (a b : Bool) → (a || b) ≡ true → (a ≡ true) ⊎ (b ≡ true)
or-true a b h = ground (arith, h)

one_missing : (a b : Bool) → (not a || not b) ≡ true → (a && b) ≡ false
one_missing a b h = ground (arith, h)

healthy-better :
    (c : HealthStage)
    → c ≡ healthy
    → (b : Bool) → (b && (same_stage c watch || same_stage c degraded)) ≡ false
healthy-better c h b = rw h (and_false b)
  where
    and_false :
        (b : Bool) → (b && (same_stage healthy watch || same_stage healthy degraded)) ≡ false
    and_false true = refl
    and_false false = refl

both_false : (a b : Bool) → (not a || not b) ≡ false → (a ≡ true) × (b ≡ true)
both_false a b h = ground (arith, h)

module _ (candidate : HealthStage) (eligible is_new elapsed : Bool) where
  -- The moves that the staged recovery permits from one stage to the next, with what each needs.
  pub data Move : HealthStage → HealthStage → Type 0 where
    -- A candidate for the quarantine is quarantined from everywhere.
    isolate : (s : HealthStage) → candidate ≡ quarantined → Move s quarantined
    -- The quarantine is left for the first trial only, by a healthy candidate that may recover.
    begin_trial : candidate ≡ healthy → eligible ≡ true → Move quarantined recovering_25
    -- It stays while there is no such candidate.
    stay_quarantined :
        same_stage candidate quarantined ≡ false
        → (same_stage candidate healthy && eligible) ≡ false
        → Move quarantined quarantined
    -- The trials end one after the other, with a new observation, after their time.
    raise_trial :
        candidate ≡ healthy
        → eligible ≡ true
        → is_new ≡ true
        → elapsed ≡ true
        → Move recovering_25 recovering_50
    complete_trial :
        candidate ≡ healthy
        → eligible ≡ true
        → is_new ≡ true
        → elapsed ≡ true
        → Move recovering_50 healthy
    -- A trial goes on without a candidate for the quarantine, while something is missing for its end.
    stay_25 :
        same_stage candidate quarantined ≡ false
        → ((same_stage candidate healthy && eligible) ≡ false) ⊎ ((is_new && elapsed) ≡ false)
        → Move recovering_25 recovering_25
    stay_50 :
        same_stage candidate quarantined ≡ false
        → (same_stage candidate watch || same_stage candidate degraded) ≡ false
        → ((same_stage candidate healthy && eligible) ≡ false) ⊎ ((is_new && elapsed) ≡ false)
        → Move recovering_50 recovering_50
    lower_trial : (candidate ≡ watch) ⊎ (candidate ≡ degraded) → Move recovering_50 recovering_25
    -- Otherwise the candidate is taken.
    follow : (s : HealthStage) → is_ordinary s ≡ true → Move s candidate

  if-Move :
      (b : Bool) (s : HealthStage) (x y : StageState)
      → (b ≡ true → Move s x.stage)
      → (b ≡ false → Move s y.stage)
      → Move s (if b then x else y).stage
  if-Move true s x y h k = h refl
  if-Move false s x y h k = k refl

module _ (candidate : HealthStage) (severe : Bool) (recovery : RecoveryResult) (settings : Settings)
    (now : ℕ) (is_new : Bool) where
  -- The moves from a state at this time.
  abbrev MoveFrom : StageState → HealthStage → HealthStage → Type 0
  MoveFrom previous =
      Move candidate recovery.eligible is_new
        (trial_elapsed settings now (first_transition previous now))

  module _ (previous : StageState) where
    choose :
        (b : Bool) (s : HealthStage) (x y : StageState)
        → (b ≡ true → MoveFrom previous s x.stage)
        → (b ≡ false → MoveFrom previous s y.stage)
        → MoveFrom previous s (if b then x else y).stage
    choose =
        if-Move candidate recovery.eligible is_new
          (trial_elapsed settings now (first_transition previous now))

    -- The test on the candidate comes first.
    unless_isolated :
        (s : HealthStage) (rest : StageState)
        → (same_stage candidate quarantined ≡ false → MoveFrom previous s rest.stage)
        → MoveFrom previous s
            (if same_stage candidate quarantined
              then quarantine previous severe settings now is_new
              else rest).stage
    unless_isolated s rest h =
        choose (same_stage candidate quarantined) s _ _
          (λ e.
            choose (not (same_stage previous.stage quarantined) || (severe && is_new)) s _ _
              (λ _. isolate s (is_quarantined-eq candidate e))
              (λ _. isolate s (is_quarantined-eq candidate e)))
          h

    leave_quarantine-Move :
        same_stage candidate quarantined ≡ false
        → MoveFrom previous quarantined (leave_quarantine previous candidate recovery now).stage
    leave_quarantine-Move q =
        choose (same_stage candidate healthy && recovery.eligible) quarantined _ _
          (λ e.
            let both = &&-true (same_stage candidate healthy) recovery.eligible e in
            begin_trial (is_healthy-eq candidate both.0) both.1)
          (λ e. stay_quarantined q e)

    -- What an unfinished trial leads to, and a finished one.
    continue_trial-Move :
        (s : HealthStage)
        → ((same_stage previous.stage recovering_50
                && (same_stage candidate watch || same_stage candidate degraded))
              ≡ false
            → ((same_stage candidate healthy && recovery.eligible) ≡ false)
              ⊎ ((is_new && trial_elapsed settings now (first_transition previous now)) ≡ false)
            → MoveFrom previous s previous.stage)
        → (same_stage previous.stage recovering_50 ≡ true
            → (candidate ≡ watch) ⊎ (candidate ≡ degraded)
            → MoveFrom previous s recovering_25)
        → (candidate ≡ healthy
            → recovery.eligible ≡ true
            → is_new ≡ true
            → trial_elapsed settings now (first_transition previous now) ≡ true
            → MoveFrom previous s
                (if same_stage previous.stage recovering_25 then recovering_50 else healthy))
        → MoveFrom previous s (continue_trial previous candidate recovery settings now is_new).stage
    continue_trial-Move s stay lower finish =
        choose (not (same_stage candidate healthy) || not recovery.eligible) s _ _
          (λ m.
            choose
              (same_stage previous.stage recovering_50
                && (same_stage candidate watch || same_stage candidate degraded))
              s _ _
              (λ e.
                let both =
                  &&-true (same_stage previous.stage recovering_50)
                    (same_stage candidate watch || same_stage candidate degraded) e in
                lower both.0 (either both.1))
              (λ w. stay w (inl (one_missing (same_stage candidate healthy) recovery.eligible m))))
          (λ e.
            choose (not is_new || not (trial_elapsed settings now (first_transition previous now)))
              s _ _
              (λ n.
                let may = both_false (same_stage candidate healthy) recovery.eligible e in
                stay
                  (healthy-better candidate (is_healthy-eq candidate may.0)
                    (same_stage previous.stage recovering_50))
                  (inr (
                    one_missing is_new (trial_elapsed settings now (first_transition previous now))
                      n)))
              (λ n.
                let may = both_false (same_stage candidate healthy) recovery.eligible e in
                let ready =
                  both_false is_new (trial_elapsed settings now (first_transition previous now))
                    n in
                last (same_stage previous.stage recovering_25)
                  (finish (is_healthy-eq candidate may.0) may.1 ready.0 ready.1)))
      where
        either :
            (same_stage candidate watch || same_stage candidate degraded) ≡ true
            → (candidate ≡ watch) ⊎ (candidate ≡ degraded)
        either e = elim (or-true (same_stage candidate watch) (same_stage candidate degraded) e) [
          | inl h ↦ inl (is_watch-eq candidate h)
          | inr h ↦ inr (is_degraded-eq candidate h)
        ]

        last :
            (b : Bool)
            → MoveFrom previous s (if b then recovering_50 else healthy)
            → MoveFrom previous s
                (if b then at_stage recovering_50 now none else at_stage healthy now none).stage
        last true h = h
        last false h = h

  -- The move from an ordinary stage.
  follow-Move :
      (s : HealthStage) (at : ℕ) (hold : Option ℕ)
      → is_ordinary s ≡ true
      → same_stage s quarantined ≡ false
      → (same_stage s recovering_25 || same_stage s recovering_50) ≡ false
      → MoveFrom
          (at_stage s at hold)
          s
          (transition_stage
            (at_stage s at hold)
            candidate
            severe
            recovery
            settings
            now
            is_new).stage
  unfolding transition_stage
  follow-Move s at hold ordinary q r =
      unless_isolated (at_stage s at hold) s _ (λ _. rw q (rw r (follow s ordinary)))

  stage-Move :
      (s : HealthStage) (at : ℕ) (hold : Option ℕ)
      → MoveFrom
          (at_stage s at hold)
          s
          (transition_stage
            (at_stage s at hold)
            candidate
            severe
            recovery
            settings
            now
            is_new).stage
  unfolding transition_stage
  stage-Move quarantined at hold =
      unless_isolated (at_stage quarantined at hold) quarantined _
        (leave_quarantine-Move (at_stage quarantined at hold))
  stage-Move recovering_25 at hold =
      unless_isolated (at_stage recovering_25 at hold) recovering_25 _ (λ q.
        continue_trial-Move (at_stage recovering_25 at hold) recovering_25 (λ w m. stay_25 q m)
          (λ e _. ground (arith, e)) raise_trial)
  stage-Move recovering_50 at hold =
      unless_isolated (at_stage recovering_50 at hold) recovering_50 _ (λ q.
        continue_trial-Move (at_stage recovering_50 at hold) recovering_50 (λ w m. stay_50 q w m)
          (λ _ h. lower_trial h) complete_trial)
  stage-Move healthy at hold = follow-Move healthy at hold refl refl refl
  stage-Move watch at hold = follow-Move watch at hold refl refl refl
  stage-Move degraded at hold = follow-Move degraded at hold refl refl refl
  stage-Move frozen at hold = follow-Move frozen at hold refl refl refl
  stage-Move (other_stage t) at hold = follow-Move (other_stage t) at hold refl refl refl

-- Every transition is a move of the staged recovery: a candidate for the quarantine is isolated from
-- every stage; without one, the quarantine is left exactly by a healthy candidate that may recover,
-- and only for the first trial; a trial is raised or completed exactly by a healthy candidate that
-- may recover, with a new observation, once its time has elapsed; the second trial falls back to the
-- first exactly for a candidate of watch or degraded; otherwise a trial goes on; and outside the
-- quarantine and the trials the stage follows the candidate.
pub transition_stage-Move :
    (previous : StageState) (candidate : HealthStage) (severe : Bool) (recovery : RecoveryResult)
    (settings : Settings) (now : ℕ) (is_new : Bool)
    → Move candidate recovery.eligible is_new
        (trial_elapsed settings now (first_transition previous now))
        previous.stage
        (transition_stage previous candidate severe recovery settings now is_new).stage
transition_stage-Move previous candidate severe recovery settings now is_new =
    stage-Move candidate severe recovery settings now is_new previous.stage
      previous.last_transition_at previous.hold_until
