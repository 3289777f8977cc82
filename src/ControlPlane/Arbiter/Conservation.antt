-- ===== src/ControlPlane/Arbiter/Conservation.antt =====
-- internal/controlplane/arbiter.go: no intent is lost or counted twice by `Arbitrate`.
use sub2api_account_schedule.Base.{
  ℕ, ◌+◌, ◌≡◌, refl, Bool, true, false, Option, none, some, List, [], ◌∷◌, map, Text, arith, weigh,
  weigh-append, weigh-map, sort,
}
use sub2api_account_schedule.Base.SortLaws.{weigh-sort}
use sub2api_account_schedule.ControlPlane.Types.{ConflictKey, Invalid}
use sub2api_account_schedule.ControlPlane.Intent.{Intent, validate, conflict_key, expired}
use sub2api_account_schedule.ControlPlane.Arbiter.{
  ReasonCode, CandidateOutcome, ArbitrationResult, Bucket, update_bucket, Groups, append_active,
  screen_with, screen, ignore, ignore_all, settle_sorted, settle, settle_groups, candidate_wins,
  same_idempotent_semantics, id_lt, key_lt, group_lt, result_lt, sort_outcomes, supersede,
  result_of, decide_bucket, screened, settled, arbitrate, outcome, Detail, add_ignored,
  add_candidate, idempotency_conflict, duplicate,
}

module _ (w : Intent → ℕ) where
  abbrev outcome_weight : CandidateOutcome → ℕ
  outcome_weight o = w o.intent

  abbrev winner_weight : Option Intent → ℕ
  winner_weight none = 0
  winner_weight (some i) = w i

  -- The weight of all intents that a result reports on: winner, superseded and ignored.
  abbrev pub result_weight : ArbitrationResult → ℕ
  result_weight r =
      winner_weight r.winner + weigh outcome_weight r.superseded + weigh outcome_weight r.ignored

  abbrev bucket_weight : Bucket → ℕ
  bucket_weight b = weigh w b.candidates + weigh outcome_weight b.ignored

  abbrev group_weight : Text × List Intent → ℕ
  group_weight g = weigh w g.1

  weigh-update_bucket :
      (k : ConflictKey) (f : Bucket → Bucket) (n : ℕ) (l : List Bucket)
      → ((b : Bucket) → bucket_weight (f b) ≡ bucket_weight b + n)
      → weigh bucket_weight (update_bucket k f l) ≡ weigh bucket_weight l + n
  unfolding update_bucket
  weigh-update_bucket k f n [] grows =
      omega (arith, grows (record { key = k; candidates = []; ignored = [] }))
  weigh-update_bucket k f n (b ∷ l) grows =
      ground (arith, grows b, weigh-update_bucket k f n l grows)

  weigh-ignore :
      (i : Intent) (r : ReasonCode) (d : Detail) (l : List Bucket)
      → weigh bucket_weight (ignore i r d l) ≡ weigh bucket_weight l + w i
  weigh-ignore i r d l =
      weigh-update_bucket (conflict_key i) (add_ignored (outcome i r d)) (w i) l
        λ b. omega (arith, weigh-append outcome_weight b.ignored (outcome i r d ∷ []))

  weigh-append_active :
      (key : Text) (i : Intent) (g : Groups)
      → weigh group_weight (append_active key i g) ≡ weigh group_weight g + w i
  unfolding append_active
  weigh-append_active key i [] = omega arith
  weigh-append_active key i ((k, l) ∷ g) =
      ground (arith, weigh-append w l (i ∷ []), weigh-append_active key i g)

  abbrev state_weight : List Bucket × Groups → ℕ
  state_weight s = weigh bucket_weight s.0 + weigh group_weight s.1

  weigh-screen_with :
      (e : Option Invalid) (late : Bool) (i : Intent) (s : List Bucket × Groups)
      → state_weight (screen_with e late i s) ≡ state_weight s + w i
  weigh-screen_with (some e) late i (bs, gs) = omega (arith, weigh-ignore i _ _ bs)
  weigh-screen_with none true i (bs, gs) = omega (arith, weigh-ignore i _ _ bs)
  weigh-screen_with none false i (bs, gs) = omega (
    arith,
    weigh-update_bucket (conflict_key i) (λ b. b) 0 bs (λ b. omega arith),
    weigh-append_active i.idempotency_key i gs,
  )

  weigh-screen :
      (now : ℕ) (l : List Intent) (s : List Bucket × Groups)
      → state_weight (screen now l s) ≡ state_weight s + weigh w l
  unfolding screen
  weigh-screen now [] s = omega arith
  weigh-screen now (i ∷ l) s = omega (
    arith,
    weigh-screen now l (screen_with (validate i) (expired i now) i s),
    weigh-screen_with (validate i) (expired i now) i s,
  )

  weigh-ignore_all :
      (r : ReasonCode) (l : List Intent) (bs : List Bucket)
      → weigh bucket_weight (ignore_all r l bs) ≡ weigh bucket_weight bs + weigh w l
  unfolding ignore_all
  weigh-ignore_all r [] bs = omega arith
  weigh-ignore_all r (i ∷ l) bs =
      omega
        (arith, weigh-ignore_all r l (ignore i r Detail.fixed bs), weigh-ignore i r Detail.fixed bs)

  weigh-settle_sorted :
      (p : ℕ → Bool) (same : Bool) (l : List Intent) (bs : List Bucket)
      → weigh bucket_weight (settle_sorted p same l bs) ≡ weigh bucket_weight bs + weigh w l
  weigh-settle_sorted p true [] bs = omega arith
  weigh-settle_sorted p true (i ∷ l) bs = omega (
    arith,
    weigh-ignore_all duplicate l (update_bucket (conflict_key i) (add_candidate i) bs),
    weigh-update_bucket (conflict_key i) (add_candidate i) (w i) bs
        (λ b. omega (arith, weigh-append w b.candidates (i ∷ []))),
  )
  weigh-settle_sorted p false l bs = weigh-ignore_all idempotency_conflict l bs

module _ (w : Intent → ℕ) (p : ℕ → Bool) where
  weigh-settle_groups :
      (gs : Groups) (bs : List Bucket)
      → weigh (bucket_weight w) (settle_groups p gs bs)
        ≡ weigh (bucket_weight w) bs + weigh (group_weight w) gs
  unfolding settle_groups settle
  weigh-settle_groups [] bs = omega arith
  weigh-settle_groups ((k, l) ∷ gs) bs = omega (
    arith,
    weigh-settle_groups gs (settle p l bs),
    weigh-settle_sorted w p (same_idempotent_semantics p (sort (id_lt p) l)) (sort (id_lt p) l) bs,
    weigh-sort (id_lt p) w l,
  )

  weigh-supersede :
      (i : Intent) (l : List Intent) → weigh (outcome_weight w) (map (supersede p i) l) ≡ weigh w l
  weigh-supersede i l = weigh-map (outcome_weight w) (supersede p i) l

  weigh-sort_outcomes :
      (l : List CandidateOutcome)
      → weigh (outcome_weight w) (sort_outcomes p l) ≡ weigh (outcome_weight w) l
  unfolding sort_outcomes
  weigh-sort_outcomes l = weigh-sort _ (outcome_weight w) l

  weigh-result_of :
      (k : ConflictKey) (l : List Intent) (o : List CandidateOutcome)
      → result_weight w (result_of p k l o) ≡ weigh w l + weigh (outcome_weight w) o
  weigh-result_of k [] o = omega arith
  weigh-result_of k (i ∷ l) o =
      omega (arith, weigh-sort_outcomes (map (supersede p i) l), weigh-supersede i l)

  weigh-decide_bucket : (b : Bucket) → result_weight w (decide_bucket p b) ≡ bucket_weight w b
  unfolding decide_bucket
  weigh-decide_bucket b = omega (
    arith,
    weigh-result_of b.key (sort (candidate_wins p) b.candidates) (sort_outcomes p b.ignored),
    weigh-sort (candidate_wins p) w b.candidates,
    weigh-sort_outcomes b.ignored,
  )

  weigh-decide_buckets :
      (l : List Bucket)
      → weigh (result_weight w) (map (decide_bucket p) l) ≡ weigh (bucket_weight w) l
  weigh-decide_buckets [] = refl
  weigh-decide_buckets (b ∷ l) = omega (arith, weigh-decide_bucket b, weigh-decide_buckets l)

  weigh-settled :
      (now : ℕ) (l : List Intent) → weigh (bucket_weight w) (settled p now l) ≡ weigh w l
  unfolding settled screened
  weigh-settled now l =
      let s = screen now (sort (key_lt p) l) ([], []) in
      omega (
        arith,
        weigh-settle_groups (sort (group_lt p) s.1) s.0,
        weigh-sort (group_lt p) (group_weight w) s.1,
        weigh-screen w now (sort (key_lt p) l) ([], []),
        weigh-sort (key_lt p) w l,
      )

-- Arbitration reports on every intent exactly as often as it was given: for each way to weigh
-- intents, the winners, the superseded and the ignored of all results together weigh as much as
-- the intents.
pub arbitrate_conserves :
    (w : Intent → ℕ) (is_print : ℕ → Bool) (now : ℕ) (intents : List Intent)
    → weigh (result_weight w) (arbitrate is_print now intents) ≡ weigh w intents
unfolding arbitrate
arbitrate_conserves w p now l = omega (
  arith,
  weigh-sort (result_lt p) (result_weight w) (map (decide_bucket p) (settled p now l)),
  weigh-decide_buckets w p (settled p now l),
  weigh-settled w p now l,
)
