-- ===== src/ControlPlane/Arbiter/Order.antt =====
-- internal/controlplane/arbiter.go: the order of candidates, and the order that intents come in.
use mathlib.Core.List.{Permᴰ, Memᴰ}
use sub2api_account_schedule.Base.{
  ℕ, ◌≡◌, refl, Bool, true, false, not, List, [], ◌∷◌, Text, text_lt, text_eq, arith, All, ltb,
  ◌==◌, if◌then◌else◌, ◌∙◌, sym,
}
use sub2api_account_schedule.Base.TextLaws.{
  text_lt-asymm, text_lt-negtrans, text_lt-total, text_eq→eq, text_eq_self, text_lt_irrefl,
}
use sub2api_account_schedule.Base.SortLaws.{IsStrict, sort-perm}
use sub2api_account_schedule.ControlPlane.Types.{authority_rank}
use sub2api_account_schedule.ControlPlane.Intent.{Intent}
use sub2api_account_schedule.ControlPlane.Canonical.{canonical_intent_key}
use sub2api_account_schedule.ControlPlane.Arbiter.{
  key_lt, candidate_wins, arbitrate, settled, screened,
}

-- The lexicographic comparison of four fields, as `candidateWins` writes it.
wins_by : ℕ × ℕ × Text × Text → ℕ × ℕ × Text × Text → Bool
wins_by l r =
    if not (l.0 == r.0)
    then ltb l.0 r.0
    else if not (l.1 == r.1)
    then ltb r.1 l.1
    else if not (text_eq l.2 r.2)
    then text_lt l.2 r.2
    else text_lt l.3 r.3

wins_by-asymm : (l r : ℕ × ℕ × Text × Text) → wins_by l r ≡ true → wins_by r l ≡ false
unfolding wins_by
wins_by-asymm (a, b, s, t) (c, d, u, v) h =
    ground
      (arith, text_lt-asymm s u, text_lt-asymm t v, text_eq→eq s u, text_eq→eq u s, text_eq_self s)

wins_by-negtrans :
    (l m r : ℕ × ℕ × Text × Text) → wins_by l m ≡ false → wins_by m r ≡ false → wins_by l r ≡ false
unfolding wins_by
wins_by-negtrans (a, b, s, t) (c, d, u, v) (e, f, x, y) h k = ground (
  arith,
  text_lt-negtrans s u x,
  text_lt-negtrans t v y,
  text_eq→eq s u,
  text_eq→eq u x,
  text_eq→eq s x,
  text_lt-total s u,
  text_lt-total u x,
  text_lt-total s x,
  text_lt-asymm s u,
  text_lt-asymm u x,
  text_lt-asymm x s,
  text_lt-asymm s x,
  text_lt_irrefl s,
  text_lt_irrefl u,
  text_lt_irrefl x,
)

module _ (is_print : ℕ → Bool) where
  rank_fields : Intent → ℕ × ℕ × Text × Text
  rank_fields i =
      ((authority_rank i.authority).0, i.created_at, i.id, canonical_intent_key is_print i)

  candidate_wins_by :
      (i j : Intent) → candidate_wins is_print i j ≡ wins_by (rank_fields i) (rank_fields j)
  unfolding candidate_wins wins_by rank_fields
  candidate_wins_by i j = refl

  pub candidate_wins-IsStrict : IsStrict (candidate_wins is_print)
  candidate_wins-IsStrict = record {
    asymm = λ i j h.
        candidate_wins_by j i
        ∙ wins_by-asymm (rank_fields i) (rank_fields j) (sym (candidate_wins_by i j) ∙ h);
    negtrans = λ i j k h g.
        candidate_wins_by i k
        ∙ wins_by-negtrans (rank_fields i) (rank_fields j) (rank_fields k)
            (sym (candidate_wins_by i j) ∙ h) (sym (candidate_wins_by j k) ∙ g);
  }

  key_lt-IsStrict : IsStrict (key_lt is_print)
  key_lt-IsStrict = record {
    asymm = λ i j h. text_lt-asymm _ _ h;
    negtrans = λ i j k h g. text_lt-negtrans _ (canonical_intent_key is_print j) _ h g;
  }

All-mem : (l xs : List Intent) → ((i : Intent) → Memᴰ i l → Memᴰ i xs) → All (λ i. Memᴰ i xs) l
All-mem [] xs into = tt
All-mem (i ∷ l) xs into = (into i (Memᴰ.head refl), All-mem l xs (λ j m. into j (Memᴰ.tail m)))

-- The order in which intents are submitted does not change the arbitration: two lists of the same
-- intents have equal results, where two different intents of the list never share a canonical key.
pub arbitrate-perm :
    (is_print : ℕ → Bool) (now : ℕ) {xs ys : List Intent}
    → ((i j : Intent)
        → Memᴰ i xs
        → Memᴰ j xs
        → canonical_intent_key is_print i ≡ canonical_intent_key is_print j
        → i ≡ j)
    → Permᴰ xs ys
    → arbitrate is_print now xs ≡ arbitrate is_print now ys
unfolding arbitrate settled screened
arbitrate-perm p now {xs = xs} distinct d =
    let sorted =
      sort-perm (key_lt p) (key_lt-IsStrict p) (λ i. Memᴰ i xs)
        (λ i j m n h k. distinct i j m n (text_lt-total _ _ h k)) d (All-mem xs xs (λ i m. m)) in
    rw (sorted.0)
