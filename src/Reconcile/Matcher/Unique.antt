-- ===== src/Reconcile/Matcher/Unique.antt =====
-- internal/reconcile/matcher.go: what the searches for one monitor find.
use mathlib.Core.Path.{subst}
use mathlib.Core.Bool.{false≢true}
use sub2api_account_schedule.Base.{
  ◌≡◌, refl, sym, ap, ◌∙◌, inl, inr, arith, keep, Bool-cases, ◌++◌, Bool, true, false, Option, none,
  some, List, [], ◌∷◌, All, if◌then◌else◌,
}
use sub2api_account_schedule.Base.Int.{ℤ, eq_ℤ, eq_ℤ-self, eq_ℤ→eq}
use sub2api_account_schedule.Reconcile.Matcher.{Monitor, monitor_by_id}

-- A list has an element where the others, before and after it, do not satisfy a predicate.
abbrev pub IsOnly : (Monitor → Type 0) → Monitor → List Monitor → Type 0
IsOnly P m l =
    (before after : List Monitor) × (l ≡ before ++ (m ∷ after))
    × P m
    × All (λ n. P n → ⊥) before
    × All (λ n. P n → ⊥) after

-- A list has an element that is the last one to satisfy a predicate.
abbrev pub IsLast : (Monitor → Type 0) → Monitor → List Monitor → Type 0
IsLast P m l =
    (before after : List Monitor) × (l ≡ before ++ (m ∷ after)) × P m × All (λ n. P n → ⊥) after

-- A test that decides a predicate.
abbrev pub Decides : (Monitor → Bool) → (Monitor → Type 0) → Type 0
Decides p P = (m : Monitor) → ((p m ≡ true → P m) × (P m → p m ≡ true))

module _ (p : Monitor → Bool) (P : Monitor → Type 0) (decides : Decides p P) where
  keep-none : (l : List Monitor) → keep p l ≡ [] → All (λ n. P n → ⊥) l
  keep-none [] e = tt
  keep-none (n ∷ l) e = elim (Bool-cases (p n)) [
    | inl t ↦ ground (arith, t, e)
    | inr f ↦
        (λ h. absurd (false≢true (sym f ∙ (decides n).1 h)), keep-none l (ground (arith, f, e)))
  ]

  pub keep-IsOnly : (l : List Monitor) (m : Monitor) → keep p l ≡ m ∷ [] → IsOnly P m l
  keep-IsOnly [] m e = cc
  keep-IsOnly (n ∷ l) m e = by (p n) refl e (keep-IsOnly l m)
    where
      first : (xs : List Monitor) → n ∷ xs ≡ m ∷ [] → (n ≡ m) × (xs ≡ [])
      first xs e = (cc, cc)

      by :
          (b : Bool)
          → p n ≡ b
          → (elim b [ true ↦ n ∷ keep p l | false ↦ keep p l ]) ≡ m ∷ []
          → (keep p l ≡ m ∷ [] → IsOnly P m l)
          → IsOnly P m (n ∷ l)
      by true t e rest =
          let (same, none_left) = first (keep p l) e in
          ([], l, ap (λ k. k ∷ l) same, subst P same ((decides n).0 t), tt, keep-none l none_left)
      by false f e rest =
          let (before, after, split, here, b, a) = rest e in
          (
            n ∷ before,
            after,
            ap (λ k. n ∷ k) split,
            here,
            (λ h. absurd (false≢true (sym f ∙ (decides n).1 h)), b),
            a,
          )

-- A monitor has the ID.
abbrev pub HasId : ℤ → Monitor → Type 0
HasId id m = m.id ≡ id

monitor_by_id-missing :
    (id : ℤ) (l : List Monitor) → monitor_by_id id l ≡ none → All (λ n. HasId id n → ⊥) l
unfolding monitor_by_id
monitor_by_id-missing id [] e = tt
monitor_by_id-missing id (n ∷ l) e =
    by (monitor_by_id id l) refl (eq_ℤ n.id id) refl e (monitor_by_id-missing id l)
  where
    by :
        (o : Option Monitor)
        → monitor_by_id id l ≡ o
        → (b : Bool) → eq_ℤ n.id id ≡ b
        → (elim o [ some k ↦ some k | none ↦ if b then some n else none ]) ≡ none
        → (monitor_by_id id l ≡ none → All (λ k. HasId id k → ⊥) l)
        → All (λ k. HasId id k → ⊥) (n ∷ l)
    by (some k) o b t e rest = cc
    by none o true t e rest = cc
    by none o false t e rest =
        (λ h. absurd (false≢true (sym t ∙ ap (λ i. eq_ℤ i id) h ∙ eq_ℤ-self id)), rest o)

-- The map from IDs holds the last monitor with each.
pub monitor_by_id-IsLast :
    (id : ℤ) (l : List Monitor) (m : Monitor) → monitor_by_id id l ≡ some m → IsLast (HasId id) m l
unfolding monitor_by_id
monitor_by_id-IsLast id [] m e = cc
monitor_by_id-IsLast id (n ∷ l) m e =
    by (monitor_by_id id l) refl (eq_ℤ n.id id) refl e (monitor_by_id-IsLast id l m)
  where
    same_monitor : (j k : Monitor) → some j ≡ some k → j ≡ k
    same_monitor j k e = cc

    by :
        (o : Option Monitor)
        → monitor_by_id id l ≡ o
        → (b : Bool) → eq_ℤ n.id id ≡ b
        → (elim o [ some k ↦ some k | none ↦ if b then some n else none ]) ≡ some m
        → (monitor_by_id id l ≡ some m → IsLast (HasId id) m l)
        → IsLast (HasId id) m (n ∷ l)
    by (some k) o b t e rest =
        let (before, after, split, here, a) = rest (o ∙ e) in
        (n ∷ before, after, ap (λ k. n ∷ k) split, here, a)
    by none o true t e rest =
        let same = same_monitor n m e in
        (
          [],
          l,
          ap (λ k. k ∷ l) same,
          subst (HasId id) same (eq_ℤ→eq n.id id t),
          monitor_by_id-missing id l o,
        )
    by none o false t e rest = cc
