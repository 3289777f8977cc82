-- ===== src/ControlPlane/Arbiter/Groups.antt =====
-- internal/controlplane/arbiter.go: the intents of each idempotency key are together in one group.
use mathlib.Core.Path.{subst}
use mathlib.Core.Bool.{false≢true}
use mathlib.Core.List.Memᴰ
use mathlib.Core.List.{Memᴰ}
use sub2api_account_schedule.Base.{
  ℕ, ◌≡◌, ◌⊎◌, inl, inr, refl, sym, ap, ◌∙◌, Bool, true, false, Option, none, some, List, [], ◌∷◌,
  ◌++◌, Text, text_eq, All, sort, insert_sorted,
}
use sub2api_account_schedule.Base.TextLaws.{text_eq→eq, text_eq_self}
use sub2api_account_schedule.ControlPlane.Types.{Invalid}
use sub2api_account_schedule.ControlPlane.Intent.{Intent, validate, expired}
use sub2api_account_schedule.ControlPlane.Arbiter.{
  Bucket, Groups, append_active, screen_with, screen, screened, key_lt,
}

module _ {A : Type 0} where
  pub All-Memᴰ : (P : A → Type 0) (l : List A) (a : A) → All P l → Memᴰ a l → P a
  All-Memᴰ P [] a h m = absurd (Memᴰ.not-nil m)
  All-Memᴰ P (b ∷ l) a h (Memᴰ.head e) = subst P (sym e) h.0
  All-Memᴰ P (b ∷ l) a h (Memᴰ.tail m) = All-Memᴰ P l a h.1 m

  All-Memᴰ_tail :
      (b : A) (l : List A) (xs : List A) → All (λ a. Memᴰ a l) xs → All (λ a. Memᴰ a (b ∷ l)) xs
  All-Memᴰ_tail b l [] h = tt
  All-Memᴰ_tail b l (x ∷ xs) h = (Memᴰ.tail h.0, All-Memᴰ_tail b l xs h.1)

  pub All-Memᴰ_self : (l : List A) → All (λ a. Memᴰ a l) l
  All-Memᴰ_self [] = tt
  All-Memᴰ_self (a ∷ l) = (Memᴰ.head refl, All-Memᴰ_tail a l l (All-Memᴰ_self l))

  Memᴰ-append : (a : A) (l r : List A) → Memᴰ a l → Memᴰ a (l ++ r)
  Memᴰ-append a [] r m = absurd (Memᴰ.not-nil m)
  Memᴰ-append a (b ∷ l) r (Memᴰ.head e) = Memᴰ.head e
  Memᴰ-append a (b ∷ l) r (Memᴰ.tail m) = Memᴰ.tail (Memᴰ-append a l r m)

  Memᴰ-append_last : (a : A) (l : List A) → Memᴰ a (l ++ (a ∷ []))
  Memᴰ-append_last a [] = Memᴰ.head refl
  Memᴰ-append_last a (b ∷ l) = Memᴰ.tail (Memᴰ-append_last a l)

  module _ (before : A → A → Bool) where
    Memᴰ-insert_sorted :
        (a b : A) (l : List A) → (a ≡ b) ⊎ Memᴰ a l → Memᴰ a (insert_sorted before b l)
    unfolding insert_sorted
    Memᴰ-insert_sorted a b [] (inl e) = Memᴰ.head e
    Memᴰ-insert_sorted a b [] (inr m) = absurd (Memᴰ.not-nil m)
    Memᴰ-insert_sorted a b (c ∷ l) h = by (before c b) h (Memᴰ-insert_sorted a b l)
      where
        by :
            (t : Bool)
            → (a ≡ b) ⊎ Memᴰ a (c ∷ l)
            → ((a ≡ b) ⊎ Memᴰ a l → Memᴰ a (insert_sorted before b l))
            → Memᴰ a (elim t [ true ↦ c ∷ insert_sorted before b l | false ↦ b ∷ c ∷ l ])
        by true (inl e) rest = Memᴰ.tail (rest (inl e))
        by true (inr (Memᴰ.head e)) rest = Memᴰ.head e
        by true (inr (Memᴰ.tail m)) rest = Memᴰ.tail (rest (inr m))
        by false (inl e) rest = Memᴰ.head e
        by false (inr m) rest = Memᴰ.tail m

    pub Memᴰ-sort : (a : A) (l : List A) → Memᴰ a l → Memᴰ a (sort before l)
    unfolding sort
    Memᴰ-sort a [] m = absurd (Memᴰ.not-nil m)
    Memᴰ-sort a (b ∷ l) (Memᴰ.head e) = Memᴰ-insert_sorted a b (sort before l) (inl e)
    Memᴰ-sort a (b ∷ l) (Memᴰ.tail m) =
        Memᴰ-insert_sorted a b (sort before l) (inr (Memᴰ-sort a l m))

-- The keys of the groups differ.
abbrev IsDistinct : Groups → Type 0
IsDistinct [] = Unit {0}
IsDistinct ((k, l) ∷ gs) = All (λ g. text_eq k g.0 ≡ false) gs × IsDistinct gs

append_active-other :
    (k key : Text) (i : Intent) (gs : Groups)
    → text_eq k key ≡ false
    → All (λ g. text_eq k g.0 ≡ false) gs
    → All (λ g. text_eq k g.0 ≡ false) (append_active key i gs)
unfolding append_active
append_active-other k key i [] e h = (e, tt)
append_active-other k key i ((j, l) ∷ gs) e h =
    by (text_eq j key) (append_active-other k key i gs e h.1)
  where
    by :
        (t : Bool)
        → All (λ g. text_eq k g.0 ≡ false) (append_active key i gs)
        → All
            (λ g. text_eq k g.0 ≡ false)
            (elim t [ true ↦ (j, l ++ (i ∷ [])) ∷ gs | false ↦ (j, l) ∷ append_active key i gs ])
    by true rest = (h.0, h.1)
    by false rest = (h.0, rest)

append_active-IsDistinct :
    (key : Text) (i : Intent) (gs : Groups) → IsDistinct gs → IsDistinct (append_active key i gs)
unfolding append_active
append_active-IsDistinct key i [] h = (tt, tt)
append_active-IsDistinct key i ((j, l) ∷ gs) h =
    by (text_eq j key) refl (append_active-IsDistinct key i gs h.1)
  where
    by :
        (t : Bool)
        → text_eq j key ≡ t
        → IsDistinct (append_active key i gs)
        → IsDistinct
            (elim t [ true ↦ (j, l ++ (i ∷ [])) ∷ gs | false ↦ (j, l) ∷ append_active key i gs ])
    by true e rest = (h.0, h.1)
    by false e rest = (append_active-other j key i gs e h.0, rest)

module _ (j : Intent) where
  -- The first group of the intent's idempotency key has the intent.
  abbrev IsIn : Groups → Type 0
  IsIn [] = ⊥
  IsIn ((k, l) ∷ gs) =
      ((text_eq k j.idempotency_key ≡ true) × Memᴰ j l)
      ⊎ ((text_eq k j.idempotency_key ≡ false) × IsIn gs)

  append_active-IsIn :
      (key : Text) (i : Intent) (gs : Groups) → IsIn gs → IsIn (append_active key i gs)
  unfolding append_active
  append_active-IsIn key i [] h = absurd h
  append_active-IsIn key i ((k, l) ∷ gs) h = by (text_eq k key) h (append_active-IsIn key i gs)
    where
      by :
          (t : Bool)
          → IsIn ((k, l) ∷ gs)
          → (IsIn gs → IsIn (append_active key i gs))
          → IsIn
              (elim t [ true ↦ (k, l ++ (i ∷ [])) ∷ gs | false ↦ (k, l) ∷ append_active key i gs ])
      by true (inl (e, m)) rest = inl (e, Memᴰ-append j l (i ∷ []) m)
      by true (inr h) rest = inr h
      by false (inl h) rest = inl h
      by false (inr (e, h)) rest = inr (e, rest h)

  append_active-IsIn_self : (gs : Groups) → IsIn (append_active j.idempotency_key j gs)
  unfolding append_active
  append_active-IsIn_self [] = inl (text_eq_self j.idempotency_key, Memᴰ.head refl)
  append_active-IsIn_self ((k, l) ∷ gs) =
      by (text_eq k j.idempotency_key) refl (append_active-IsIn_self gs)
    where
      by :
          (t : Bool)
          → text_eq k j.idempotency_key ≡ t
          → IsIn (append_active j.idempotency_key j gs)
          → IsIn (elim t [
            | true ↦ (k, l ++ (j ∷ [])) ∷ gs
            | false ↦ (k, l) ∷ append_active j.idempotency_key j gs
          ])
      by true e rest = inl (e, Memᴰ-append_last j l)
      by false e rest = inr (e, rest)

  -- A group of the key has the intent.
  abbrev Holds : Text × List Intent → Type 0
  Holds g = text_eq g.0 j.idempotency_key ≡ true → Memᴰ j g.1

  distinct-Holds :
      (gs : Groups) (k : Text)
      → k ≡ j.idempotency_key
      → All (λ g. text_eq k g.0 ≡ false) gs
      → All Holds gs
  distinct-Holds [] k e h = tt
  distinct-Holds ((t, l) ∷ gs) k e h = (
    λ same. absurd (
        false≢true (
          sym h.0 ∙ ap (text_eq k) (text_eq→eq t j.idempotency_key same ∙ sym e) ∙ text_eq_self k)),
    distinct-Holds gs k e h.1,
  )

  IsIn-Holds : (gs : Groups) → IsDistinct gs → IsIn gs → All Holds gs
  IsIn-Holds [] d h = tt
  IsIn-Holds ((k, l) ∷ gs) d (inl (e, m)) =
      (λ same. m, distinct-Holds gs k (text_eq→eq k j.idempotency_key e) d.0)
  IsIn-Holds ((k, l) ∷ gs) d (inr (e, h)) =
      (λ same. absurd (false≢true (sym e ∙ same)), IsIn-Holds gs d.1 h)

  module _ (now : ℕ) (valid : validate j ≡ none) (fresh : expired j now ≡ false) where
    screen_with-IsIn :
        (e : Option Invalid) (late : Bool) (i : Intent) (s : List Bucket × Groups)
        → validate i ≡ e
        → expired i now ≡ late
        → (j ≡ i) ⊎ IsIn s.1
        → IsIn (screen_with e late i s).1
    screen_with-IsIn (some e) late i s v x (inl same) = cc
    screen_with-IsIn (some e) late i s v x (inr h) = h
    screen_with-IsIn none true i s v x (inl same) =
        absurd (false≢true (sym fresh ∙ ap (λ k. expired k now) same ∙ x))
    screen_with-IsIn none true i s v x (inr h) = h
    screen_with-IsIn none false i (bs, gs) v x (inl same) =
        subst (λ k. IsIn (append_active k.idempotency_key k gs)) same (append_active-IsIn_self gs)
    screen_with-IsIn none false i (bs, gs) v x (inr h) = append_active-IsIn i.idempotency_key i gs h

    screen-IsIn :
        (l : List Intent) (s : List Bucket × Groups) → Memᴰ j l ⊎ IsIn s.1 → IsIn (screen now l s).1
    unfolding screen
    screen-IsIn [] s (inl m) = absurd (Memᴰ.not-nil m)
    screen-IsIn [] s (inr h) = h
    screen-IsIn (i ∷ l) s (inl (Memᴰ.head e)) =
        screen-IsIn l _ (inr (screen_with-IsIn (validate i) (expired i now) i s refl refl (inl e)))
    screen-IsIn (i ∷ l) s (inl (Memᴰ.tail m)) = screen-IsIn l _ (inl m)
    screen-IsIn (i ∷ l) s (inr h) =
        screen-IsIn l _ (inr (screen_with-IsIn (validate i) (expired i now) i s refl refl (inr h)))

screen_with-IsDistinct :
    (e : Option Invalid) (late : Bool) (i : Intent) (s : List Bucket × Groups)
    → IsDistinct s.1
    → IsDistinct (screen_with e late i s).1
screen_with-IsDistinct (some e) late i s h = h
screen_with-IsDistinct none true i s h = h
screen_with-IsDistinct none false i (bs, gs) h = append_active-IsDistinct i.idempotency_key i gs h

screen-IsDistinct :
    (now : ℕ) (l : List Intent) (s : List Bucket × Groups)
    → IsDistinct s.1
    → IsDistinct (screen now l s).1
unfolding screen
screen-IsDistinct now [] s h = h
screen-IsDistinct now (i ∷ l) s h =
    screen-IsDistinct now l (screen_with (validate i) (expired i now) i s)
      (screen_with-IsDistinct (validate i) (expired i now) i s h)

-- Each live intent is in every group of its idempotency key.
pub screened-Holds :
    (p : ℕ → Bool) (now : ℕ) (l : List Intent) (j : Intent)
    → Memᴰ j l
    → validate j ≡ none
    → expired j now ≡ false
    → All (λ g. text_eq g.0 j.idempotency_key ≡ true → Memᴰ j g.1) (screened p now l).1
unfolding screened
screened-Holds p now l j m valid fresh =
    IsIn-Holds j (screen now (sort (key_lt p) l) ([], [])).1
      (screen-IsDistinct now (sort (key_lt p) l) ([], []) tt)
      (screen-IsIn j now valid fresh (sort (key_lt p) l) ([], [])
        (inl (Memᴰ-sort (key_lt p) j l m)))
