-- ===== src/Base/SortLaws.antt =====
-- Sorting keeps the elements, orders them, and forgets the order that they came in.
use mathlib.Core.List.{Permᴰ}
use mathlib.Core.Path.{subst}
use sub2api_account_schedule.Base.{
  ℕ, ◌+◌, ◌≡◌, refl, ap, ap₂, ◌∙◌, any, ◌||◌, Bool, true, false, List, [], ◌∷◌, arith, weigh, All,
  insert_sorted, sort,
}

module _ {ℓ} {A : Type ℓ} (before : A → A → Bool) where
  weigh-insert_sorted :
      (w : A → ℕ) (a : A) (l : List A) → weigh w (insert_sorted before a l) ≡ w a + weigh w l
  unfolding insert_sorted
  weigh-insert_sorted w a [] = refl
  weigh-insert_sorted w a (b ∷ l) = ground (arith, weigh-insert_sorted w a l)

  -- The same elements, as often.
  pub weigh-sort : (w : A → ℕ) (l : List A) → weigh w (sort before l) ≡ weigh w l
  unfolding sort
  weigh-sort w [] = refl
  weigh-sort w (a ∷ l) = omega (arith, weigh-insert_sorted w a (sort before l), weigh-sort w l)

  insert_sorted-All {κ} :
      (P : A → Type κ) (a : A) (l : List A) → P a → All P l → All P (insert_sorted before a l)
  unfolding insert_sorted
  insert_sorted-All P a [] h k = (h, tt)
  insert_sorted-All P a (b ∷ l) h k = go (before b a) (insert_sorted-All P a l h k.1)
    where
      go :
          (t : Bool)
          → All P (insert_sorted before a l)
          → All P (elim t [ true ↦ b ∷ insert_sorted before a l | false ↦ a ∷ b ∷ l ])
      go true later = (k.0, later)
      go false _ = (h, k)

  pub sort-All {κ} : (P : A → Type κ) (l : List A) → All P l → All P (sort before l)
  unfolding sort
  sort-All P [] h = tt
  sort-All P (a ∷ l) h = insert_sorted-All P a (sort before l) h.0 (sort-All P l h.1)

-- A comparison that sorts: of two elements at most one is before the other, and not being before is
-- transitive.
pub record IsStrict {ℓ} {A : Type ℓ} (before : A → A → Bool) : Type ℓ where
  pub asymm : (a b : A) → before a b ≡ true → before b a ≡ false
  pub negtrans : (a b c : A) → before a b ≡ false → before b c ≡ false → before a c ≡ false

-- The first element is one that none is before.
abbrev pub IsHeadFirst {ℓ} : {A : Type ℓ} → (A → A → Bool) → List A → Type 0
IsHeadFirst before [] = Unit
IsHeadFirst before (a ∷ l) = All (λ b. before b a ≡ false) l

module _ {ℓ} {A : Type ℓ} (before : A → A → Bool) (strict : IsStrict before) where
  All-later :
      (a h : A) (l : List A)
      → before h a ≡ false
      → All (λ b. before b h ≡ false) l
      → All (λ b. before b a ≡ false) l
  All-later a h [] e k = tt
  All-later a h (b ∷ l) e k = (strict.negtrans b h a k.0 e, All-later a h l e k.1)

  insert_sorted-IsHeadFirst :
      (a : A) (l : List A) → IsHeadFirst before l → IsHeadFirst before (insert_sorted before a l)
  unfolding insert_sorted
  insert_sorted-IsHeadFirst a [] h = tt
  insert_sorted-IsHeadFirst a (b ∷ l) h = go (before b a) refl
    where
      go :
          (t : Bool)
          → before b a ≡ t
          → IsHeadFirst before (elim t [ true ↦ b ∷ insert_sorted before a l | false ↦ a ∷ b ∷ l ])
      go true e = insert_sorted-All before (λ c. before c b ≡ false) a l (strict.asymm b a e) h
      go false e = (e, All-later a b l e h)

  pub sort-IsHeadFirst : (l : List A) → IsHeadFirst before (sort before l)
  unfolding sort
  sort-IsHeadFirst [] = tt
  sort-IsHeadFirst (a ∷ l) = insert_sorted-IsHeadFirst a (sort before l) (sort-IsHeadFirst l)

  insert_sorted_swap :
      (a b : A) (l : List A)
      → (before a b ≡ false → before b a ≡ false → a ≡ b)
      → insert_sorted before a (insert_sorted before b l)
        ≡ insert_sorted before b (insert_sorted before a l)
  unfolding insert_sorted
  insert_sorted_swap a b [] same = ground (arith, strict.asymm a b, strict.asymm b a, same)
  insert_sorted_swap a b (c ∷ l) same = ground (
    arith,
    strict.asymm a b,
    strict.asymm b a,
    same,
    strict.negtrans c b a,
    strict.negtrans c a b,
    insert_sorted_swap a b l same,
  )

  -- Lists that hold the same elements are sorted to the same list, where only equal elements tie.
  pub sort-perm {κ} :
      (P : A → Type κ)
      → ((a b : A) → P a → P b → before a b ≡ false → before b a ≡ false → a ≡ b)
      → {xs ys : List A} → Permᴰ xs ys
      → All P xs
      → (sort before xs ≡ sort before ys) × All P ys
  unfolding sort
  sort-perm P same Permᴰ.nil h = (refl, tt)
  sort-perm P same (Permᴰ.cons {a = a} {b = b} {l₁ = l₁} {l₂ = l₂} e d) h =
      let r = sort-perm P same d h.1 in (ap₂ (insert_sorted before) e r.0, (subst P e h.0, r.1))
  sort-perm P same (Permᴰ.swap {a = a} {b = b} {a' = a'} {b' = b'} {l = l} e f) h = (
    insert_sorted_swap a b (sort before l) (same a b h.0 h.1.0)
        ∙ ap₂ (λ x y. insert_sorted before x (insert_sorted before y (sort before l))) f e,
    (subst P f h.1.0, (subst P e h.0, h.1.1)),
  )
  sort-perm P same (Permᴰ.trans d e) h =
      let r = sort-perm P same d h in let t = sort-perm P same e r.1 in (r.0 ∙ t.0, t.1)

module _ {ℓ} {A : Type ℓ} (before : A → A → Bool) (p : A → Bool) where
  any-insert_sorted : (a : A) (l : List A) → any p (insert_sorted before a l) ≡ (p a || any p l)
  unfolding insert_sorted
  any-insert_sorted a [] = refl
  any-insert_sorted a (b ∷ l) = ground (arith, any-insert_sorted a l)

  -- Sorting keeps whether a test passes somewhere.
  pub any-sort : (l : List A) → any p (sort before l) ≡ any p l
  unfolding sort
  any-sort [] = refl
  any-sort (a ∷ l) = any-insert_sorted a (sort before l) ∙ ap (λ b. p a || b) (any-sort l)
