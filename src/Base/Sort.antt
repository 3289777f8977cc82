-- ===== src/Base/Sort.antt =====
-- `sort.Slice`: insertion by a strict comparison. Go's order of equal elements is not specified.
use mathlib.Core.Bool.{Bool, true, false}
use mathlib.Core.List.{List, [], ◌∷◌}

module _ {ℓ} {A : Type ℓ} (before : A → A → Bool) where
  unfoldable pub insert_sorted : A → List A → List A
  insert_sorted a [] = a ∷ []
  insert_sorted a (b ∷ l) = elim (before b a) [ true ↦ b ∷ insert_sorted a l | false ↦ a ∷ b ∷ l ]

  unfoldable pub sort : List A → List A
  unfolding insert_sorted
  sort [] = []
  sort (a ∷ l) = insert_sorted a (sort l)
