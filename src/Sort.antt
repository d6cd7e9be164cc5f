-- ===== src/Sort.antt =====
-- The stable sort that package `sort` makes of a comparison, as an insertion sort.
pub mod Laws
pub mod Lexicographic
use patch_operator.Base.{Bool, true, false, List, [], ◌∷◌}

module _ {ℓ} {A : Type ℓ} (before : A → A → Bool) where
  -- The element goes in front of the first one that is not before it.
  unfoldable pub insert : A → List A → List A
  insert x [] = x ∷ []
  insert x (y ∷ l) =
      let rest = insert x l in elim (before y x) [ true ↦ y ∷ rest | false ↦ x ∷ y ∷ l ]

  -- `sort.SliceStable`
  unfoldable pub stable_sort : List A → List A
  unfolding insert
  stable_sort [] = []
  stable_sort (x ∷ l) = insert x (stable_sort l)
