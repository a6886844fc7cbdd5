-- ===== src/Prelude/Sort.antt =====
-- Sorting by insertion.
use mathlib.Core.Bool.{Bool}
use mathlib.Core.List.{List, [], ◌∷◌}
use goprofile.Prelude.Tests.{if◌then◌else◌}

module _ {A : Type 0} (before : A → A → Bool) where
  unfoldable pub insert_sorted : A → List A → List A
  insert_sorted r [] = r ∷ []
  insert_sorted r (x ∷ xs) = if before r x then r ∷ x ∷ xs else x ∷ insert_sorted r xs

  unfoldable pub order_by : List A → List A
  unfolding insert_sorted
  order_by [] = []
  order_by (x ∷ xs) = insert_sorted x (order_by xs)
