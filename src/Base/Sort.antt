-- ===== src/Base/Sort.antt =====
-- `slices.SortFunc`, as an insertion sort by "stands before". The two give the same list where of any
-- two items one stands before the other; where items compare equal, Go leaves their order open.
use mathlib.Core.Bool.{Bool}
use mathlib.Core.List.{List, [], ◌∷◌}
use modelo_man.Base.Tests.{if◌then◌else◌}

module _ {A : Type 0} (before : A → A → Bool) where
  unfoldable pub insert_by : A → List A → List A
  insert_by x [] = x ∷ []
  insert_by x (y ∷ ys) = if before y x then y ∷ insert_by x ys else x ∷ y ∷ ys

  unfoldable pub sort_by : List A → List A
  unfolding insert_by
  sort_by [] = []
  sort_by (x ∷ xs) = insert_by x (sort_by xs)
