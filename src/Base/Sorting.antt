-- ===== src/Base/Sorting.antt =====
-- What the program uses of Go's `sort.Slice`, by insertion. The order of elements of which neither is
-- before the other is that of the list, which `sort.Slice` leaves open.
use mathlib.Core.Bool.{Bool}
use mathlib.Core.List.{List, [], ◌∷◌}
use computer_host.Base.Tests.{if◌then◌else◌}

module _ {A : Type 0} (before : A → A → Bool) where
  unfoldable pub insert_sorted : A → List A → List A
  insert_sorted a [] = a ∷ []
  insert_sorted a (x ∷ xs) = if before x a then x ∷ insert_sorted a xs else a ∷ x ∷ xs

  unfoldable pub sort_by : List A → List A
  unfolding insert_sorted
  sort_by [] = []
  sort_by (x ∷ xs) = insert_sorted x (sort_by xs)
