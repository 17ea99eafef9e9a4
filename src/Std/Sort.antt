-- ===== src/Std/Sort.antt =====
-- `sort.SliceStable` for a slice whose elements are ordered by a number: insertion in order.
pub mod Laws
use golang_fin.Prelude.{List, [], ◌∷◌, Bool, if◌then◌else◌}

module _ {A : Type 0} (less : A → A → Bool) where
  -- before the first element that is not less, so that equal elements keep their order
  unfoldable pub insert_stable : A → List A → List A
  insert_stable x [] = x ∷ []
  insert_stable x (y ∷ ys) = if less y x then y ∷ insert_stable x ys else x ∷ y ∷ ys

  unfoldable pub sort_stable : List A → List A
  unfolding insert_stable
  sort_stable [] = []
  sort_stable (x ∷ xs) = insert_stable x (sort_stable xs)
