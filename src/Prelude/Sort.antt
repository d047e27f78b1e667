-- ===== src/Prelude/Sort.antt =====
-- A stable sort, for `sorted` and ORDER BY.
pub mod Laws
use mathlib.Core.Bool.{Bool}
use mathlib.Core.List.{List, [], ◌∷◌}
use air_store.Prelude.Tests.{if◌then◌else◌}

module _ {A : Type 0} where
  insert_sorted : (A → A → Bool) → A → List A → List A
  insert_sorted before x [] = x ∷ []
  insert_sorted before x (y ∷ ys) =
      if before y x then y ∷ insert_sorted before x ys else x ∷ (y ∷ ys)

  -- `before y x` is that `y` must stand before `x`; what is not ordered keeps its order.
  unfoldable pub order_by : (A → A → Bool) → List A → List A
  unfolding insert_sorted
  order_by before [] = []
  order_by before (x ∷ xs) = insert_sorted before x (order_by before xs)
