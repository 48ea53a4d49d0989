-- ===== src/Routing/Sorting.antt =====
-- `xs.sort((a, b) => key(a) - key(b))`. JavaScript's sort is stable, and a difference that is NaN
-- (of two infinities) counts as 0, so the comparison is that of the keys.
pub mod Ranked
use sirius_gateway.Base.{Bool, List, [], ◌∷◌, if◌then◌else◌}
use sirius_gateway.Core.Numbers.{Numbers}

module _ {ℓ} (F : Numbers) {A : Type ℓ} where
  open F use {Num, lt}

  unfoldable pub insert_by : (A → Num) → A → List A → List A
  insert_by key x [] = x ∷ []
  insert_by key x (y ∷ ys) = if lt (key y) (key x) then y ∷ insert_by key x ys else x ∷ y ∷ ys

  unfoldable pub sort_by : (A → Num) → List A → List A
  unfolding insert_by
  sort_by key [] = []
  sort_by key (x ∷ xs) = insert_by key x (sort_by key xs)
