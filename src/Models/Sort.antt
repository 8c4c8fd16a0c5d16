-- ===== src/Models/Sort.antt =====
-- backend/internal/models/sort.go. sort.SliceStable is the language's library; any stable sort by
-- the same order gives the same list, so it is an insertion sort here.
pub mod Laws
pub mod Members
use flow_cast.Base.{equal, if◌then◌else◌, Bool, not, List, [], ◌∷◌}

module _ {ℓ} {A : Type ℓ} (less : A → A → Bool) where
  -- The new item goes in front of the first one that is not less, so equal items keep their order.
  unfoldable pub insert : A → List A → List A
  insert x [] = x ∷ []
  insert x (y ∷ ys) = if less y x then y ∷ insert x ys else x ∷ y ∷ ys

  unfoldable pub sort_slice : List A → List A
  unfolding insert
  sort_slice [] = []
  sort_slice (x ∷ xs) = insert x (sort_slice xs)
