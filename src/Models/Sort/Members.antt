-- ===== src/Models/Sort/Members.antt =====
-- What the sort of backend/internal/models/sort.go keeps of the items, and lists in any order where only
-- equal items are not told apart.
use flow_cast.Base.{
  All, OneOf, Bool-cases, ◌≡◌, refl, ◌∙◌, ◌↔◌, ◌⊎◌, inl, inr, Bool, List, [], ◌∷◌, arith,
}
use mathlib.Core.List
use mathlib.Core.List.{Perm, Permᴰ}
use mathlib.Core.Logic.{∥∥₁_elim}
use flow_cast.Models.Sort.{insert, sort_slice}
use flow_cast.Models.Sort.Laws.{IsOrder, Apart, insert_comm}

pub All-insert :
    {A : Type 0} (P : A → Type 0) (less : A → A → Bool) (x : A) (xs : List A)
    → P x
    → All P xs
    → All P (insert less x xs)
unfolding insert
All-insert P less x [] p h = (p, tt)
All-insert P less x (y ∷ ys) p (q, h) = elim (Bool-cases (less y x)) [
  | inl lt ↦ rw lt (q, All-insert P less x ys p h)
  | inr ge ↦ rw ge (p, (q, h))
]

pub All-sort_slice :
    {A : Type 0} (P : A → Type 0) (less : A → A → Bool) (xs : List A)
    → All P xs
    → All P (sort_slice less xs)
unfolding sort_slice
All-sort_slice P less [] h = tt
All-sort_slice P less (x ∷ xs) (p, h) =
    All-insert P less x (sort_slice less xs) p (All-sort_slice P less xs h)

OneOf-insert_iff :
    {A : Type 0} (v : A) (less : A → A → Bool) (x : A) (xs : List A)
    → OneOf v (insert less x xs) ↔ ((v ≡ x) ⊎ OneOf v xs)
unfolding insert
OneOf-insert_iff v less x [] = (λ h. h, λ h. h)
OneOf-insert_iff v less x (y ∷ ys) = ground (arith, OneOf-insert_iff v less x ys)

pub OneOf-sort_slice_iff :
    {A : Type 0} (v : A) (less : A → A → Bool) (xs : List A)
    → OneOf v (sort_slice less xs) ↔ OneOf v xs
unfolding sort_slice
OneOf-sort_slice_iff v less [] = (λ h. h, λ h. h)
OneOf-sort_slice_iff v less (x ∷ xs) =
    ground (arith, OneOf-sort_slice_iff v less xs, OneOf-insert_iff v less x (sort_slice less xs))

module _ {A : Type 0} {less : A → A → Bool} (order : IsOrder less)
    (linear : (x y : A) → (x ≡ y) ⊎ Apart less x y) where
  insert_comm_linear :
      (x y : A) (zs : List A) → insert less x (insert less y zs) ≡ insert less y (insert less x zs)
  insert_comm_linear x y zs = elim (linear x y) [
    | inl e ↦ rw e refl
    | inr apart ↦ insert_comm order x y zs apart
  ]

  sort_slice-permᴰ_linear : {xs ys : List A} → Permᴰ xs ys → sort_slice less xs ≡ sort_slice less ys
  unfolding sort_slice
  sort_slice-permᴰ_linear Permᴰ.nil = refl
  sort_slice-permᴰ_linear (Permᴰ.cons e p) = cc (sort_slice-permᴰ_linear p)
  sort_slice-permᴰ_linear (Permᴰ.swap {a} {b} e f) = rw (← f, ← e) (insert_comm_linear a b _)
  sort_slice-permᴰ_linear (Permᴰ.trans p q) = sort_slice-permᴰ_linear p ∙ sort_slice-permᴰ_linear q

  pub sort_slice-perm_linear :
      IsSet A → (xs ys : List A) → Perm xs ys → sort_slice less xs ≡ sort_slice less ys
  sort_slice-perm_linear set xs ys p =
      ∥∥₁_elim p (List.is_set set _ _) (λ q. sort_slice-permᴰ_linear q)
