-- ===== src/Models/Sort/Laws.antt =====
-- Permutation, order and uniqueness for the sort of backend/internal/models/sort.go.
use flow_cast.Base.{
  ◌∙◌, subst, All, Bool-cases, ◌≡◌, refl, ◌⊎◌, inl, inr, Bool, true, false, List, [], ◌∷◌, arith,
}
use mathlib.Core.List
use mathlib.Core.List.{Perm, Permᴰ}
use mathlib.Core.Logic.{∥∥₁_elim}
use mathlib.Core.List.Perm
use flow_cast.Models.Sort.{insert, sort_slice}

-- A strict weak order, as sort.SliceStable wants it.
pub record IsOrder {ℓ} {A : Type ℓ} (less : A → A → Bool) : Type ℓ where
  pub asym : (x y : A) → less x y ≡ true → less y x ≡ false
  pub split : (x y z : A) → less x z ≡ true → (less x y ≡ true) ⊎ (less y z ≡ true)

module _ {ℓ} {A : Type ℓ} (less : A → A → Bool) where
  insert-perm : (x : A) (xs : List A) → Perm (insert less x xs) (x ∷ xs)
  unfolding insert
  insert-perm x [] = Perm.refl _
  insert-perm x (y ∷ ys) = elim (Bool-cases (less y x)) [
    | inl lt ↦ rw lt (Perm.trans (Perm.cons y (insert-perm x ys)) (Perm.swap _ _ _))
    | inr ge ↦ rw ge (Perm.refl _)
  ]

  pub sort_slice-perm : (xs : List A) → Perm (sort_slice less xs) xs
  unfolding sort_slice
  sort_slice-perm [] = Perm.refl _
  sort_slice-perm (x ∷ xs) = Perm.trans (insert-perm x _) (Perm.cons x (sort_slice-perm xs))

  -- No item is less than one before it.
  abbrev pub NotBelow : A → List A → Type 0
  NotBelow x ys = All (λ y. less y x ≡ false) ys

  abbrev pub IsSorted : List A → Type 0
  IsSorted [] = Unit
  IsSorted (x ∷ xs) = NotBelow x xs × IsSorted xs

  -- The two items are told apart by the order.
  abbrev pub Apart : A → A → Type 0
  Apart x y = (less x y ≡ true) ⊎ (less y x ≡ true)

  -- Any two items of the list are told apart.
  abbrev pub AllApart : List A → Type 0
  AllApart [] = Unit
  AllApart (x ∷ xs) = All (Apart x) xs × AllApart xs

module _ {ℓ} {A : Type ℓ} {less : A → A → Bool} (order : IsOrder less) where
  pub insert_comm :
      (x y : A) (zs : List A)
      → Apart less x y
      → insert less x (insert less y zs) ≡ insert less y (insert less x zs)
  unfolding insert
  insert_comm x y [] h = ground (arith, order.asym x y, order.asym y x)
  insert_comm x y (z ∷ zs) h = ground (
    arith,
    insert_comm x y zs h,
    order.asym x y,
    order.asym y x,
    order.split z x y,
    order.split z y x,
  )

  NotBelow-insert :
      (x y : A) (ys : List A)
      → less y x ≡ false
      → NotBelow less x ys
      → NotBelow less x (insert less y ys)
  unfolding insert
  NotBelow-insert x y [] h k = (h, tt)
  NotBelow-insert x y (z ∷ ys) h (k, ks) = ground (arith, NotBelow-insert x y ys h ks)

  NotBelow-trans :
      (x y : A) (ys : List A) → less y x ≡ false → NotBelow less y ys → NotBelow less x ys
  NotBelow-trans x y [] h k = tt
  NotBelow-trans x y (z ∷ ys) h (k, ks) =
      (ground (arith, order.split z y x), NotBelow-trans x y ys h ks)

  insert-IsSorted : (x : A) (xs : List A) → IsSorted less xs → IsSorted less (insert less x xs)
  unfolding insert
  insert-IsSorted x [] h = (tt, tt)
  insert-IsSorted x (y ∷ ys) (k, h) = elim (Bool-cases (less y x)) [
    | inl lt ↦ rw lt (NotBelow-insert y x ys (order.asym y x lt) k, insert-IsSorted x ys h)
    | inr ge ↦ rw ge ((ge, NotBelow-trans x y ys ge k), (k, h))
  ]

  pub sort_slice-IsSorted : (xs : List A) → IsSorted less (sort_slice less xs)
  unfolding sort_slice
  sort_slice-IsSorted [] = tt
  sort_slice-IsSorted (x ∷ xs) = insert-IsSorted x _ (sort_slice-IsSorted xs)

module _ {ℓ κ} {A : Type ℓ} (P : A → Type κ) where
  All-perm : {xs ys : List A} → Permᴰ xs ys → All P xs → All P ys
  All-perm Permᴰ.nil h = h
  All-perm (Permᴰ.cons e p) (h, hs) = (subst P e h, All-perm p hs)
  All-perm (Permᴰ.swap e f) (h, (k, hs)) = (subst P f k, (subst P e h, hs))
  All-perm (Permᴰ.trans p q) h = All-perm q (All-perm p h)

module _ {ℓ} {A : Type ℓ} {less : A → A → Bool} (order : IsOrder less) where
  Apart-symm : {x y : A} → Apart less x y → Apart less y x
  Apart-symm (inl h) = inr h
  Apart-symm (inr h) = inl h

  AllApart-perm : {xs ys : List A} → Permᴰ xs ys → AllApart less xs → AllApart less ys
  AllApart-perm Permᴰ.nil h = h
  AllApart-perm (Permᴰ.cons {b} {l₁ = xs} e p) (h, hs) =
      (All-perm (Apart less b) p (subst (λ a. All (Apart less a) xs) e h), AllApart-perm p hs)
  AllApart-perm (Permᴰ.swap {b} {b'} {l} e f) h =
      subst (λ x. AllApart less (x ∷ b' ∷ l)) f
        (subst (λ y. AllApart less (b ∷ y ∷ l)) e ((Apart-symm h.0.0, h.1.0), (h.0.1, h.1.1)))
  AllApart-perm (Permᴰ.trans p q) h = AllApart-perm q (AllApart-perm p h)

  sort_slice-permᴰ :
      {xs ys : List A} → Permᴰ xs ys → AllApart less xs → sort_slice less xs ≡ sort_slice less ys
  unfolding sort_slice
  sort_slice-permᴰ Permᴰ.nil h = refl
  sort_slice-permᴰ (Permᴰ.cons e p) (h, hs) = cc (sort_slice-permᴰ p hs)
  sort_slice-permᴰ (Permᴰ.swap {a} {b} e f) h = rw (← f, ← e) (insert_comm order a b _ h.0.0)
  sort_slice-permᴰ (Permᴰ.trans p q) h =
      sort_slice-permᴰ p h ∙ sort_slice-permᴰ q (AllApart-perm p h)

  -- For items that the order tells apart, every order of the input gives the same list.
  pub sort_slice-eq_of_perm :
      IsSet A
      → (xs ys : List A) → Perm xs ys
      → AllApart less xs
      → sort_slice less xs ≡ sort_slice less ys
  sort_slice-eq_of_perm set xs ys p h = ∥∥₁_elim p (List.is_set set _ _) (λ q. sort_slice-permᴰ q h)
