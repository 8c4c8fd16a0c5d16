-- ===== src/Config/Errors/Named.antt =====
-- The variables that the problems of backend/internal/config/errors.go name, and their text in any order
-- of the problems.
use flow_cast.Base.{
  text_ltb_split, text_ltb_total, DistinctBy, refl, ◌≢◌, Text, text_eq_iff, text_ltb, All, OneOf,
  Bool-cases, ◌≡◌, ◌↔◌, ◌⊎◌, inl, inr, true, false, List, [], ◌∷◌, arith,
}
use flow_cast.Config.Reader.{Problems}
use flow_cast.Config.Errors.{variables, is_seen, first_mentions}
use flow_cast.Models.Sort.{insert, sort_slice}
use flow_cast.Models.Sort.Members.{All-insert, All-sort_slice, OneOf-sort_slice_iff}

-- A problem of the list is about the variable.
abbrev pub IsNamed : Text → Problems → Type 0
IsNamed v [] = ⊥
IsNamed v (f ∷ fs) = (v ≡ f.variable) ⊎ IsNamed v fs

-- Each text is below all that follow it.
abbrev pub IsIncreasing : List Text → Type 0
IsIncreasing [] = Unit
IsIncreasing (s ∷ ts) = All (λ t. text_ltb s t ≡ true) ts × IsIncreasing ts

is_seen_iff : (v : Text) (seen : List Text) → (is_seen v seen ≡ true) ↔ OneOf v seen
unfolding is_seen
is_seen_iff v [] = ground arith
is_seen_iff v (s ∷ seen) = ground (arith, is_seen_iff v seen, text_eq_iff s v)

All-of : {A : Type 0} (P : A → Type 0) (xs : List A) → ((x : A) → OneOf x xs → P x) → All P xs
All-of P [] h = tt
All-of P (x ∷ xs) h = (h x (inl refl), All-of P xs (λ y m. h y (inr m)))

-- A name is mentioned for the first time exactly where it is named and was not seen before.
first_mentions_iff :
    (v : Text) (seen : List Text) (fs : Problems)
    → OneOf v (first_mentions seen fs) ↔ (IsNamed v fs × (is_seen v seen ≡ false))
unfolding first_mentions is_seen
first_mentions_iff v seen [] = ground arith
first_mentions_iff v seen (f ∷ fs) = elim (Bool-cases (is_seen f.variable seen)) [
  | inl old ↦ rw old (ground (arith, first_mentions_iff v seen fs))
  | inr fresh ↦
      rw fresh
        (ground (arith, first_mentions_iff v (f.variable ∷ seen) fs, text_eq_iff f.variable v))
]

first_mentions-Distinct :
    (seen : List Text) (fs : Problems) → DistinctBy (λ (s : Text). s) (first_mentions seen fs)
unfolding first_mentions is_seen
first_mentions-Distinct seen [] = tt
first_mentions-Distinct seen (f ∷ fs) = elim (Bool-cases (is_seen f.variable seen)) [
  | inl old ↦ rw old (first_mentions-Distinct seen fs)
  | inr fresh ↦ rw fresh (
    All-of (λ y. y ≢ f.variable) (first_mentions (f.variable ∷ seen) fs)
        (λ v m. λ e.
          ground (arith, first_mentions_iff v (f.variable ∷ seen) fs, text_eq_iff f.variable v)),
    first_mentions-Distinct (f.variable ∷ seen) fs,
  )
]

below_rest :
    (x y : Text) (ys : List Text)
    → text_ltb y x ≡ false
    → All (λ z. text_ltb y z ≡ true) ys
    → All (λ z. text_ltb x z ≡ true) ys
below_rest x y [] ge h = tt
below_rest x y (z ∷ ys) ge (lt, h) = (ground (arith, text_ltb_split y x z), below_rest x y ys ge h)

insert-IsIncreasing :
    (x : Text) (xs : List Text)
    → All (λ y. y ≢ x) xs
    → IsIncreasing xs
    → IsIncreasing (insert text_ltb x xs)
unfolding insert
insert-IsIncreasing x [] h k = (tt, tt)
insert-IsIncreasing x (y ∷ ys) (ne, h) (lts, k) = elim (Bool-cases (text_ltb y x)) [
  | inl lt ↦
      rw lt
        (All-insert (λ z. text_ltb y z ≡ true) text_ltb x ys lt lts, insert-IsIncreasing x ys h k)
  | inr ge ↦
      let first : text_ltb x y ≡ true = ground (arith, text_ltb_total y x ne) in
      rw ge ((first, below_rest x y ys ge lts), (lts, k))
]

sort_slice-IsIncreasing :
    (xs : List Text) → DistinctBy (λ (s : Text). s) xs → IsIncreasing (sort_slice text_ltb xs)
unfolding sort_slice
sort_slice-IsIncreasing [] h = tt
sort_slice-IsIncreasing (x ∷ xs) (ne, h) =
    insert-IsIncreasing x (sort_slice text_ltb xs) (All-sort_slice (λ y. y ≢ x) text_ltb xs ne)
      (sort_slice-IsIncreasing xs h)

-- Variables has the variables that the problems are about and no others, in increasing order, so that
-- none of them stands in it twice.
pub variables_lem :
    (fs : Problems)
    → IsIncreasing (variables fs) × ((v : Text) → OneOf v (variables fs) ↔ IsNamed v fs)
unfolding variables
variables_lem fs = (
  sort_slice-IsIncreasing (first_mentions [] fs) (first_mentions-Distinct [] fs),
  λ v.
      ground
        (arith, first_mentions_iff v [] fs, OneOf-sort_slice_iff v text_ltb (first_mentions [] fs)),
)
