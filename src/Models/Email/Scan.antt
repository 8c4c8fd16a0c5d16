-- ===== src/Models/Email/Scan.antt =====
-- The two loops of ValidEmail of backend/internal/models/identity.go, stated on the bytes.
use flow_cast.Base.{
  ==_iff, ◌==◌, subst, Bool-cases, inl, Text, length, All, ℕ, ◌+◌, ◌≡◌, refl, sym, ap, ◌∙◌, ◌≢◌,
  ◌⊎◌, inr, Option, none, some, List, [], ◌∷◌, ◌++◌, arith,
}
use flow_cast.Strings.{range}
use flow_cast.Strings.Ascii.{offsets, ascii_only, range-ascii}
use flow_cast.Models.Email.{find_at, last_dot}

abbrev pub Avoids : ℕ → Text → Type 0
Avoids c s = All (λ b. b ≢ c) s

-- Only the ASCII runes count in either loop.
find_at-ascii_only :
    (at : Option ℕ) (rs : List (ℕ × ℕ)) → find_at at (ascii_only rs) ≡ find_at at rs
unfolding find_at
find_at-ascii_only at [] = refl
find_at-ascii_only none ((i, r) ∷ rs) =
    ground (arith, find_at-ascii_only none rs, find_at-ascii_only (some i) rs)
find_at-ascii_only (some j) ((i, r) ∷ rs) = ground (arith, find_at-ascii_only (some j) rs)

last_dot-ascii_only :
    (dot : Option ℕ) (rs : List (ℕ × ℕ)) → last_dot dot (ascii_only rs) ≡ last_dot dot rs
unfolding last_dot
last_dot-ascii_only dot [] = refl
last_dot-ascii_only dot ((i, r) ∷ rs) =
    ground (arith, last_dot-ascii_only dot rs, last_dot-ascii_only (some i) rs)

pub find_at-range : (s : Text) → find_at none (range s) ≡ find_at none (offsets 0 s)
find_at-range s =
    sym (find_at-ascii_only none (range s))
    ∙ (ap (find_at none) (range-ascii s) ∙ find_at-ascii_only none (offsets 0 s))

pub last_dot-range : (s : Text) → last_dot none (range s) ≡ last_dot none (offsets 0 s)
last_dot-range s =
    sym (last_dot-ascii_only none (range s))
    ∙ (ap (last_dot none) (range-ascii s) ∙ last_dot-ascii_only none (offsets 0 s))

-- After an '@' the loop goes on exactly if there is no other.
find_at_second :
    (i j : ℕ) (s : Text)
    → (Avoids b'@' s → find_at (some i) (offsets j s) ≡ some (some i))
      × ((find_at (some i) (offsets j s) ≡ none) ⊎ Avoids b'@' s)
unfolding find_at
find_at_second i j [] = (λ _. refl, inr tt)
find_at_second i j (b ∷ s) = ground (arith, find_at_second i (j + 1) s)

-- A split of the text behind which the separator does not stand again.
abbrev pub SplitAt : ℕ → Text → Text → Text → Type 0
SplitAt c s left right = (s ≡ left ++ c ∷ right) × Avoids c right

-- The result of the first loop from offset `i`: an index, or none, or two separators.
pub data Found (i : ℕ) (s : Text) : Option (Option ℕ) → Type 0 where
  absent : Found i s (some none)
  twice : Found i s none
  once :
      (left right : Text)
      → SplitAt b'@' s left right
      → Avoids b'@' left
      → Found i s (some (some (i + length left)))

find_at-Found_head : (i : ℕ) (s : Text) → Found i (b'@' ∷ s) (find_at (some i) (offsets (i + 1) s))
find_at-Found_head i s = elim (find_at_second i (i + 1) s).1 [
  | inl two ↦ rw two twice
  | inr one ↦
      subst (Found i (b'@' ∷ s)) (sym ((find_at_second i (i + 1) s).0 one))
        (subst (λ k. Found i (b'@' ∷ s) (some (some k))) (omega arith) (once [] s (refl, one) tt))
]

Found-cons :
    (i b : ℕ) (s : Text) (o : Option (Option ℕ)) → b ≢ b'@' → Found (i + 1) s o → Found i (b ∷ s) o
Found-cons i b s _ h absent = absent
Found-cons i b s _ h twice = twice
Found-cons i b s _ h (once left right (e, free) clear) =
    subst (λ k. Found i (b ∷ s) (some (some k))) (omega arith)
      (once (b ∷ left) right (ap (λ t. b ∷ t) e, free) (h, clear))

find_at-cons_ne :
    (i b : ℕ) (s : Text)
    → b ≢ b'@'
    → find_at none (offsets i (b ∷ s)) ≡ find_at none (offsets (i + 1) s)
unfolding find_at
find_at-cons_ne i b s h = ground arith

pub find_at-Found : (i : ℕ) (s : Text) → Found i s (find_at none (offsets i s))
unfolding find_at
find_at-Found i [] = absent
find_at-Found i (b ∷ s) = elim (Bool-cases (b == b'@')) [
  | inl same ↦
      subst (λ c. Found i (c ∷ s) (find_at none (offsets i (c ∷ s)))) (sym ((==_iff b _).0 same))
        (find_at-Found_head i s)
  | inr other ↦
      let h : b ≢ b'@' = ground arith in
      subst (Found i (b ∷ s)) (sym (find_at-cons_ne i b s h))
        (Found-cons i b s _ h (find_at-Found (i + 1) s))
]

pub find_at-append :
    (i : ℕ) (left right : Text)
    → Avoids b'@' left
    → Avoids b'@' right
    → find_at none (offsets i (left ++ b'@' ∷ right)) ≡ some (some (i + length left))
unfolding find_at
find_at-append i [] right h k = ground (arith, (find_at_second i (i + 1) right).0 k)
find_at-append i (b ∷ left) right (n, h) k = ground (arith, find_at-append (i + 1) left right h k)

-- The second loop keeps what it had, or has the offset of the last dot.
abbrev pub DotCases : Option ℕ → ℕ → Text → Option ℕ → Type 0
DotCases dot i s o =
    (Avoids b'.' s × (o ≡ dot))
    ⊎ ((left : Text) × (right : Text) × SplitAt b'.' s left right × (o ≡ some (i + length left)))

DotCases-cons :
    (dot : Option ℕ) (i b : ℕ) (s : Text) (o : Option ℕ)
    → b ≢ b'.'
    → DotCases dot (i + 1) s o
    → DotCases dot i (b ∷ s) o
DotCases-cons dot i b s o h (inl (free, kept)) = inl ((h, free), kept)
DotCases-cons dot i b s o h (inr (left, right, (e, free), at)) =
    inr (b ∷ left, right, (ap (λ t. b ∷ t) e, free), ground arith)

DotCases-dot :
    (dot : Option ℕ) (i : ℕ) (s : Text) (o : Option ℕ)
    → DotCases (some i) (i + 1) s o
    → DotCases dot i (b'.' ∷ s) o
DotCases-dot dot i s o (inl (free, kept)) = inr ([], s, (refl, free), ground arith)
DotCases-dot dot i s o (inr (left, right, (e, free), at)) =
    inr (b'.' ∷ left, right, (ap (λ t. b'.' ∷ t) e, free), ground arith)

last_dot-cons_ne :
    (dot : Option ℕ) (i b : ℕ) (s : Text)
    → b ≢ b'.'
    → last_dot dot (offsets i (b ∷ s)) ≡ last_dot dot (offsets (i + 1) s)
unfolding last_dot
last_dot-cons_ne dot i b s h = ground arith

pub last_dot-cases :
    (dot : Option ℕ) (i : ℕ) (s : Text) → DotCases dot i s (last_dot dot (offsets i s))
unfolding last_dot
last_dot-cases dot i [] = inl (tt, refl)
last_dot-cases dot i (b ∷ s) = elim (Bool-cases (b == b'.')) [
  | inl same ↦
      subst (λ c. DotCases dot i (c ∷ s) (last_dot dot (offsets i (c ∷ s))))
        (sym ((==_iff b _).0 same)) (DotCases-dot dot i s _ (last_dot-cases (some i) (i + 1) s))
  | inr other ↦
      let h : b ≢ b'.' = ground arith in
      subst (DotCases dot i (b ∷ s)) (sym (last_dot-cons_ne dot i b s h))
        (DotCases-cons dot i b s _ h (last_dot-cases dot (i + 1) s))
]

-- A text without the separator has no split.
not-Avoids : (c : ℕ) (left right : Text) → ¬ Avoids c (left ++ c ∷ right)
not-Avoids c [] right h = h.0 refl
not-Avoids c (b ∷ left) right h = not-Avoids c left right h.1

pub last_dot-append :
    (dot : Option ℕ) (i : ℕ) (left right : Text)
    → Avoids b'.' right
    → last_dot dot (offsets i (left ++ b'.' ∷ right)) ≡ some (i + length left)
unfolding last_dot
last_dot-append dot i [] right k = elim (last_dot-cases (some i) (i + 1) right) [
  | inl (_, kept) ↦ ground arith
  | inr (l, r, (e, free), _) ↦ absurd (not-Avoids b'.' l r (subst (Avoids b'.') e k))
]
last_dot-append dot i (b ∷ left) right k =
    ground (
      arith,
      last_dot-append dot (i + 1) left right k,
      last_dot-append (some i) (i + 1) left right k,
    )
