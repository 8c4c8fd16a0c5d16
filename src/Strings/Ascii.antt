-- ===== src/Strings/Ascii.antt =====
-- Scans over the runes of a string that look for an ASCII character, beside scans over its bytes.
use flow_cast.Base.{
  ℕ, zero, suc, ◌+◌, ◌-◌, ◌≡◌, ◌≤◌, ◌<◌, refl, List, [], ◌∷◌, Text, ltb, if◌then◌else◌, arith,
  Bool-cases, inl, inr,
}
use flow_cast.Strings.{decode_two, decode_three, decode_four, decode_rune, runes_from, range}

-- The first `k` bytes are there and are not ASCII.
abbrev pub High : ℕ → Text → Type 0
High zero s = Unit
High (suc k) [] = ⊥
High (suc k) (b ∷ s) = (128 ≤ b) × High k s

-- A decoded sequence: a rune that is not ASCII, and bytes behind the first that are not either.
abbrev IsWide : Text → ℕ × ℕ → Type 0
IsWide s d = (128 ≤ d.0) × High (d.1 - 1) s

decode_two-IsWide : (b : ℕ) (s : Text) → 194 ≤ b → b < 224 → IsWide s (decode_two b s)
unfolding decode_two
decode_two-IsWide b [] h k = (omega arith, tt)
decode_two-IsWide b (c ∷ s) h k = ground arith

decode_three-IsWide : (b : ℕ) (s : Text) → 224 ≤ b → b < 240 → IsWide s (decode_three b s)
unfolding decode_three
decode_three-IsWide b (c ∷ d ∷ s) h k = ground arith
decode_three-IsWide b _ h k = (omega arith, tt)

decode_four-IsWide : (b : ℕ) (s : Text) → 240 ≤ b → b < 245 → IsWide s (decode_four b s)
unfolding decode_four
decode_four-IsWide b (c ∷ d ∷ e ∷ s) h k = ground arith
decode_four-IsWide b _ h k = (omega arith, tt)

pub decode_rune-IsWide : (b : ℕ) (s : Text) → 128 ≤ b → IsWide s (decode_rune b s)
unfolding decode_rune
decode_rune-IsWide b s h =
    ground (arith, decode_two-IsWide b s, decode_three-IsWide b s, decode_four-IsWide b s)

-- The bytes of a string with their offsets.
abbrev pub offsets : ℕ → Text → List (ℕ × ℕ)
offsets i [] = []
offsets i (b ∷ s) = (i, b) ∷ offsets (i + 1) s

abbrev pub ascii_only : List (ℕ × ℕ) → List (ℕ × ℕ)
ascii_only [] = []
ascii_only ((i, r) ∷ rs) = if ltb r 128 then (i, r) ∷ ascii_only rs else ascii_only rs

pub decode_rune_ascii : (b : ℕ) (s : Text) → b < 128 → decode_rune b s ≡ (b, 1)
unfolding decode_rune
decode_rune_ascii b s h = ground arith

runes_from-ascii :
    (i k : ℕ) (s : Text) → High k s → ascii_only (runes_from i k s) ≡ ascii_only (offsets i s)
unfolding runes_from
runes_from-ascii i zero [] h = refl
runes_from-ascii i (suc k) [] h = absurd h
runes_from-ascii i (suc k) (b ∷ s) (wide, h) = ground (arith, runes_from-ascii (i + 1) k s h)
runes_from-ascii i zero (b ∷ s) h = elim (Bool-cases (ltb b 128)) [
  | inl ascii ↦ ground (arith, decode_rune_ascii b s, runes_from-ascii (i + 1) 0 s tt)
  | inr wide ↦
      let w = decode_rune-IsWide b s (ground arith) in
      ground (arith, w.0, runes_from-ascii (i + 1) ((decode_rune b s).1 - 1) s w.1)
]

pub range-ascii : (s : Text) → ascii_only (range s) ≡ ascii_only (offsets 0 s)
unfolding range
range-ascii s = runes_from-ascii 0 0 s tt
