-- ===== src/Strings.antt =====
-- What the program uses of Go's strings: `range` over the runes of a string, `utf8.RuneCountInString`
-- and `strings.TrimSpace`, on bytes that need not be valid UTF-8. This is the language and its
-- standard library; the modules below show where a scan for runes is a scan for bytes.
pub mod Ascii
pub mod Lower
use flow_cast.Base.{
  not, ℕ, zero, suc, ◌+◌, ◌-◌, ◌*◌, ◌%◌, Bool, true, false, ◌&&◌, ◌||◌, List, [], ◌∷◌, ◌++◌, Text,
  ltb, leb, ◌==◌, if◌then◌else◌, length, take, bytes, ◌≡◌, refl,
}

-- utf8.RuneError with width 1: what a byte that starts no valid sequence decodes to.
abbrev pub rune_error : ℕ × ℕ
rune_error = (0xFFFD, 1)

abbrev pub in_range : ℕ → ℕ → ℕ → Bool
in_range lo hi b = leb lo b && leb b hi

-- The second byte of a sequence has a narrower range after four of the first bytes.
abbrev pub second_lo : ℕ → ℕ
second_lo b = if b == 0xE0 then 0xA0 else if b == 0xF0 then 0x90 else 0x80

abbrev pub second_hi : ℕ → ℕ
second_hi b = if b == 0xED then 0x9F else if b == 0xF4 then 0x8F else 0xBF

pub decode_two : ℕ → Text → ℕ × ℕ
decode_two b (c ∷ _) = if in_range 0x80 0xBF c then (b % 32 * 64 + c % 64, 2) else rune_error
decode_two b [] = rune_error

pub decode_three : ℕ → Text → ℕ × ℕ
decode_three b (c ∷ d ∷ _) =
    if in_range (second_lo b) (second_hi b) c && in_range 0x80 0xBF d
    then (b % 16 * 4096 + c % 64 * 64 + d % 64, 3)
    else rune_error
decode_three b _ = rune_error

pub decode_four : ℕ → Text → ℕ × ℕ
decode_four b (c ∷ d ∷ e ∷ _) =
    if in_range (second_lo b) (second_hi b) c && (in_range 0x80 0xBF d && in_range 0x80 0xBF e)
    then (b % 8 * 262144 + c % 64 * 4096 + d % 64 * 64 + e % 64, 4)
    else rune_error
decode_four b _ = rune_error

-- utf8.DecodeRuneInString on the byte `b` and those behind it: the rune and its width.
unfoldable pub decode_rune : ℕ → Text → ℕ × ℕ
unfolding decode_two decode_three decode_four
decode_rune b s =
    if ltb b 0x80
    then (b, 1)
    else if ltb b 0xC2
    then rune_error
    else if ltb b 0xE0
    then decode_two b s
    else if ltb b 0xF0
    then decode_three b s
    else if ltb b 0xF5
    then decode_four b s
    else rune_error

-- The pairs of a `range` loop, from byte offset `i`, where `skip` bytes belong to the last rune.
unfoldable pub runes_from : ℕ → ℕ → Text → List (ℕ × ℕ)
runes_from i skip [] = []
runes_from i (suc skip) (b ∷ s) = runes_from (i + 1) skip s
runes_from i zero (b ∷ s) =
    (i, (decode_rune b s).0) ∷ runes_from (i + 1) ((decode_rune b s).1 - 1) s

-- for i, r := range s
unfoldable pub range : Text → List (ℕ × ℕ)
unfolding runes_from decode_rune
range s = runes_from 0 0 s

unfoldable pub rune_count : Text → ℕ
unfolding range
rune_count s = length (range s)

-- unicode.IsSpace
unfoldable pub is_space : ℕ → Bool
is_space r =
    in_range 9 13 r
    || r == 0x20
    || r == 0x85
    || r == 0xA0
    || r == 0x1680
    || in_range 0x2000 0x200A r
    || r == 0x2028
    || r == 0x2029
    || r == 0x202F
    || r == 0x205F
    || r == 0x3000

-- Each rune with the bytes that encode it.
unfoldable pub chunks_from : ℕ → Text → List (ℕ × Text)
chunks_from skip [] = []
chunks_from (suc skip) (b ∷ s) = chunks_from skip s
chunks_from zero (b ∷ s) =
    let w = (decode_rune b s).1 - 1 in ((decode_rune b s).0, b ∷ take w s) ∷ chunks_from w s

unfoldable pub trim_left : List (ℕ × Text) → List (ℕ × Text)
unfolding is_space
trim_left [] = []
trim_left ((r, s) ∷ cs) = if is_space r then trim_left cs else (r, s) ∷ cs

abbrev pub keep_unless_last : ℕ × Text → List (ℕ × Text) → List (ℕ × Text)
keep_unless_last (r, s) [] = if is_space r then [] else (r, s) ∷ []
keep_unless_last c (d ∷ ds) = c ∷ d ∷ ds

unfoldable pub trim_right : List (ℕ × Text) → List (ℕ × Text)
unfolding is_space
trim_right [] = []
trim_right (c ∷ cs) = keep_unless_last c (trim_right cs)

unfoldable pub join_chunks : List (ℕ × Text) → Text
join_chunks [] = []
join_chunks ((r, s) ∷ cs) = s ++ join_chunks cs

-- strings.TrimSpace
unfoldable pub trim_space : Text → Text
unfolding chunks_from decode_rune trim_left trim_right join_chunks
trim_space s = join_chunks (trim_right (trim_left (chunks_from 0 s)))

trim_space_tests :
    (trim_space (bytes "  a b\n") ≡ bytes "a b")
    × (trim_space (0xC2 ∷ 0xA0 ∷ bytes "x" ++ 0xE2 ∷ 0x80 ∷ 0x89 ∷ []) ≡ bytes "x")
    × (trim_space (bytes " \t ") ≡ [])
unfolding trim_space bytes
trim_space_tests = (refl, refl, refl)
