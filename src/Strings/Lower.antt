-- ===== src/Strings/Lower.antt =====
-- strings.ToLower of Go's standard library: byte by byte on ASCII, and rune by rune else, where
-- `lower_rune` is unicode.ToLower beyond ASCII.
use flow_cast.Base.{
  ℕ, ◌+◌, ◌/◌, ◌%◌, Bool, true, ◌&&◌, List, [], ◌∷◌, ◌++◌, map, Text, ltb, if◌then◌else◌, bytes,
  ◌≡◌, refl,
}
use flow_cast.Strings.{range, in_range}

-- utf8.AppendRune: a rune that is out of range is written as the replacement character.
unfoldable pub encode_rune : ℕ → Text
encode_rune r =
    if ltb r 0x80
    then r ∷ []
    else if ltb r 0x800
    then (0xC0 + r / 64) ∷ (0x80 + r % 64) ∷ []
    else if in_range 0xD800 0xDFFF r
    then 0xEF ∷ 0xBF ∷ 0xBD ∷ []
    else if ltb r 0x10000
    then (0xE0 + r / 4096) ∷ (0x80 + r / 64 % 64) ∷ (0x80 + r % 64) ∷ []
    else if ltb r 0x110000
    then (0xF0 + r / 262144) ∷ (0x80 + r / 4096 % 64) ∷ (0x80 + r / 64 % 64) ∷ (0x80 + r % 64) ∷ []
    else 0xEF ∷ 0xBF ∷ 0xBD ∷ []

unfoldable pub lower_ascii : ℕ → ℕ
lower_ascii b = if in_range b'A' b'Z' b then b + 32 else b

unfoldable pub is_ascii : Text → Bool
is_ascii [] = true
is_ascii (b ∷ s) = ltb b 0x80 && is_ascii s

-- unicode.ToLower
abbrev pub to_lower_rune : (ℕ → ℕ) → ℕ → ℕ
to_lower_rune lower_rune r = if ltb r 0x80 then lower_ascii r else lower_rune r

unfoldable pub lower_runes : (ℕ → ℕ) → List (ℕ × ℕ) → Text
unfolding encode_rune
lower_runes lower_rune [] = []
lower_runes lower_rune ((i, r) ∷ rs) =
    encode_rune (to_lower_rune lower_rune r) ++ lower_runes lower_rune rs

unfoldable pub lower_text : (ℕ → ℕ) → Text → Text
unfolding is_ascii lower_ascii lower_runes
lower_text lower_rune s = if is_ascii s then map lower_ascii s else lower_runes lower_rune (range s)

lower_text_tests :
    (lower_text (λ r. r) (bytes "Ada@Example.COM") ≡ bytes "ada@example.com")
    × (lower_text (λ r. r) (0xC3 ∷ 0xA9 ∷ bytes "A" ++ 0xFF ∷ [])
        ≡ 0xC3 ∷ 0xA9 ∷ bytes "a" ++ 0xEF ∷ 0xBF ∷ 0xBD ∷ [])
unfolding lower_text bytes range
lower_text_tests = (refl, refl)
