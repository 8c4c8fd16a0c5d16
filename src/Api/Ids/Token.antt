-- ===== src/Api/Ids/Token.antt =====
-- The texts that ValidRequestID of backend/internal/api/requestid.go accepts.
use flow_cast.Base.{
  ltb, Bool-cases, ◌+◌, inl, inr, Text, length, All, ℕ, ◌≤◌, ◌<◌, ◌≡◌, refl, ◌↔◌, true, [], ◌∷◌,
  arith,
}
use flow_cast.Strings.{range, runes_from, decode_rune}
use flow_cast.Strings.Ascii.{decode_rune-IsWide, decode_rune_ascii}
use flow_cast.Api.Ids.{max_request_id_len, token_rune, all_token_runes, valid_request_id}

token_rune_ascii : (r : ℕ) → token_rune r ≡ true → r < 128
token_rune_ascii r h = ground arith

all_token_runes-runes_from :
    (i : ℕ) (s : Text)
    → (all_token_runes (runes_from i 0 s) ≡ true) ↔ All (λ b. token_rune b ≡ true) s
unfolding all_token_runes runes_from
all_token_runes-runes_from i [] = (λ _. tt, λ _. refl)
all_token_runes-runes_from i (b ∷ s) = elim (Bool-cases (ltb b 128)) [
  | inl ascii ↦
      let d = decode_rune_ascii b s (ground arith) in
      ground (arith, d, all_token_runes-runes_from (i + 1) s)
  | inr wide ↦
      let d = decode_rune-IsWide b s (ground arith) in
      ground (arith, d.0, token_rune_ascii b, token_rune_ascii (decode_rune b s).0)
]

-- ValidRequestID accepts exactly the texts of 1 to 64 bytes, each of them an ASCII letter or digit,
-- a dash, an underscore or a dot: no control byte, no space and no byte of another alphabet.
pub valid_request_id_iff :
    (id : Text)
    → (valid_request_id id ≡ true)
      ↔ ((1 ≤ length id) × (length id ≤ max_request_id_len) × All (λ b. token_rune b ≡ true) id)
unfolding valid_request_id range
valid_request_id_iff id = ground (arith, all_token_runes-runes_from 0 id)
