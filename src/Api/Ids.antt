-- ===== src/Api/Ids.antt =====
-- backend/internal/api/requestid.go and identity.go. The context is two fields of the request.
pub mod Token
use flow_cast.Base.{
  Text, bytes, length, ltb, ◌==◌, if◌then◌else◌, ℕ, Bool, true, false, ◌||◌, Option, some, List, [],
  ◌∷◌,
}
use flow_cast.Strings.{range, in_range}
use flow_cast.Http.{Identity, Request}

abbrev pub request_id_header : Text
request_id_header = bytes "X-Request-ID"

abbrev pub max_request_id_len : ℕ
max_request_id_len = 64

unfoldable pub context_with_request_id : Request → Text → Request
context_with_request_id r id = record r { request_id = id }

unfoldable pub context_with_identity : Request → Identity → Request
context_with_identity r identity = record r { identity = some identity }

unfoldable pub identity_from : Request → Option Identity
identity_from r = r.identity

-- The cases of the switch in ValidRequestID.
abbrev pub token_rune : ℕ → Bool
token_rune r =
    in_range b'a' b'z' r
    || in_range b'A' b'Z' r
    || in_range b'0' b'9' r
    || r == b'-'
    || r == b'_'
    || r == b'.'

pub all_token_runes : List (ℕ × ℕ) → Bool
all_token_runes [] = true
all_token_runes ((i, r) ∷ rs) = if token_rune r then all_token_runes rs else false

unfoldable pub valid_request_id : Text → Bool
unfolding all_token_runes
valid_request_id id =
    if length id == 0 || ltb max_request_id_len (length id)
    then false
    else all_token_runes (range id)
