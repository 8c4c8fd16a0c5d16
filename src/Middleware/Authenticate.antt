-- ===== src/Middleware/Authenticate.antt =====
-- Authenticate of backend/internal/middleware/auth.go. The wrapped handler is a parameter, from the
-- request to its actions.
pub mod Tenant
use flow_cast.Base.{
  bytes, text_eq, is_empty, Time, length, take, drop, ltb, if◌then◌else◌, ℕ, ◌+◌, Bool, not, ◌||◌,
  Option, none, some, List, ◌∷◌, map, ok, err, Text,
}
use flow_cast.Api.Ids.{context_with_identity}
use flow_cast.Api.Payload.{ErrorCode, code_unauthorized, code_token_expired, Payload}
use flow_cast.Api.Respond.{write_error}
use flow_cast.Auth.Tokens.{
  TokenError, token_invalid, token_expired, wrong_token_kind, Tokens, user_id, parse_access,
}
use flow_cast.Auth.Tokens.Library.{Claims, expired, JwtLib, UuidLib}
use flow_cast.Http.{Action, set_header, Request, status_unauthorized}
use flow_cast.Strings.{in_range, trim_space}

abbrev pub bearer_prefix : Text
bearer_prefix = bytes "bearer "

-- strings.EqualFold with a text of ASCII letters other than k and s, where no rune beyond ASCII folds.
abbrev pub to_lower : ℕ → ℕ
to_lower b = if in_range b'A' b'Z' b then b + 32 else b

unfoldable pub equal_fold : Text → Text → Bool
equal_fold s t = text_eq (map to_lower s) (map to_lower t)

unfoldable pub bearer_token : Request → Option Text
unfolding equal_fold
bearer_token r =
    let header = r.authorization in
    let size = length bearer_prefix in
    if ltb (length header) size || not (equal_fold (take size header) bearer_prefix)
    then none
    else let token = trim_space (drop size header) in if is_empty token then none else some token

unfoldable pub unauthorized : (Payload → Option Text) → Request → ErrorCode → Text → List Action
unauthorized marshal r code message =
    set_header (bytes "WWW-Authenticate")
      (bytes "Bearer realm=\"flowcast\", error=\"invalid_token\"")
    ∷ write_error marshal r status_unauthorized code message

module _ (jwt : JwtLib) (uuid : UuidLib) (marshal : Payload → Option Text) (tokens : Tokens)
    (next : Request → List Action) where
  abbrev pub required : Request → List Action
  required r = unauthorized marshal r code_unauthorized (bytes "Authentication is required.")

  pub with_claims : Request → Claims → List Action
  with_claims r claims = elim (user_id jwt uuid claims) [
    | none ↦ required r
    | some user ↦
        next (context_with_identity r (record { user_id = user; team_id = claims.team_id }))
  ]

  pub rejected_token : Request → TokenError → List Action
  rejected_token r token_expired =
      unauthorized marshal r code_token_expired (bytes "Your access token has expired.")
  rejected_token r token_invalid = required r
  rejected_token r wrong_token_kind = required r

  pub with_token : Time → Request → Text → List Action
  unfolding with_claims rejected_token
  with_token now r raw = elim (parse_access jwt uuid tokens now raw) [
    | err e ↦ rejected_token r e
    | ok claims ↦ with_claims r claims
  ]

  unfoldable pub authenticate : Time → Request → List Action
  unfolding with_token
  authenticate now r = elim (bearer_token r) [ none ↦ required r | some raw ↦ with_token now r raw ]
