-- ===== src/Examples/Sessions.antt =====
-- The handlers of a session at concrete requests.
use flow_cast.Base.{
  ◌+ℤ◌, max_duration, ◌-ℤ◌, ◌≤ℤ◌, ◌⊎◌, err, bytes, time_sub, ◌≡◌, refl, false, some, [], ◌∷◌, ◌++◌,
  arith, pos, ok, Text,
}
use flow_cast.Auth.Tokens.{
  token_refresh, wrong_token_kind, user_id, parse_access, token_access, TokenPair, new_claims, sign,
  issue_pair, parse_refresh,
}
use flow_cast.Auth.Tokens.Kinds.{refresh_token_claims, issue_pair-kinds}
use flow_cast.Auth.Tokens.Library.{Claims}
use flow_cast.Examples.Jwt.{example_uuids, encode, example_jwt}
use flow_cast.Examples.World.{
  env, handler, draws_at, request_with, Keys, look_up, example_redis, find_id, tokens, ana,
}
use flow_cast.Handlers.Refresh.{refresh, no_content, logout, remaining_life}
use flow_cast.Sessions.{revoke, is_revoked}
use flow_cast.Api.Respond.{write_internal_error}
use flow_cast.Auth.Tokens.Parsing.{IsTrusted, parse_token-IsTrusted}
use flow_cast.Handlers.Cookies.{clear_refresh_cookie}
use flow_cast.Handlers.Refresh.Ending.{ClearsCookie, logout-ClearsCookie, logout-withdraws}
use flow_cast.Handlers.Refresh.Rotation.{nothing, Rebuffed, refresh-single_use}
use flow_cast.Handlers.Refresh.Stages.{Rotates, Ends, refresh-Ends}
use flow_cast.Http.{response, Request}
use flow_cast.Sessions.Revocation.{IsWithdrawn, revoke-IsWithdrawn}

abbrev ana_claims : Claims
ana_claims = refresh_token_claims example_jwt example_uuids tokens (pos 50) 21 11 12

abbrev cookie : Text
cookie = encode tokens.secret ana_claims

abbrev pair : TokenPair
pair = record {
  access_token =
      encode tokens.secret
        (new_claims example_jwt example_uuids 11 12 token_access 22 (pos 50) (pos 950));
  refresh_token = cookie;
  access_expires_at = pos 950;
  refresh_expires_at = pos 2592050;
  refresh_id = 21;
}

issued_pair : issue_pair example_jwt example_uuids tokens (pos 50) 21 22 11 12 ≡ ok pair
unfolding issue_pair sign ◌+ℤ◌
issued_pair = refl

parsed_cookie : parse_refresh example_jwt example_uuids tokens (pos 100) cookie ≡ ok ana_claims
parsed_cookie =
    (issue_pair-kinds example_jwt example_uuids tokens (pos 50) (pos 100) (pos 100) 21 22 11 12 pair
      issued_pair (omega arith) (omega arith) (omega arith) (omega arith)).0

abbrev key : Text
key = bytes "flowcast:auth:revoked:" ++ 21 ∷ []

abbrev withdrawn_keys : Keys
withdrawn_keys = (key, pos 2592050) ∷ []

ana_is_known : find_id (ana ∷ []) 11 ≡ ok ana
unfolding find_id
ana_is_known = refl

not_withdrawn : is_revoked example_redis example_uuids [] (pos 100) 21 ≡ some false
unfolding is_revoked look_up
not_withdrawn = refl

withdrawing :
    revoke example_redis example_uuids [] (pos 100) 21 (remaining_life ana_claims (pos 100))
    ≡ some withdrawn_keys
unfolding revoke remaining_life new_claims time_sub bytes ◌-ℤ◌ ◌+ℤ◌
withdrawing = refl

dated_claims : ana_claims.expires_at ≡ some (pos 2592050)
unfolding new_claims ◌+ℤ◌
dated_claims = refl

named_claims : example_uuids.parse ana_claims.id ≡ some 21
unfolding new_claims
named_claims = refl

subject_of_claims : user_id example_jwt example_uuids ana_claims ≡ some 11
unfolding new_claims user_id
subject_of_claims = refl

abbrev first : Request
first = request_with (some cookie)

abbrev first_rotates :
    Rotates env handler (draws_at 100 30) (ana ∷ []) [] first ana_claims 21 ana withdrawn_keys
first_rotates = record {
  cookie = cookie;
  presented = refl;
  parsed = parsed_cookie;
  named = named_claims;
  live = not_withdrawn;
  owner = 11;
  subject = subject_of_claims;
  known = ana_is_known;
  withdrawn = withdrawing;
}

fits_duration : (pos 2592050 -ℤ pos 100) ≤ℤ max_duration
unfolding ◌-ℤ◌
fits_duration = omega arith

abbrev after_first : Keys
after_first = (refresh env handler (draws_at 100 30) (ana ∷ []) [] first).1

refresh-single_use_example :
    Rebuffed env handler [] first (refresh env handler (draws_at 100 30) (ana ∷ []) [] first)
    ⊎ Rebuffed env handler after_first first
        (refresh env handler (draws_at 200 40) (ana ∷ []) after_first first)
refresh-single_use_example =
    refresh-single_use env handler (draws_at 100 30) (draws_at 200 40) (ana ∷ []) (ana ∷ []) []
      after_first first first cookie ana_claims 21 (pos 2592050) refl parsed_cookie named_claims
      dated_claims (omega arith) fits_duration refl (omega arith) (omega arith) nothing

refresh-Ends_example :
    Ends env handler
      (draws_at 100 30)
      (ana ∷ [])
      []
      first
      (refresh env handler (draws_at 100 30) (ana ∷ []) [] first)
refresh-Ends_example = refresh-Ends env handler (draws_at 100 30) (ana ∷ []) [] first

logout-withdraws_example :
    ((db : Keys) × (logout env handler (draws_at 100 30) [] first ≡ (no_content env handler, db))
      × IsWithdrawn example_redis example_uuids db 21 (pos 100) (pos 2592050))
    ⊎ (logout env handler (draws_at 100 30) [] first
        ≡ (clear_refresh_cookie handler ∷ write_internal_error env.marshal first, []))
logout-withdraws_example =
    logout-withdraws env handler (draws_at 100 30) [] first cookie ana_claims 21 (pos 2592050) refl
      parsed_cookie named_claims dated_claims (omega arith) fits_duration

logout-ClearsCookie_example :
    ClearsCookie handler (response (logout env handler (draws_at 100 30) [] first).0)
logout-ClearsCookie_example = logout-ClearsCookie env handler (draws_at 100 30) [] first

issue_pair-kinds_example :
    (parse_refresh example_jwt example_uuids tokens (pos 2000) cookie ≡ ok ana_claims)
    × (parse_access example_jwt example_uuids tokens (pos 2000) cookie ≡ err wrong_token_kind)
    × (parse_refresh example_jwt example_uuids tokens (pos 100) pair.access_token
        ≡ err wrong_token_kind)
issue_pair-kinds_example =
    issue_pair-kinds example_jwt example_uuids tokens (pos 50) (pos 2000) (pos 100) 21 22 11 12 pair
      issued_pair (omega arith) (omega arith) (omega arith) (omega arith)

parse_token-IsTrusted_example : IsTrusted example_uuids (pos 100) token_refresh ana_claims
unfolding parse_refresh
parse_token-IsTrusted_example =
    parse_token-IsTrusted example_jwt example_uuids tokens (pos 100) cookie token_refresh ana_claims
      parsed_cookie

withdrawing_for :
    revoke example_redis example_uuids [] (pos 100) 21 (pos 2592050 -ℤ pos 90)
    ≡ some ((key, pos 2592060) ∷ [])
unfolding revoke bytes ◌-ℤ◌ ◌+ℤ◌
withdrawing_for = refl

revoke-IsWithdrawn_example :
    IsWithdrawn example_redis example_uuids ((key, pos 2592060) ∷ []) 21 (pos 100) (pos 2592050)
revoke-IsWithdrawn_example =
    revoke-IsWithdrawn example_redis example_uuids [] ((key, pos 2592060) ∷ []) (pos 90) (pos 100)
      21 (pos 2592050) (omega arith) withdrawing_for
