-- ===== src/Examples/Accounts.antt =====
-- Accounts, passwords and the answers of the API at concrete requests.
use flow_cast.Base.{
  bytes, text_eq, text_eq_refl, length, ◌≤◌, ◌≡◌, refl, ◌↔◌, none, some, [], ◌∷◌, arith, pos, ok,
  err,
}
use flow_cast.Api.Decode.{decode_json}
use flow_cast.Auth.Password.{
  min_password_length, invalid_credentials, validate_password, hash, verify,
}
use flow_cast.Auth.Password.Laws.{hash-good, validate_password_iff}
use flow_cast.Examples.World.{
  ana, compare_salted, example_bcrypt, find_email, password, email, registration, credentials, env,
  handler, draws_at, request_with,
}
use flow_cast.Handlers.Env.{not_found}
use flow_cast.Handlers.Login.{login}
use flow_cast.Handlers.Login.Uniform.{Decodes, LoginEnds, login-LoginEnds, login-uniform}
use flow_cast.Handlers.Registration.{validate_registration, new_user}
use flow_cast.Handlers.Registration.Laws.{IsAcceptable, validate_registration_iff}
use flow_cast.Http.{Request}
use flow_cast.Models.Identity.{Team, User}
use flow_cast.Strings.{decode_rune, runes_from, range, rune_count}

abbrev plain_request : Request
plain_request = request_with none

body_credentials : Decodes env handler plain_request credentials
unfolding decode_json bytes text_eq
body_credentials = refl

nobody_known : find_email [] email ≡ err not_found
unfolding find_email
nobody_known = refl

abbrev ben : User
ben = record ana { password_hash = 9 ∷ 9 ∷ [] }

ben_known : find_email (ben ∷ []) email ≡ ok ben
unfolding find_email
ben_known = rw (text_eq_refl email)

ben_refused : verify example_bcrypt ben.password_hash password ≡ some invalid_credentials
unfolding verify compare_salted bytes text_eq
ben_refused = refl

login-uniform_example :
    ((login env handler (draws_at 1 1) [] plain_request).actions
      ≡ (login env handler (draws_at 2 5) (ben ∷ []) plain_request).actions)
    × ((length (login env handler (draws_at 1 1) [] plain_request).comparisons ≡ 1)
        × (length (login env handler (draws_at 2 5) (ben ∷ []) plain_request).comparisons ≡ 1))
login-uniform_example =
    login-uniform env handler (draws_at 1 1) (draws_at 2 5) [] (ben ∷ []) plain_request credentials
      ben invalid_credentials body_credentials nobody_known ben_known ben_refused

login-LoginEnds_example :
    LoginEnds env handler
      (draws_at 1 1)
      (ana ∷ [])
      plain_request
      (login env handler (draws_at 1 1) (ana ∷ []) plain_request)
login-LoginEnds_example = login-LoginEnds env handler (draws_at 1 1) (ana ∷ []) plain_request

validate_registration_iff_example :
    (validate_registration registration ≡ none) ↔ IsAcceptable registration
validate_registration_iff_example = validate_registration_iff registration

long : min_password_length ≤ rune_count password
unfolding bytes rune_count range runes_from decode_rune
long = omega arith

password_good : validate_password password ≡ none
unfolding bytes
password_good = (validate_password_iff password).1 (long, omega arith)

pub hashes_password : hash example_bcrypt 5 handler.hasher registration.password ≡ ok (5 ∷ password)
hashes_password =
    hash-good example_bcrypt 5 handler.hasher password (5 ∷ password) password_good refl

abbrev made : User
made = record (new_user registration (5 ∷ password)) { id = 1; team_id = 1 }

abbrev made_team : Team
made_team = record { id = 1; name = registration.team_name; created_at = pos 0; updated_at = pos 0 }
