-- ===== src/Handlers/Registration.antt =====
-- Register of backend/internal/handlers/auth.go.
pub mod Laws
use flow_cast.Base.{
  Text, bytes, is_empty, length, ltb, if◌then◌else◌, uuid_nil, ℕ, not, Option, none, some, List, [],
  ◌∷◌, ◌++◌, pos, ok, err,
}
use flow_cast.Strings.{trim_space}
use flow_cast.Http.{Action, Request, status_bad_request, status_conflict, status_created}
use flow_cast.Models.Issues.{FieldIssue, ValidationError}
use flow_cast.Models.Email.{valid_email}
use flow_cast.Models.Identity.{User}
use flow_cast.Api.Payload.{code_bad_request, code_conflict}
use flow_cast.Api.Respond.{write_error, write_internal_error, write_validation_error}
use flow_cast.Api.Decode.{decode_json}
use flow_cast.Auth.Password.{validate_password, hash}
use flow_cast.Handlers.Env.{
  Env, AuthHandler, Draws, RegisterRequest, StoreError, conflict, not_found, other_error,
}
use flow_cast.Handlers.Cookies.{respond_with_session}
use flow_cast.Auth.Tokens.Library.{valid}

abbrev pub max_email_length : ℕ
max_email_length = 320

abbrev field_issue : Text → Text → List FieldIssue
field_issue field message = record { field = field; message = message } ∷ []

pub email_issues : Text → List FieldIssue
email_issues email =
    if is_empty email
    then field_issue (bytes "email") (bytes "is required")
    else if ltb max_email_length (length email)
    then field_issue (bytes "email") (bytes "is too long")
    else if not (valid_email email)
    then field_issue (bytes "email") (bytes "must be a valid email address")
    else []

pub blank_issues : Text → Text → List FieldIssue
blank_issues field value =
    if is_empty (trim_space value) then field_issue field (bytes "is required") else []

-- errors.As(auth.ValidatePassword(...), &passwordErr) holds of each of its errors.
abbrev pub issues_of : Option ValidationError → List FieldIssue
issues_of none = []
issues_of (some e) = e.issues

-- The end of the function: no issues are no error.
abbrev pub report : List FieldIssue → Option ValidationError
report [] = none
report (i ∷ is) = some (record { issues = i ∷ is })

unfoldable pub validate_registration : RegisterRequest → Option ValidationError
unfolding email_issues blank_issues
validate_registration req = report (
    email_issues (trim_space req.email)
    ++ (blank_issues (bytes "name") req.name
        ++ (blank_issues (bytes "team_name") req.team_name
            ++ issues_of (validate_password req.password))))

-- models.User{Email: …, PasswordHash: …, Name: …}
abbrev pub new_user : RegisterRequest → Text → User
new_user req hashed = record {
  id = uuid_nil;
  team_id = uuid_nil;
  email = req.email;
  password_hash = hashed;
  name = req.name;
  created_at = pos 0;
  updated_at = pos 0;
}

module _ (env : Env) (h : AuthHandler) where
  pub create_error : Request → StoreError → List Action
  create_error r conflict =
      write_error env.marshal r status_conflict code_conflict
        (bytes "An account with that email address already exists.")
  create_error r not_found = write_internal_error env.marshal r
  create_error r other_error = write_internal_error env.marshal r

  -- From the hash on, for a request that is valid.
  pub create_account :
      Draws → env.users.Users → Request → RegisterRequest → List Action × env.users.Users
  unfolding create_error
  create_account d db r req = elim (hash env.bcrypt d.salt h.hasher req.password) [
    | err _ ↦ (write_internal_error env.marshal r, db)
    | ok hashed ↦ elim (env.users.create_team_with_owner db req.team_name (new_user req hashed)) [
      | err e ↦ (create_error r e, db)
      | ok (team, user, db') ↦ (respond_with_session env h d r status_created user team, db')
    ]
  ]

  unfoldable pub register : Draws → env.users.Users → Request → List Action × env.users.Users
  unfolding create_account
  register d db r = elim (decode_json env.media_type env.quote env.decode_register env.more r) [
    | err message ↦ (write_error env.marshal r status_bad_request code_bad_request message, db)
    | ok req ↦ elim (validate_registration req) [
      | some e ↦ (write_validation_error env.marshal r (some e), db)
      | none ↦ create_account d db r req
    ]
  ]
