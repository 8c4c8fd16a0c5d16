-- ===== src/Handlers/Registration/Laws.antt =====
-- Registrations and the credentials they leave (backend/internal/handlers/auth.go).
use flow_cast.Base.{
  sym, subst, iff_trans, List, ◌∷◌, ◌++◌, ok, bytes, is_empty, length, ◌≤◌, ◌≡◌, ◌↔◌, true, false,
  none, [], arith, Text,
}
use flow_cast.Auth.Password.{
  validate_password, hash, verify, min_password_length, max_password_bytes,
}
use flow_cast.Handlers.Env.{UserStore, Env, AuthHandler, Draws, RegisterRequest}
use flow_cast.Handlers.Registration.{
  issues_of, report, new_user, create_account, max_email_length, email_issues, blank_issues,
  validate_registration,
}
use flow_cast.Models.Email.{valid_email}
use flow_cast.Strings.{rune_count, trim_space}
use flow_cast.Auth.Password.Laws.{validate_password_iff, hash-verify}
use flow_cast.Handlers.Cookies.{respond_with_session}
use flow_cast.Handlers.Login.{team_of, login}
use flow_cast.Handlers.Login.Uniform.{login-good, Decodes}
use flow_cast.Http.{Request, status_ok, status_created}
use flow_cast.Models.Identity.{Team, User}
use flow_cast.Models.Issues.{FieldIssue}

-- What a registration has to meet.
pub record IsAcceptable (req : RegisterRequest) : Type 0 where
  pub email_given : is_empty (trim_space req.email) ≡ false
  pub email_short : length (trim_space req.email) ≤ max_email_length
  pub email_valid : valid_email (trim_space req.email) ≡ true
  pub name_given : is_empty (trim_space req.name) ≡ false
  pub team_given : is_empty (trim_space req.team_name) ≡ false
  pub password_long : min_password_length ≤ rune_count req.password
  pub password_short : length req.password ≤ max_password_bytes

email_issues_iff :
    (email : Text)
    → (email_issues email ≡ [])
      ↔ ((is_empty email ≡ false) × (length email ≤ max_email_length) × (valid_email email ≡ true))
unfolding email_issues
email_issues_iff email = ground arith

blank_issues_iff :
    (field value : Text) → (blank_issues field value ≡ []) ↔ (is_empty (trim_space value) ≡ false)
unfolding blank_issues
blank_issues_iff field value = ground arith

none_of_no_issues :
    (plain : Text) → (issues_of (validate_password plain) ≡ []) ↔ (validate_password plain ≡ none)
unfolding validate_password
none_of_no_issues plain = ground arith

password_issues_iff :
    (plain : Text)
    → (issues_of (validate_password plain) ≡ [])
      ↔ ((min_password_length ≤ rune_count plain) × (length plain ≤ max_password_bytes))
password_issues_iff plain = iff_trans (none_of_no_issues plain) (validate_password_iff plain)

report_iff : (is : List FieldIssue) → (report is ≡ none) ↔ (is ≡ [])
report_iff [] = ground arith
report_iff (i ∷ is) = ground arith

append_nil_iff : (is js : List FieldIssue) → (is ++ js ≡ []) ↔ ((is ≡ []) × (js ≡ []))
append_nil_iff [] js = ground arith
append_nil_iff (i ∷ is) js = ground arith

all_clean_iff :
    (a b c e : List FieldIssue)
    → (report (a ++ (b ++ (c ++ e))) ≡ none) ↔ ((a ≡ []) × (b ≡ []) × (c ≡ []) × (e ≡ []))
all_clean_iff a b c e = ground (
  arith,
  report_iff (a ++ (b ++ (c ++ e))),
  append_nil_iff a (b ++ (c ++ e)),
  append_nil_iff b (c ++ e),
  append_nil_iff c e,
)

-- ValidateRegistration reports no error exactly for an acceptable request: an address that, trimmed,
-- is not empty, has at most 320 bytes and is valid; a name and a team name that are not blank; and a
-- password of at least 12 characters and at most 72 bytes.
pub validate_registration_iff :
    (req : RegisterRequest) → (validate_registration req ≡ none) ↔ IsAcceptable req
unfolding validate_registration
validate_registration_iff req =
    iff_trans
      (all_clean_iff (email_issues (trim_space req.email)) (blank_issues (bytes "name") req.name)
        (blank_issues (bytes "team_name") req.team_name)
        (issues_of (validate_password req.password)))
      (ground (
        arith,
        email_issues_iff (trim_space req.email),
        blank_issues_iff (bytes "name") req.name,
        blank_issues_iff (bytes "team_name") req.team_name,
        password_issues_iff req.password,
      ))

-- The user that Create made is found under the address it was made with, with its hash.
abbrev pub FindsCreated : UserStore → Type 0
FindsCreated store =
    (db db' : store.Users) (name : Text) (user made : User) (team : Team)
    → store.create_team_with_owner db name user ≡ ok (team, made, db')
    → (found_user : User) × (store.find_by_email db' user.email ≡ ok found_user)
      × (found_user.password_hash ≡ user.password_hash)
      × (found_user.id ≡ made.id)

-- Where the password is hashed and the store creates the rows, the answer is a session of the user.
pub create_account-made :
    (env : Env) (h : AuthHandler) (d : Draws) (db db' : env.users.Users) (r : Request)
    (req : RegisterRequest) (hashed : Text) (team : Team) (made : User)
    → hash env.bcrypt d.salt h.hasher req.password ≡ ok hashed
    → env.users.create_team_with_owner db req.team_name (new_user req hashed) ≡ ok (team, made, db')
    → create_account env h d db r req
      ≡ (respond_with_session env h d r status_created made team, db')
unfolding create_account
create_account-made env h d db db' r req hashed team made hashes creates =
    rw (create_account, hashes, creates)

-- Where the store finds a user that it has created, the credentials of a registration that went
-- through log in: the login answers with a session of the user that was made.
pub create_account-login :
    (env : Env) (h : AuthHandler) (d d' : Draws) (db db' : env.users.Users) (r r' : Request)
    (req : RegisterRequest) (hashed : Text) (team : Team) (made : User)
    → FindsCreated env.users
    → hash env.bcrypt d.salt h.hasher req.password ≡ ok hashed
    → env.users.create_team_with_owner db req.team_name (new_user req hashed) ≡ ok (team, made, db')
    → Decodes env h r' (record { email = req.email; password = req.password })
    → (create_account env h d db r req
        ≡ (respond_with_session env h d r status_created made team, db'))
      × ((user : User) × (user.id ≡ made.id)
          × ((login env h d' db' r').actions
              ≡ respond_with_session env h d' r' status_ok user (team_of user)))
create_account-login env h d d' db db' r r' req hashed team made finds hashes creates c =
    let (user, known, same_hash, same_user) =
      finds db db' req.team_name (new_user req hashed) made team creates in
    let good : verify env.bcrypt user.password_hash req.password ≡ none =
      subst (λ x. verify env.bcrypt x req.password ≡ none) (sym same_hash)
        ((hash-verify env.bcrypt d.salt h.hasher req.password).0 hashed hashes) in
    (
      create_account-made env h d db db' r req hashed team made hashes creates,
      (
        user,
        same_user,
        login-good env h d' db' r' (record { email = req.email; password = req.password }) user c
            known good,
      ),
    )
