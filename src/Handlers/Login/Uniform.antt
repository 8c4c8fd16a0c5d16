-- ===== src/Handlers/Login/Uniform.antt =====
-- What Login of backend/internal/handlers/auth.go tells of an account.
use flow_cast.Base.{
  length, [], ◌∷◌, Result-cases, Option-cases, ◌≡◌, inl, inr, none, some, ok, err, Text,
}
use flow_cast.Api.Decode.{decode_json}
use flow_cast.Api.Payload.{code_bad_request}
use flow_cast.Api.Respond.{write_error, write_internal_error}
use flow_cast.Auth.Password.{VerifyError, verify}
use flow_cast.Handlers.Cookies.{reject_credentials, respond_with_session}
use flow_cast.Handlers.Env.{
  StoreError, not_found, conflict, other_error, LoginRequest, Env, AuthHandler, Draws,
}
use flow_cast.Handlers.Login.{team_of, Answer, no_user, check_password, login_with, login}
use flow_cast.Http.{Request, status_ok, status_bad_request}
use flow_cast.Models.Identity.{User}

module _ (env : Env) (h : AuthHandler) where
  abbrev pub Decodes : Request → LoginRequest → Type 0
  Decodes r req = decode_json env.media_type env.quote env.decode_login env.more r ≡ ok req

  -- Every end of a login.
  pub data LoginEnds (d : Draws) (users : env.users.Users) (r : Request) : Answer → Type 0 where
    malformed :
        (message : Text)
        → LoginEnds d users r (record {
          actions = write_error env.marshal r status_bad_request code_bad_request message;
          comparisons = [];
        })
    turned_away :
        (compared : Text × Text)
        → LoginEnds d users r
            (record { actions = reject_credentials env h r; comparisons = compared ∷ [] })
    store_failed :
        LoginEnds d users r
          (record { actions = write_internal_error env.marshal r; comparisons = [] })
    logged_in :
        (req : LoginRequest) (user : User)
        → Decodes r req
        → env.users.find_by_email users req.email ≡ ok user
        → verify env.bcrypt user.password_hash req.password ≡ none
        → LoginEnds d users r (record {
          actions = respond_with_session env h d r status_ok user (team_of user);
          comparisons = (user.password_hash, req.password) ∷ [];
        })

  check_password-LoginEnds :
      (d : Draws) (users : env.users.Users) (r : Request) (req : LoginRequest) (user : User)
      → Decodes r req
      → env.users.find_by_email users req.email ≡ ok user
      → LoginEnds d users r (check_password env h d r req user)
  unfolding check_password
  check_password-LoginEnds d users r req user c f =
      elim (Option-cases (verify env.bcrypt user.password_hash req.password)) [
        | inl good ↦ rw (check_password, good) (logged_in req user c f good)
        | inr (e, bad) ↦ rw (check_password, bad) (turned_away _)
      ]

  no_user-LoginEnds :
      (d : Draws) (users : env.users.Users) (r : Request) (e : StoreError)
      → LoginEnds d users r (no_user env h r e)
  unfolding no_user
  no_user-LoginEnds d users r not_found = turned_away _
  no_user-LoginEnds d users r conflict = store_failed
  no_user-LoginEnds d users r other_error = store_failed

  -- Login answers a request that does not decode, a refusal after one comparison, a failure of the
  -- store, or a session: the last only for a user that the store has under the address of the request
  -- and whose hash verifies with its password.
  pub login-LoginEnds :
      (d : Draws) (users : env.users.Users) (r : Request)
      → LoginEnds d users r (login env h d users r)
  unfolding login login_with
  login-LoginEnds d users r =
      elim (Result-cases (decode_json env.media_type env.quote env.decode_login env.more r)) [
        | inl (message, bad) ↦ rw (login, bad) (malformed message)
        | inr (req, c) ↦ elim (Result-cases (env.users.find_by_email users req.email)) [
          | inl (e, missing) ↦ rw (login, c, login_with, missing) (no_user-LoginEnds d users r e)
          | inr (user, f) ↦
              rw (login, c, login_with, f) (check_password-LoginEnds d users r req user c f)
        ]
      ]

-- A login with the right password.
pub login-good :
    (env : Env) (h : AuthHandler) (d : Draws) (users : env.users.Users) (r : Request)
    (req : LoginRequest) (user : User)
    → Decodes env h r req
    → env.users.find_by_email users req.email ≡ ok user
    → verify env.bcrypt user.password_hash req.password ≡ none
    → (login env h d users r).actions ≡ respond_with_session env h d r status_ok user (team_of user)
unfolding login login_with check_password
login-good env h d users r req user c known good =
    rw (login, c, login_with, known, check_password, good)

-- A login with an address that no user has, and one with the address of a user and a wrong password,
-- get the same answer to the same request, and each makes one comparison of a hash with a password.
pub login-uniform :
    (env : Env) (h : AuthHandler) (d d' : Draws) (users users' : env.users.Users) (r : Request)
    (req : LoginRequest) (user : User) (e : VerifyError)
    → Decodes env h r req
    → env.users.find_by_email users req.email ≡ err not_found
    → env.users.find_by_email users' req.email ≡ ok user
    → verify env.bcrypt user.password_hash req.password ≡ some e
    → ((login env h d users r).actions ≡ (login env h d' users' r).actions)
      × ((length (login env h d users r).comparisons ≡ 1)
          × (length (login env h d' users' r).comparisons ≡ 1))
unfolding login login_with no_user check_password
login-uniform env h d d' users users' r req user e c missing known wrong = (
  rw (login, c, login_with, missing, known, check_password, wrong),
  (rw (login, c, login_with, missing), rw (login, c, login_with, known, check_password, wrong)),
)
