-- ===== src/Handlers/Login.antt =====
-- Login of backend/internal/handlers/auth.go. Beside the actions it lists the comparisons of a hash
-- with a password that bcrypt makes, which are what its time is spent on.
pub mod Uniform
use flow_cast.Base.{Text, ◌∷◌, ℕ, none, some, List, [], pos, ok, err}
use flow_cast.Http.{Action, Request, status_bad_request, status_ok}
use flow_cast.Models.Identity.{User, Team}
use flow_cast.Api.Payload.{code_bad_request}
use flow_cast.Api.Respond.{write_error, write_internal_error}
use flow_cast.Api.Decode.{decode_json}
use flow_cast.Auth.Password.{dummy_comparison, verify}
use flow_cast.Handlers.Env.{
  Env, AuthHandler, Draws, LoginRequest, StoreError, not_found, conflict, other_error,
}
use flow_cast.Handlers.Cookies.{reject_credentials, respond_with_session}

-- models.Team{ID: user.TeamID}
abbrev pub team_of : User → Team
team_of user = record { id = user.team_id; name = []; created_at = pos 0; updated_at = pos 0 }

pub record Answer : Type 0 where
  pub actions : List Action
  pub comparisons : List (Text × Text)

module _ (env : Env) (h : AuthHandler) where
  pub no_user : Request → StoreError → Answer
  no_user r not_found = record {
    actions = reject_credentials env h r;
    comparisons = dummy_comparison h.hasher ∷ [];
  }
  no_user r conflict = record { actions = write_internal_error env.marshal r; comparisons = [] }
  no_user r other_error = record { actions = write_internal_error env.marshal r; comparisons = [] }

  pub check_password : Draws → Request → LoginRequest → User → Answer
  check_password d r req user = elim (verify env.bcrypt user.password_hash req.password) [
    | some _ ↦ record {
      actions = reject_credentials env h r;
      comparisons = (user.password_hash, req.password) ∷ [];
    }
    | none ↦ record {
      actions = respond_with_session env h d r status_ok user (team_of user);
      comparisons = (user.password_hash, req.password) ∷ [];
    }
  ]

  pub login_with : Draws → env.users.Users → Request → LoginRequest → Answer
  unfolding no_user check_password
  login_with d db r req = elim (env.users.find_by_email db req.email) [
    | err e ↦ no_user r e
    | ok user ↦ check_password d r req user
  ]

  unfoldable pub login : Draws → env.users.Users → Request → Answer
  unfolding login_with
  login d db r = elim (decode_json env.media_type env.quote env.decode_login env.more r) [
    | err message ↦ record {
      actions = write_error env.marshal r status_bad_request code_bad_request message;
      comparisons = [];
    }
    | ok req ↦ login_with d db r req
  ]
