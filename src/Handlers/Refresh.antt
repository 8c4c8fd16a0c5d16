-- ===== src/Handlers/Refresh.antt =====
-- Refresh and Logout of backend/internal/handlers/auth.go, on the store of withdrawn tokens.
pub mod Remaining
pub mod Stages
pub mod Rotation
pub mod Ending
use flow_cast.Base.{
  Option, Text, Time, Duration, time_sub, Uuid, true, false, not, none, some, List, [], ◌∷◌, pos,
  ok, err,
}
use flow_cast.Http.{Action, write_header, Request, status_ok, status_no_content}
use flow_cast.Models.Identity.{User}
use flow_cast.Api.Respond.{write_internal_error}
use flow_cast.Auth.Tokens.Library.{Claims}
use flow_cast.Auth.Tokens.{TokenError, user_id, parse_refresh}
use flow_cast.Sessions.{revoke, is_revoked}
use flow_cast.Handlers.Env.{Env, AuthHandler, Draws, StoreError, not_found, conflict, other_error}
use flow_cast.Handlers.Cookies.{clear_refresh_cookie, reject_session, respond_with_session}
use flow_cast.Handlers.Login.{team_of}

-- time.Until(claims.ExpiresAt.Time), read at `now`.
unfoldable pub remaining_life : Claims → Time → Duration
remaining_life claims now = elim claims.expires_at [
  | none ↦ pos 0
  | some expiry ↦ time_sub expiry now
]

module _ (env : Env) (h : AuthHandler) where
  abbrev pub Reply : Type 0
  Reply = List Action × env.redis.Db

  -- The cookie is dropped and the session refused.
  unfoldable pub refuse : Request → List Action
  refuse r = clear_refresh_cookie h ∷ reject_session env h r

  -- The revocation and the new session.
  pub rotate : Draws → env.redis.Db → Request → Claims → Uuid → User → Reply
  rotate d db r claims token_id user =
      elim (revoke env.redis env.uuid db d.revoked_at token_id (remaining_life claims d.until_at)) [
        | none ↦ (write_internal_error env.marshal r, db)
        | some db' ↦ (respond_with_session env h d r status_ok user (team_of user), db')
      ]

  pub unknown_user : env.redis.Db → Request → StoreError → Reply
  unfolding refuse
  unknown_user db r not_found = (refuse r, db)
  unknown_user db r conflict = (write_internal_error env.marshal r, db)
  unknown_user db r other_error = (write_internal_error env.marshal r, db)

  -- From the user id on, for a token that is not withdrawn.
  pub renew : Draws → env.users.Users → env.redis.Db → Request → Claims → Uuid → Reply
  unfolding rotate unknown_user refuse
  renew d users db r claims token_id = elim (user_id env.jwt env.uuid claims) [
    | none ↦ (refuse r, db)
    | some user_id ↦ elim (env.users.find_by_id users user_id) [
      | err e ↦ unknown_user db r e
      | ok user ↦ rotate d db r claims token_id user
    ]
  ]

  -- From the token's id on, for a token that is valid.
  pub refresh_claims : Draws → env.users.Users → env.redis.Db → Request → Claims → Reply
  unfolding renew refuse
  refresh_claims d users db r claims = elim (env.uuid.parse claims.id) [
    | none ↦ (refuse r, db)
    | some token_id ↦ elim (is_revoked env.redis env.uuid db d.checked_at token_id) [
      | none ↦ (write_internal_error env.marshal r, db)
      | some true ↦ (refuse r, db)
      | some false ↦ renew d users db r claims token_id
    ]
  ]

  -- From the cookie on.
  pub refresh_with : Draws → env.users.Users → env.redis.Db → Request → Option Text → Reply
  unfolding refresh_claims refuse
  refresh_with d users db r none = (reject_session env h r, db)
  refresh_with d users db r (some value) =
      elim (parse_refresh env.jwt env.uuid h.tokens d.parsed_at value) [
        | err _ ↦ (refuse r, db)
        | ok claims ↦ refresh_claims d users db r claims
      ]

  unfoldable pub refresh : Draws → env.users.Users → env.redis.Db → Request → Reply
  unfolding refresh_with
  refresh d users db r = refresh_with d users db r r.refresh_cookie

  abbrev pub no_content : List Action
  no_content = clear_refresh_cookie h ∷ write_header status_no_content ∷ []

  pub withdraw : Draws → env.redis.Db → Request → Claims → Reply
  withdraw d db r claims = elim (env.uuid.parse claims.id) [
    | none ↦ (no_content, db)
    | some token_id ↦
        elim (revoke env.redis env.uuid db d.revoked_at token_id
          (remaining_life claims d.until_at)) [
            | none ↦ (clear_refresh_cookie h ∷ write_internal_error env.marshal r, db)
            | some db' ↦ (no_content, db')
          ]
  ]

  pub logout_with : Draws → env.redis.Db → Request → Option Text → Reply
  unfolding withdraw
  logout_with d db r none = (no_content, db)
  logout_with d db r (some value) =
      elim (parse_refresh env.jwt env.uuid h.tokens d.parsed_at value) [
        | err _ ↦ (no_content, db)
        | ok claims ↦ withdraw d db r claims
      ]

  unfoldable pub logout : Draws → env.redis.Db → Request → Reply
  unfolding logout_with
  logout d db r = logout_with d db r r.refresh_cookie
