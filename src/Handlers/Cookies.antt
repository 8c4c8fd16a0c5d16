-- ===== src/Handlers/Cookies.antt =====
-- The refresh cookie and the answers that the handlers of backend/internal/handlers/auth.go share.
use flow_cast.Base.{Text, bytes, ℕ, true, none, some, List, [], ◌∷◌, negsuc, ok, err}
use flow_cast.Http.{Cookie, Action, add_cookie, Request, status_unauthorized}
use flow_cast.Models.Identity.{User, Team}
use flow_cast.Api.Payload.{auth_payload, code_unauthorized}
use flow_cast.Api.Respond.{write_json, write_error, write_internal_error}
use flow_cast.Auth.Tokens.{TokenPair, issue_pair}
use flow_cast.Handlers.Env.{Env, AuthHandler, Draws}

abbrev pub refresh_cookie_name : Text
refresh_cookie_name = bytes "flowcast_refresh"

abbrev pub refresh_cookie_path : Text
refresh_cookie_path = bytes "/api/v1/auth"

abbrev pub refresh_cookie : AuthHandler → TokenPair → Cookie
refresh_cookie h pair = record {
  name = refresh_cookie_name;
  value = pair.refresh_token;
  path = refresh_cookie_path;
  http_only = true;
  secure = h.secure_cookies;
  same_site_strict = true;
  expires = some pair.refresh_expires_at;
  max_age = none;
}

unfoldable pub set_refresh_cookie : AuthHandler → TokenPair → Action
set_refresh_cookie h pair = add_cookie (refresh_cookie h pair)

abbrev pub cleared_cookie : AuthHandler → Cookie
cleared_cookie h = record {
  name = refresh_cookie_name;
  value = [];
  path = refresh_cookie_path;
  http_only = true;
  secure = h.secure_cookies;
  same_site_strict = true;
  expires = none;
  max_age = some (negsuc 0);
}

unfoldable pub clear_refresh_cookie : AuthHandler → Action
clear_refresh_cookie h = add_cookie (cleared_cookie h)

module _ (env : Env) (h : AuthHandler) where
  -- The reason goes to the log alone.
  unfoldable pub reject_credentials : Request → List Action
  reject_credentials r =
      write_error env.marshal r status_unauthorized code_unauthorized
        (bytes "Invalid email or password.")

  unfoldable pub reject_session : Request → List Action
  reject_session r =
      write_error env.marshal r status_unauthorized code_unauthorized
        (bytes "Your session has expired. Please sign in again.")

  unfoldable pub respond_with_session : Draws → Request → ℕ → User → Team → List Action
  unfolding set_refresh_cookie
  respond_with_session d r status user team =
      elim (issue_pair env.jwt env.uuid h.tokens d.issued_at d.refresh_id d.access_id user.id
        user.team_id) [
          | err _ ↦ write_internal_error env.marshal r
          | ok pair ↦
              set_refresh_cookie h pair
              ∷ write_json env.marshal r status (
                  auth_payload (record {
                    user = user;
                    team = team;
                    access_token = pair.access_token;
                    expires_at = pair.access_expires_at;
                  }))
        ]
