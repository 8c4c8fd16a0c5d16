-- ===== src/Handlers/Router.antt =====
-- backend/internal/handlers/router.go: the table of routes and the chain of middleware. The routers of
-- github.com/go-chi/chi and the middleware of github.com/go-chi/cors are arguments.
pub mod Guards
pub mod Chain
use flow_cast.Auth.Tokens.Library.{JwtLib, UuidLib}
use flow_cast.Base.{
  Time, ◌==◌, not, Text, bytes, if◌then◌else◌, ℕ, Bool, ◌&&◌, Option, none, some, List, [], ◌∷◌,
  ◌++◌,
}
use flow_cast.Http.{fresh_writer, status_internal, Request, Action, set_header}
use flow_cast.Middleware.Recovery.{Outcome, returned, aborted, panicked}
use flow_cast.Middleware.Cors.{CorsOptions, cors_options}
use flow_cast.Api.Payload.{code_internal, Payload, ErrorCode, code_not_found}
use flow_cast.Api.Ids.{request_id_header, context_with_request_id}
use flow_cast.Api.Respond.{write_error}
use flow_cast.Middleware.Recorder.{error, new_recorder, record_all, written}
use flow_cast.Middleware.RequestId.{chosen_id}
use flow_cast.Auth.Tokens.{Tokens}
use flow_cast.Middleware.Authenticate.{authenticate}

abbrev pub status_not_found : ℕ
status_not_found = 404

abbrev pub status_method_not_allowed : ℕ
status_method_not_allowed = 405

abbrev pub code_method_not_allowed : ErrorCode
code_method_not_allowed = bytes "method_not_allowed"

-- What a route leads to; a protected handler is named by the path it is mounted at, and stands behind
-- Authenticate with the token service.
pub data Endpoint : Type 0 where
  to_health to_register to_login to_refresh to_logout : Endpoint
  to_protected : Tokens → Text → Endpoint

-- A route with its method, which a mounted handler leaves open.
pub record Route : Type 0 where
  pub method : Option Text
  pub path : Text
  pub endpoint : Endpoint

-- Deps, as far as the routes depend on it.
pub record Deps : Type 0 where
  pub has_users : Bool
  pub has_sessions : Bool
  pub tokens : Option Tokens
  pub protected_routes : List Text

abbrev pub post : Text → Endpoint → Route
post path endpoint = record { method = some (bytes "POST"); path = path; endpoint = endpoint }

abbrev pub health_route : Route
health_route = record { method = some (bytes "GET"); path = bytes "/health"; endpoint = to_health }

abbrev pub auth_routes : List Route
auth_routes =
    post (bytes "/api/v1/auth/register") to_register
    ∷ post (bytes "/api/v1/auth/login") to_login
    ∷ post (bytes "/api/v1/auth/refresh") to_refresh
    ∷ post (bytes "/api/v1/auth/logout") to_logout
    ∷ []

unfoldable pub mounted : Tokens → List Text → List Route
mounted tokens [] = []
mounted tokens (path ∷ paths) =
    record { method = none; path = bytes "/api/v1" ++ path; endpoint = to_protected tokens path }
    ∷ mounted tokens paths

-- if deps.Tokens == nil { return }
abbrev pub protected_part : Option Tokens → List Text → List Route
protected_part none paths = []
protected_part (some tokens) paths = mounted tokens paths

unfoldable pub routes : Deps → List Route
unfolding mounted
routes d =
    health_route
    ∷ ((if d.has_users && d.has_sessions then auth_routes else [])
        ++ protected_part d.tokens d.protected_routes)

-- The handlers behind the endpoints.
pub record Endpoints : Type 0 where
  pub health : Request → Outcome
  pub register : Request → Outcome
  pub login : Request → Outcome
  pub refresh : Request → Outcome
  pub logout : Request → Outcome
  pub protected : Text → Request → List Action

-- What the mux finds for a request.
pub data Match : Type 0 where
  route_found : Route → Match
  no_route no_method : Match

unfoldable pub not_found_handler : (Payload → Option Text) → Request → List Action
not_found_handler marshal r =
    write_error marshal r status_not_found code_not_found
      (bytes "The requested resource does not exist.")

unfoldable pub method_not_allowed_handler : (Payload → Option Text) → Request → List Action
method_not_allowed_handler marshal r =
    write_error marshal r status_method_not_allowed code_method_not_allowed
      (bytes "That method is not supported for this resource.")

module _ (jwt : JwtLib) (uuid : UuidLib) (marshal : Payload → Option Text)
    (match_route : List Route → Request → Match) where
  unfoldable pub serve_endpoint : Endpoints → Time → Endpoint → Request → Outcome
  serve_endpoint e now to_health r = e.health r
  serve_endpoint e now to_register r = e.register r
  serve_endpoint e now to_login r = e.login r
  serve_endpoint e now to_refresh r = e.refresh r
  serve_endpoint e now to_logout r = e.logout r
  serve_endpoint e now (to_protected tokens path) r =
      returned (authenticate jwt uuid marshal tokens (e.protected path) now r)

  unfoldable pub serve_mux : Deps → Endpoints → Time → Request → Outcome
  unfolding serve_endpoint not_found_handler method_not_allowed_handler
  serve_mux d e now r = elim (match_route (routes d) r) [
    | route_found route ↦ serve_endpoint e now route.endpoint r
    | no_route ↦ returned (not_found_handler marshal r)
    | no_method ↦ returned (method_not_allowed_handler marshal r)
  ]

-- The calls of a handler as they pass the recovery of panics; none where the panic goes on.
unfoldable pub recovered_calls : (Payload → Option Text) → Request → Outcome → Option (List Action)
recovered_calls marshal r (returned actions) = some actions
recovered_calls marshal r (aborted actions) = none
recovered_calls marshal r (panicked actions) = some (
    actions
    ++ (if written (record_all (new_recorder fresh_writer) actions)
        then []
        else write_error marshal r status_internal code_internal
            (bytes "An unexpected error occurred. Please try again.")))

abbrev pub with_first : Action → Option (List Action) → Option (List Action)
with_first a none = none
with_first a (some actions) = some (a ∷ actions)

-- The chain: the request id outermost, then CORS, the logger and the recovery.
unfoldable pub with_middleware :
    (Payload → Option Text)
    → (CorsOptions → (Request → Option (List Action)) → Request → Option (List Action))
    → List Text
    → Text
    → (Request → Outcome)
    → Request
    → Option (List Action)
unfolding recovered_calls
with_middleware marshal cors origins drawn next r =
    let id = chosen_id drawn r.request_id_header in
    with_first (set_header request_id_header id) (
      cors (cors_options origins) (λ s. recovered_calls marshal s (next s))
        (context_with_request_id r id))
