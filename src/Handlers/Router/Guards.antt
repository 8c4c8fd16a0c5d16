-- ===== src/Handlers/Router/Guards.antt =====
-- Which requests reach which handlers behind the routes of backend/internal/handlers/router.go.
use flow_cast.Auth.Tokens.Library.{JwtLib, UuidLib}
use flow_cast.Base.{
  ap, ◌∙◌, Text, bytes, Time, OneOf, if◌then◌else◌, ◌≡◌, refl, ◌⊎◌, inl, inr, Bool, true, false,
  ◌&&◌, Option, none, some, List, [], ◌∷◌, ◌++◌,
}
use flow_cast.Handlers.Router.{
  health_route, auth_routes, protected_part, serve_endpoint, serve_mux, Deps, Endpoints, Route,
  Match, route_found, routes, mounted, to_protected,
}
use flow_cast.Middleware.Recovery.{Outcome, returned}
use flow_cast.Http.{Request, Action}
use flow_cast.Api.Payload.{Payload}
use flow_cast.Auth.Tokens.{Tokens}
use flow_cast.Middleware.Authenticate.{authenticate}
use flow_cast.Middleware.Authenticate.Tenant.{AuthEnds, authenticate-AuthEnds}

-- The paths that need no token, each with its method and the handler that answers there.
abbrev pub public_handlers : Endpoints → List (Text × Text × (Request → Outcome))
public_handlers e =
    (bytes "GET", bytes "/health", e.health)
    ∷ (bytes "POST", bytes "/api/v1/auth/register", e.register)
    ∷ (bytes "POST", bytes "/api/v1/auth/login", e.login)
    ∷ (bytes "POST", bytes "/api/v1/auth/refresh", e.refresh)
    ∷ (bytes "POST", bytes "/api/v1/auth/logout", e.logout)
    ∷ []

-- A route of the table that needs no token; those of sessions are there with the stores alone.
abbrev pub IsPublic : Deps → Route → Type 0
IsPublic d route =
    (route ≡ health_route)
    ⊎ (OneOf route auth_routes × (d.has_users ≡ true) × (d.has_sessions ≡ true))

-- A route of a mounted handler, below /api/v1.
abbrev pub IsMounted : Deps → Route → Type 0
IsMounted d route =
    (tokens : Tokens) × (path : Text) × (d.tokens ≡ some tokens)
    × OneOf path d.protected_routes
    × (route ≡ record {
      method = none;
      path = bytes "/api/v1" ++ path;
      endpoint = to_protected tokens path;
    })

OneOf-append : {A : Type 0} (x : A) (xs ys : List A) → OneOf x (xs ++ ys) → OneOf x xs ⊎ OneOf x ys
OneOf-append x [] ys m = inr m
OneOf-append x (z ∷ xs) ys (inl e) = inl (inl e)
OneOf-append x (z ∷ xs) ys (inr m) = elim (OneOf-append x xs ys m) [
  | inl here ↦ inl (inr here)
  | inr there ↦ inr there
]

mounted-paths :
    (tokens : Tokens) (route : Route) (paths : List Text)
    → OneOf route (mounted tokens paths)
    → (path : Text) × OneOf path paths
      × (route ≡ record {
        method = none;
        path = bytes "/api/v1" ++ path;
        endpoint = to_protected tokens path;
      })
unfolding mounted
mounted-paths tokens route [] m = absurd m
mounted-paths tokens route (path ∷ paths) (inl e) = (path, inl refl, e)
mounted-paths tokens route (path ∷ paths) (inr m) =
    let (p, there, e) = mounted-paths tokens route paths m in (p, inr there, e)

protected_part-IsMounted :
    (d : Deps) (route : Route) (tokens : Option Tokens)
    → d.tokens ≡ tokens
    → OneOf route (protected_part tokens d.protected_routes)
    → IsMounted d route
protected_part-IsMounted d route none e m = absurd m
protected_part-IsMounted d route (some tokens) e m =
    let (path, there, same_route) = mounted-paths tokens route d.protected_routes m in
    (tokens, path, e, there, same_route)

if_listed :
    (b c : Bool) (route : Route)
    → OneOf route (if b && c then auth_routes else [])
    → OneOf route auth_routes × (b ≡ true) × (c ≡ true)
if_listed true true route m = (m, refl, refl)
if_listed true false route m = absurd m
if_listed false c route m = absurd m

routes-IsPublic :
    (d : Deps) (route : Route) → OneOf route (routes d) → IsPublic d route ⊎ IsMounted d route
unfolding routes
routes-IsPublic d route (inl e) = inl (inl e)
routes-IsPublic d route (inr m) =
    elim (OneOf-append route (if d.has_users && d.has_sessions then auth_routes else [])
      (protected_part d.tokens d.protected_routes) m) [
        | inl early ↦ inl (inr (if_listed d.has_users d.has_sessions route early))
        | inr late ↦ inr (protected_part-IsMounted d route d.tokens refl late)
      ]

module _ (jwt : JwtLib) (uuid : UuidLib) (marshal : Payload → Option Text)
    (match_route : List Route → Request → Match) (d : Deps) (e : Endpoints) (now : Time)
    (r : Request) where
  -- A mounted handler answers as Authenticate lets it.
  abbrev pub IsGuarded : Type 0
  IsGuarded =
      (tokens : Tokens) × (path : Text) × (actions : List Action) × (d.tokens ≡ some tokens)
      × OneOf path d.protected_routes
      × (serve_mux jwt uuid marshal match_route d e now r ≡ returned actions)
      × AuthEnds jwt uuid marshal tokens (e.protected path) now r actions

  mounted-IsGuarded :
      (route : Route) → match_route (routes d) r ≡ route_found route → IsMounted d route → IsGuarded
  unfolding serve_mux serve_endpoint
  mounted-IsGuarded route found_route (tokens, path, t, listed_path, same_route) = (
    tokens,
    path,
    authenticate jwt uuid marshal tokens (e.protected path) now r,
    t,
    listed_path,
    rw (found_route, serve_mux, same_route) refl,
    authenticate-AuthEnds jwt uuid marshal tokens (e.protected path) now r,
  )

  -- A public handler answers: the one of the path and the method of the route.
  abbrev pub IsServed : Route → Type 0
  IsServed route =
      (method : Text) × (path : Text) × (handler : Request → Outcome) × OneOf
        (method, path, handler) (public_handlers e)
      × (route.method ≡ some method)
      × (route.path ≡ path)
      × (serve_mux jwt uuid marshal match_route d e now r ≡ handler r)
      × ((path ≡ bytes "/health") ⊎ ((d.has_users ≡ true) × (d.has_sessions ≡ true)))

  served :
      (route : Route)
      → match_route (routes d) r ≡ route_found route
      → serve_mux jwt uuid marshal match_route d e now r
        ≡ serve_endpoint jwt uuid marshal match_route e now route.endpoint r
  unfolding serve_mux
  served route found_route = rw (found_route, serve_mux) refl

  -- A route that is the table's for one of the public handlers.
  at_route :
      (route public_route : Route) (method path : Text) (handler : Request → Outcome)
      → route ≡ public_route
      → match_route (routes d) r ≡ route_found route
      → OneOf (method, path, handler) (public_handlers e)
      → public_route.method ≡ some method
      → public_route.path ≡ path
      → serve_endpoint jwt uuid marshal match_route e now public_route.endpoint r ≡ handler r
      → (path ≡ bytes "/health") ⊎ ((d.has_users ≡ true) × (d.has_sessions ≡ true))
      → IsServed route
  at_route route public_route method path handler same_route found_route listed_handler m p runs
        stores =
      (
        method,
        path,
        handler,
        listed_handler,
        ap (λ (x : Route). x.method) same_route ∙ m,
        ap (λ (x : Route). x.path) same_route ∙ p,
        served route found_route
            ∙ ap (λ (x : Route). serve_endpoint jwt uuid marshal match_route e now x.endpoint r)
                same_route
            ∙ runs,
        stores,
      )

  public-IsServed :
      (route : Route)
      → match_route (routes d) r ≡ route_found route
      → IsPublic d route
      → IsServed route
  unfolding serve_endpoint
  public-IsServed route f (inl h) =
      at_route route _ _ _ e.health h f (inl refl) refl refl refl (inl refl)
  public-IsServed route f (inr (inl h, us, ss)) =
      at_route route _ _ _ e.register h f (inr (inl refl)) refl refl refl (inr (us, ss))
  public-IsServed route f (inr (inr (inl h), us, ss)) =
      at_route route _ _ _ e.login h f (inr (inr (inl refl))) refl refl refl (inr (us, ss))
  public-IsServed route f (inr (inr (inr (inl h)), us, ss)) =
      at_route route _ _ _ e.refresh h f (inr (inr (inr (inl refl)))) refl refl refl (inr (us, ss))
  public-IsServed route f (inr (inr (inr (inr (inl h))), us, ss)) =
      at_route route _ _ _ e.logout h f (inr (inr (inr (inr (inl refl))))) refl refl refl
        (inr (us, ss))
  public-IsServed route f (inr (inr (inr (inr (inr h))), us, ss)) = absurd h

  -- Where the mux finds only routes of its table, a request that it finds a route for is answered by the
  -- handler of the route's method and path: the health check or, with the stores of users and sessions,
  -- one of the four handlers of sessions; or by a mounted handler behind Authenticate, which runs only for
  -- the caller whom the access token of the request names.
  pub serve_mux-IsGuarded :
      (route : Route)
      → match_route (routes d) r ≡ route_found route
      → OneOf route (routes d)
      → IsServed route ⊎ IsGuarded
  serve_mux-IsGuarded route found_route listed_route = elim (routes-IsPublic d route listed_route) [
    | inl public ↦ inl (public-IsServed route found_route public)
    | inr protected_route ↦ inr (mounted-IsGuarded route found_route protected_route)
  ]
