-- ===== src/Examples/Health.antt =====
-- Health checks that end out of order, and requests for the routes.
use flow_cast.Base.{
  bytes, OneOf, if◌then◌else◌, ◌≡◌, refl, ◌≢◌, ◌⊎◌, inl, inr, true, none, some, List, [], ◌∷◌, ◌++◌,
  map, arith, pos,
}
use flow_cast.Examples.Web.{hello, bearer}
use flow_cast.Examples.World.{env, request_with, tokens}
use flow_cast.Handlers.Health.{
  health_ok, health_degraded, empty_results, finish_check, ProbeRun, probe_ok, probe_failed,
  run_check, write_health, health_body, health_status,
}
use flow_cast.Handlers.Health.Goroutines.{
  write_health-any_order, Probing, ends_at, EndsAll, none_ended, one_more, started,
}
use flow_cast.Handlers.Router.{to_protected, Deps, Endpoints, Route, route_found, routes}
use flow_cast.Middleware.Recovery.{returned, panicked}
use flow_cast.Http.{status_ok, status_unavailable}
use flow_cast.Examples.Jwt.{example_uuids, example_jwt}
use flow_cast.Handlers.Health.Report.{all_answered, by_name, health_body_lem}
use flow_cast.Handlers.Router.Guards.{IsServed, IsGuarded, serve_mux-IsGuarded}

abbrev postgres_up : ProbeRun
postgres_up = record {
  name = bytes "postgres";
  started = pos 0;
  stopped = pos 3000000;
  outcome = probe_ok;
}

abbrev redis_down : ProbeRun
redis_down = record {
  name = bytes "redis";
  started = pos 0;
  stopped = pos 9000000;
  outcome = probe_failed;
}

abbrev checks : List ProbeRun
checks = postgres_up ∷ redis_down ∷ []

abbrev redis_first : Probing
redis_first = record { results = finish_check checks 1 (empty_results checks); running = 0 ∷ [] }

abbrev both_done : Probing
both_done = record { results = finish_check checks 0 redis_first.results; running = [] }

both_end : EndsAll checks (started checks) 2 both_done
unfolding started
both_end =
    one_more (one_more none_ended (ends_at (0 ∷ []) 1 [] refl refl)) (ends_at [] 0 [] refl refl)

write_health-any_order_example :
    write_health env.marshal (bytes "dev") (request_with none) checks both_done.results
    ≡ write_health env.marshal (bytes "dev") (request_with none) checks (map run_check checks)
write_health-any_order_example =
    write_health-any_order env.marshal (bytes "dev") (request_with none) checks 2 both_done both_end
      refl

apart_names : bytes "redis" ≢ bytes "postgres"
unfolding bytes
apart_names h = absurd (ground arith)

health_body_lem_example :
    let body = health_body (bytes "dev") checks (map run_check checks) in
    (body ≡ record {
      status = if all_answered checks then health_ok else health_degraded;
      version = bytes "dev";
      checks = by_name checks;
    })
    × (health_status body ≡ (if all_answered checks then status_ok else status_unavailable))
health_body_lem_example = health_body_lem (bytes "dev") checks ((apart_names, tt), (tt, tt))

-- One mounted handler.
abbrev deps : Deps
deps = record {
  has_users = true;
  has_sessions = true;
  tokens = some tokens;
  protected_routes = bytes "/incidents" ∷ [];
}

abbrev endpoints : Endpoints
endpoints = record {
  health = λ r. returned hello;
  register = λ r. returned hello;
  login = λ r. returned hello;
  refresh = λ r. returned hello;
  logout = λ r. panicked [];
  protected = λ path r. hello;
}

abbrev incidents_route : Route
incidents_route = record {
  method = none;
  path = bytes "/api/v1" ++ bytes "/incidents";
  endpoint = to_protected tokens (bytes "/incidents");
}

is_listed : OneOf incidents_route (routes deps)
unfolding routes
is_listed = inr (inr (inr (inr (inr (inl refl)))))

serve_mux-IsGuarded_example :
    IsServed example_jwt example_uuids env.marshal
      (λ rs r. route_found incidents_route)
      deps
      endpoints
      (pos 100)
      (bearer [])
      incidents_route
    ⊎ IsGuarded example_jwt example_uuids env.marshal
        (λ rs r. route_found incidents_route)
        deps
        endpoints
        (pos 100)
        (bearer [])
serve_mux-IsGuarded_example =
    serve_mux-IsGuarded example_jwt example_uuids env.marshal (λ rs r. route_found incidents_route)
      deps endpoints (pos 100) (bearer []) incidents_route refl is_listed
