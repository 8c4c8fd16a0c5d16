-- ===== src/Startup/Running/Serves.antt =====
-- When the program of backend/cmd/server/main.go comes to serve, and with what.
use flow_cast.Base.{
  ◌⊎◌, inl, inr, err, ap, ◌∙◌, ◌++◌, Text, bytes, eq_ℤ, ℤ, ◌≡◌, refl, true, none, some, List, [],
  ◌∷◌, arith, pos, negsuc, ok,
}
use flow_cast.Startup.Running.{
  exit_status, main, with_dot_env, connecting_database, connecting_redis, Run, deferring, connected,
  App, server_error, start_server, with_hasher, with_redis, with_schema, with_database, with_config,
  load_config, World, run,
}
use flow_cast.Config.Types.{is_production, Config}
use flow_cast.Config.Accepted.Started.{load-services}
use flow_cast.Config.Loading.{min_bcrypt_cost, max_bcrypt_cost}
use flow_cast.Config.Validating.{load}
use flow_cast.Migrations.{AppliedMigration}
use flow_cast.Migrations.Files.{migrate}
use flow_cast.Startup.Connecting.{
  database, redis_client, opened, closed, connect_database, connect_redis, width,
  verify_embedding_dimensions,
}
use flow_cast.Startup.Serving.{new_server, run_server}
use flow_cast.Config.DotEnv.{DiskPath, no_dot_env, load_dot_env}
use flow_cast.Handlers.Router.{health_route, auth_routes, routes}

-- What has to go well outside of the program.
pub record IsUp (w : World) (cfg : Config) (dummy : Text) : Type 1 where
  pub env_read :
      (load_dot_env w.disk ≡ err no_dot_env) ⊎ ((path : DiskPath) × (load_dot_env w.disk ≡ ok path))
  pub loaded : load w.os ≡ ok cfg
  pub database_open :
      connect_database w.parse_dsn w.pool_made w.database_pings cfg.database
      ≡ (ok tt, opened database ∷ [])
  pub migrated :
      (applied : List AppliedMigration) × ((migrate w.server w.files w.faults w.readiness
          w.session).0
        ≡ ok applied)
  pub column_fits : w.width ≡ width cfg.ai.embedding_dimensions
  pub redis_open :
      connect_redis w.redis_parses w.redis_pings cfg.redis ≡ (ok tt, opened redis_client ∷ [])
  pub costs : (w.bcrypt.min_cost ≡ min_bcrypt_cost) × (w.bcrypt.max_cost ≡ max_bcrypt_cost)
  pub hashes :
      w.bcrypt.generate w.salt (bytes "flowcast-timing-equalizer") cfg.auth.bcrypt_cost ≡ some dummy

-- The services of a configuration.
abbrev pub app_of : Config → Text → App
app_of cfg dummy = record {
  hasher = record { cost = cfg.auth.bcrypt_cost; dummy_hash = dummy };
  tokens = record {
    secret = cfg.auth.jwt_secret;
    access_ttl = cfg.auth.access_token_ttl;
    refresh_ttl = cfg.auth.refresh_token_ttl;
  };
  secure_cookies = is_production cfg.env;
  deps = record {
    has_users = true;
    has_sessions = true;
    tokens = some (record {
      secret = cfg.auth.jwt_secret;
      access_ttl = cfg.auth.access_token_ttl;
      refresh_ttl = cfg.auth.refresh_token_ttl;
    });
    protected_routes = [];
  };
  http = new_server cfg.server;
}

eq_ℤ-self : (a : ℤ) → eq_ℤ a a ≡ true
eq_ℤ-self (pos n) = ground arith
eq_ℤ-self (negsuc n) = ground arith

module _ (w : World) (cfg : Config) (dummy : Text) (up : IsUp w cfg dummy) where
  fits : verify_embedding_dimensions w.width cfg.ai.embedding_dimensions ≡ none
  unfolding verify_embedding_dimensions
  fits =
      rw (up.column_fits, verify_embedding_dimensions, eq_ℤ-self cfg.ai.embedding_dimensions) refl

  with_redis-serves :
      ((with_redis w cfg).app ≡ some (app_of cfg dummy))
      × ((with_redis w cfg).error ≡ server_error (run_server w.net).0)
      × ((with_redis w cfg).events ≡ [])
  unfolding with_redis with_hasher start_server
  with_redis-serves =
      let (tokens_made, hasher_made) =
        load-services w.os w.bcrypt w.salt cfg dummy up.costs.0 up.costs.1 up.hashes up.loaded in
      rw (hasher_made, tokens_made, with_redis, with_hasher) (refl, refl, refl)

  connected_database : Run → Run
  connected_database body =
      connected database connecting_database (ok tt, opened database ∷ []) body

  connected_redis : Run → Run
  connected_redis body =
      connected redis_client connecting_redis (ok tt, opened redis_client ∷ []) body

  with_schema-eq : with_schema w cfg ≡ connected_redis (with_redis w cfg)
  unfolding with_schema connected_redis
  with_schema-eq = rw (fits, up.redis_open, with_schema) refl

  with_database-eq : with_database w cfg ≡ with_schema w cfg
  unfolding with_database
  with_database-eq = rw (up.migrated.1, with_database) refl

  with_config-eq : with_config w cfg ≡ connected_database (with_database w cfg)
  unfolding with_config connected_database
  with_config-eq = rw (up.database_open, with_config) refl

  load_config-eq : load_config w ≡ with_config w cfg
  unfolding load_config
  load_config-eq = rw (up.loaded, load_config) refl

  env_loads : with_dot_env w (load_dot_env w.disk) ≡ load_config w
  unfolding with_dot_env
  env_loads = elim up.env_read [
    | inl none_there ↦ rw (none_there, with_dot_env) refl
    | inr (path, loaded_file) ↦ rw (loaded_file, with_dot_env) refl
  ]

  run-eq : run w ≡ connected_database (connected_redis (with_redis w cfg))
  unfolding run
  run-eq =
      env_loads
      ∙ load_config-eq
      ∙ with_config-eq
      ∙ ap connected_database (with_database-eq ∙ with_schema-eq)

  serves_in :
      (body : Run)
      → body.events ≡ []
      → ((connected_database (connected_redis body)).events
          ≡ opened database ∷ opened redis_client ∷ closed redis_client ∷ closed database ∷ [])
        × ((connected_database (connected_redis body)).app ≡ body.app)
        × ((connected_database (connected_redis body)).error ≡ body.error)
  unfolding connected_database connected_redis connected deferring
  serves_in body h = (
    ap
        (λ es.
          opened database
          ∷ ((opened redis_client ∷ (es ++ closed redis_client ∷ [])) ++ closed database ∷ []))
        h,
    refl,
    refl,
  )

  -- Where the configuration loads and what is outside answers, the program serves, with the services of
  -- its configuration: Load has checked what NewHasher and NewTokens ask for. Its routes are those of the
  -- health check and of the four handlers of sessions. It ends with the error of the server alone, from
  -- which the exit status follows, and has opened and closed the database and Redis.
  pub run-serves :
      ((run w).app ≡ some (app_of cfg dummy))
      × ((run w).error ≡ server_error (run_server w.net).0)
      × ((run w).events
          ≡ opened database ∷ opened redis_client ∷ closed redis_client ∷ closed database ∷ [])
      × (routes (app_of cfg dummy).deps ≡ health_route ∷ auth_routes)
      × (main w ≡ exit_status (server_error (run_server w.net).0))
  unfolding routes main
  run-serves =
      let (app_made, error_kept, quiet) = with_redis-serves in
      let (in_order, same_app, same_error) = serves_in (with_redis w cfg) quiet in
      rw run-eq (
        same_app ∙ app_made,
        same_error ∙ error_kept,
        in_order,
        refl,
        ap exit_status (same_error ∙ error_kept),
      )
