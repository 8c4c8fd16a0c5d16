-- ===== src/Startup/Running.antt =====
-- run of backend/cmd/server/main.go: the steps from the configuration to the server, each of which may
-- end the program, and what is closed on the way out.
pub mod Closing
pub mod Serves
use flow_cast.Base.{true, Text, Result, ℕ, Bool, Option, none, some, List, [], ◌∷◌, ◌++◌, ok, err}
use flow_cast.Config.Types.{Config, is_production}
use flow_cast.Migrations.{MigrationError, Faults, Server, Session}
use flow_cast.Migrations.Files.{Readiness, migrate, FileSystem}
use flow_cast.Startup.Serving.{new_server, ServerError, HttpServer, run_server, Serving}
use flow_cast.Auth.Tokens.{new_tokens, Tokens, TokensError}
use flow_cast.Startup.Connecting.{
  ConnectError, ParseDsn, connect_database, connect_redis, Width, EmbeddingError,
  verify_embedding_dimensions, Resource, ResourceEvent, opened, closed, database, redis_client,
}
use flow_cast.Auth.Password.{Bcrypt, Hasher, HasherError, new_hasher}
use flow_cast.Config.Reader.{Problems, Platform}
use flow_cast.Config.Validating.{load}
use flow_cast.Startup.Waiting.{Pings}
use flow_cast.Config.DotEnv.{
  DiskPath, Disk, DotEnvError, no_working_directory, no_dot_env, checking, loading, load_dot_env,
}
use flow_cast.Handlers.Router.{Deps}

pub data RunError : Type 0 where
  loading_env : DotEnvError → RunError
  bad_config : Problems → RunError
  connecting_database : ConnectError → RunError
  running_migrations : MigrationError → RunError
  bad_embedding : EmbeddingError → RunError
  connecting_redis : ConnectError → RunError
  bad_hasher : HasherError → RunError
  bad_tokens : TokensError → RunError
  serving : ServerError → RunError

-- What the program meets outside; `os` has the environment as the .env file leaves it.
pub record World : Type 1 where
  pub disk : Disk
  pub os : Platform
  pub parse_dsn : ParseDsn
  pub pool_made : Bool
  pub database_pings : Pings
  pub server : Server
  pub files : FileSystem
  pub faults : Text → Faults
  pub readiness : Readiness
  pub session : Session server
  pub width : Width
  pub redis_parses : Text → Bool
  pub redis_pings : Pings
  pub bcrypt : Bcrypt
  pub salt : ℕ
  pub net : Serving

-- What the server is started with.
pub record App : Type 0 where
  pub hasher : Hasher
  pub tokens : Tokens
  pub secure_cookies : Bool
  pub deps : Deps
  pub http : HttpServer

-- The error the program ends with, what it opened and closed, and what it served.
pub record Run : Type 0 where
  pub error : Option RunError
  pub events : List ResourceEvent
  pub app : Option App

abbrev pub stop_with : RunError → Run
stop_with e = record { error = some e; events = []; app = none }

-- defer r.Close()
unfoldable pub deferring : Resource → Run → Run
deferring r body = record body { events = body.events ++ closed r ∷ [] }

-- A connection, and what follows it.
unfoldable pub connected :
    Resource
    → (ConnectError → RunError)
    → Result ConnectError (Unit {0}) × List ResourceEvent
    → Run
    → Run
unfolding deferring
connected r as_error (err e, events) body = record {
  error = some (as_error e);
  events = events;
  app = none;
}
connected r as_error (ok _, events) body =
    let closing = deferring r body in record closing { events = events ++ closing.events }

abbrev pub server_error : Option ServerError → Option RunError
server_error none = none
server_error (some e) = some (serving e)

module _ (w : World) where
  unfoldable pub start_server : Config → Hasher → Tokens → Run
  start_server cfg hasher tokens = record {
    error = server_error (run_server w.net).0;
    events = [];
    app = some (record {
      hasher = hasher;
      tokens = tokens;
      secure_cookies = is_production cfg.env;
      deps = record {
        has_users = true;
        has_sessions = true;
        tokens = some tokens;
        protected_routes = [];
      };
      http = new_server cfg.server;
    });
  }

  unfoldable pub with_hasher : Config → Hasher → Run
  unfolding start_server
  with_hasher cfg hasher = elim (new_tokens cfg.auth) [
    | err e ↦ stop_with (bad_tokens e)
    | ok tokens ↦ start_server cfg hasher tokens
  ]

  unfoldable pub with_redis : Config → Run
  unfolding with_hasher
  with_redis cfg = elim (new_hasher w.bcrypt w.salt cfg.auth.bcrypt_cost) [
    | err e ↦ stop_with (bad_hasher e)
    | ok hasher ↦ with_hasher cfg hasher
  ]

  unfoldable pub with_schema : Config → Run
  unfolding with_redis connected
  with_schema cfg = elim (verify_embedding_dimensions w.width cfg.ai.embedding_dimensions) [
    | some e ↦ stop_with (bad_embedding e)
    | none ↦
        connected redis_client connecting_redis
          (connect_redis w.redis_parses w.redis_pings cfg.redis) (with_redis cfg)
  ]

  unfoldable pub with_database : Config → Run
  unfolding with_schema
  with_database cfg = elim (migrate w.server w.files w.faults w.readiness w.session).0 [
    | err e ↦ stop_with (running_migrations e)
    | ok applied ↦ with_schema cfg
  ]

  unfoldable pub with_config : Config → Run
  unfolding with_database connected
  with_config cfg =
      connected database connecting_database
        (connect_database w.parse_dsn w.pool_made w.database_pings cfg.database) (with_database cfg)

  unfoldable pub load_config : Run
  unfolding with_config
  load_config = elim (load w.os) [
    | err problems ↦ stop_with (bad_config problems)
    | ok cfg ↦ with_config cfg
  ]

  -- The switch on what LoadDotEnv returned.
  unfoldable pub with_dot_env : Result DotEnvError DiskPath → Run
  unfolding load_config
  with_dot_env (ok path) = load_config
  with_dot_env (err no_dot_env) = load_config
  with_dot_env (err no_working_directory) = stop_with (loading_env no_working_directory)
  with_dot_env (err (checking path)) = stop_with (loading_env (checking path))
  with_dot_env (err (loading path)) = stop_with (loading_env (loading path))

  unfoldable pub run : Run
  unfolding with_dot_env
  run = with_dot_env (load_dot_env w.disk)

-- os.Exit(1) for an error of run, and the end of main else.
abbrev pub exit_status : Option RunError → ℕ
exit_status none = 0
exit_status (some e) = 1

unfoldable pub main : World → ℕ
unfolding run
main w = exit_status (run w).error
