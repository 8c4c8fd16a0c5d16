-- ===== src/Examples/Startup.antt =====
-- The program from its configuration to its server, where everything goes well.
use flow_cast.Base.{
  none, inr, Text, bytes, leb, ◌+◌, ◌≡◌, refl, true, false, some, [], ◌∷◌, arith, pos, ok,
}
use flow_cast.Examples.Settings.{example_os, example_config, load-example_os}
use flow_cast.Examples.Data.{
  example_server, example_files, calm, ready, empty_db, both_applied, runs_both,
}
use flow_cast.Migrations.Progress.{at_rest}
use flow_cast.Startup.Waiting.{wait_for_ready-terminates, Pings, Waited, WaitEnds, wait_for_ready}
use flow_cast.Startup.Running.{exit_status, main, server_error, World, run}
use flow_cast.Startup.Serving.{Serving, stopped_by_signal, server_closed, run_server}
use flow_cast.Startup.Connecting.{
  PoolConfig, pool_config, connect_database, connect_redis, width, database, redis_client, opened,
  closed,
}
use flow_cast.Config.DotEnv.{
  find_up, load_dot_env, dot_env_search_depth, SearchEnds, find_dot_env-SearchEnds, Disk, DiskPath,
  Stat, regular, missing, find_dot_env,
}
use flow_cast.Config.Logging.{log_value, with_secrets, log_value-secrets}
use flow_cast.Examples.World.{example_bcrypt}
use flow_cast.Startup.Pool.{pool_config-load}
use flow_cast.Startup.Running.Closing.{replay, run-closes}
use flow_cast.Startup.Running.Serves.{IsUp, app_of, run-serves}
use flow_cast.Handlers.Router.{health_route, auth_routes, routes}

-- The third ping is answered.
abbrev third_ping : Pings
third_ping = record {
  answers = λ n. leb 3 n;
  takes = λ n. 1000;
  cancelled = λ n. false;
  deadline_first = λ n. true;
}

wait_for_ready-terminates_example :
    (w : Waited) × (wait_for_ready third_ping 2000000000 5 1 0 ≡ some w)
    × WaitEnds third_ping 2000000000 w
wait_for_ready-terminates_example = wait_for_ready-terminates third_ping 2000000000 5 (omega arith)

pool_config-load_example :
    (pool : PoolConfig) × (pool_config (λ t. some []) example_config.database ≡ ok pool)
    × (pool.max_conns ≡ pos 10)
    × (pool.min_conns ≡ pos 2)
pool_config-load_example =
    pool_config-load example_os (λ t. some []) example_config [] load-example_os refl

abbrev stopping : Serving
stopping = record {
  listens = true;
  wakeup = stopped_by_signal;
  drains = true;
  afterwards = server_closed;
}

-- A .env file one directory up.
abbrev stat_of : DiskPath → Stat
stat_of (a ∷ b ∷ []) = regular
stat_of path = missing

abbrev disk : Disk
disk = record {
  getwd = some (bytes "src" ∷ bytes "app" ∷ []);
  stat = stat_of;
  loads = λ path. true;
}

abbrev world : World
world = record {
  disk = disk;
  os = example_os;
  parse_dsn = λ t. some [];
  pool_made = true;
  database_pings = third_ping;
  server = example_server;
  files = example_files;
  faults = calm;
  readiness = ready;
  session = at_rest example_server empty_db;
  width = width (pos 1536);
  redis_parses = λ t. true;
  redis_pings = third_ping;
  bcrypt = example_bcrypt;
  salt = 3;
  net = stopping;
}

database_opens :
    connect_database world.parse_dsn true third_ping example_config.database
    ≡ (ok tt, opened database ∷ [])
unfolding connect_database wait_for_ready
database_opens = refl

redis_opens :
    connect_redis world.redis_parses third_ping example_config.redis
    ≡ (ok tt, opened redis_client ∷ [])
unfolding connect_redis wait_for_ready
redis_opens = refl

abbrev dummy : Text
dummy = 3 ∷ bytes "flowcast-timing-equalizer"

finds_env : load_dot_env disk ≡ ok (bytes ".env" ∷ bytes "app" ∷ [])
unfolding load_dot_env find_dot_env find_up
finds_env = refl

world-IsUp : IsUp world example_config dummy
world-IsUp = record {
  env_read = inr (bytes ".env" ∷ bytes "app" ∷ [], finds_env);
  loaded = load-example_os;
  database_open = database_opens;
  migrated = (both_applied, runs_both);
  column_fits = refl;
  redis_open = redis_opens;
  costs = (refl, refl);
  hashes = refl;
}

run-serves_example :
    ((run world).app ≡ some (app_of example_config dummy))
    × ((run world).error ≡ server_error (run_server stopping).0)
    × ((run world).events
        ≡ opened database ∷ opened redis_client ∷ closed redis_client ∷ closed database ∷ [])
    × (routes (app_of example_config dummy).deps ≡ health_route ∷ auth_routes)
    × (main world ≡ exit_status (server_error (run_server stopping).0))
run-serves_example = run-serves world example_config dummy world-IsUp

run-closes_example : replay [] (run world).events ≡ some []
run-closes_example = run-closes world

log_value-secrets_example :
    log_value
      (λ u. none)
      (with_secrets
        (λ u. none)
        example_config
        (bytes "another secret")
        []
        (bytes "postgres://a:b@c:port")
        (bytes "redis://:b@c:port"))
    ≡ log_value (λ u. none) example_config
log_value-secrets_example =
    log_value-secrets (λ u. none) example_config (bytes "another secret") []
      (bytes "postgres://a:b@c:port") (bytes "redis://:b@c:port") (unfold bytes in refl) refl
      (unfold bytes in refl, refl) (unfold bytes in refl, refl)

find_dot_env-SearchEnds_example :
    SearchEnds disk
      (dot_env_search_depth + 1)
      (bytes "src" ∷ bytes "app" ∷ [])
      (find_dot_env disk (bytes "src" ∷ bytes "app" ∷ []))
find_dot_env-SearchEnds_example = find_dot_env-SearchEnds disk (bytes "src" ∷ bytes "app" ∷ [])
