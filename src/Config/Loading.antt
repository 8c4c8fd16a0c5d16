-- ===== src/Config/Loading.antt =====
-- Load and validate of backend/internal/config/config.go.
use flow_cast.Base.{
  bytes, Duration, show_nat, ℤ, if◌then◌else◌, ℕ, ◌+◌, ◌*◌, Bool, [], ◌∷◌, ◌++◌, pos, negsuc, Text,
}
use flow_cast.Config.Reader.{
  Platform, Problems, add_problem, str, required_str, int_val, duration_val, log_level, str_slice,
}
use flow_cast.Config.Types.{
  env_development, provider_mock, ServerConfig, DatabaseConfig, RedisConfig, AuthConfig, AiConfig,
  Config,
}

abbrev pub default_bcrypt_cost : ℤ
default_bcrypt_cost = pos 12

abbrev pub min_bcrypt_cost : ℤ
min_bcrypt_cost = pos 4

abbrev pub max_bcrypt_cost : ℤ
max_bcrypt_cost = pos 31

abbrev pub max_database_conns : ℤ
max_database_conns = pos 1000

abbrev pub min_jwt_secret_length : ℕ
min_jwt_secret_length = 32

-- A whole number of seconds.
abbrev pub seconds : ℕ → Duration
seconds n = pos (n * 1000000000)

unfoldable pub show_int : ℤ → Text
show_int (pos n) = show_nat n
show_int (negsuc n) = bytes "-" ++ show_nat (n + 1)

-- if b { r.add(variable, message) }
unfoldable pub problem_if : Bool → Problems → Text → Text → Problems
unfolding add_problem
problem_if b errs variable message = if b then add_problem errs variable message else errs

module _ (os : Platform) where
  unfoldable pub read_server : Problems → ServerConfig × Problems
  read_server e0 =
      let (port, e1) = int_val os e0 (bytes "FLOWCAST_HTTP_PORT") (pos 8080) in
      let (level, e2) = log_level os e1 (bytes "FLOWCAST_LOG_LEVEL") (pos 0) in
      let (reading, e3) = duration_val os e2 (bytes "FLOWCAST_HTTP_READ_TIMEOUT") (seconds 15) in
      let (writing, e4) = duration_val os e3 (bytes "FLOWCAST_HTTP_WRITE_TIMEOUT") (seconds 30) in
      let (idle, e5) = duration_val os e4 (bytes "FLOWCAST_HTTP_IDLE_TIMEOUT") (seconds 60) in
      let (shutdown, e6) = duration_val os e5 (bytes "FLOWCAST_SHUTDOWN_TIMEOUT") (seconds 15) in
      (
        record {
          port = port;
          log_level = level;
          read_timeout = reading;
          write_timeout = writing;
          idle_timeout = idle;
          shutdown_timeout = shutdown;
          cors_origins =
              str_slice os (bytes "FLOWCAST_CORS_ORIGINS") (bytes "http://localhost:3000" ∷ []);
        },
        e6,
      )

  unfoldable pub read_database : Problems → DatabaseConfig × Problems
  read_database e0 =
      let (url, e1) = required_str os e0 (bytes "FLOWCAST_DATABASE_URL") in
      let (connect, e2) =
        duration_val os e1 (bytes "FLOWCAST_DATABASE_CONNECT_TIMEOUT") (seconds 15) in
      let (max, e3) = int_val os e2 (bytes "FLOWCAST_DATABASE_MAX_CONNS") (pos 10) in
      let (min, e4) = int_val os e3 (bytes "FLOWCAST_DATABASE_MIN_CONNS") (pos 2) in
      let (lifetime, e5) =
        duration_val os e4 (bytes "FLOWCAST_DATABASE_MAX_CONN_LIFETIME") (seconds 3600) in
      let (idle, e6) =
        duration_val os e5 (bytes "FLOWCAST_DATABASE_MAX_CONN_IDLE_TIME") (seconds 1800) in
      (
        record {
          url = url;
          connect_timeout = connect;
          max_conns = max;
          min_conns = min;
          max_conn_lifetime = lifetime;
          max_conn_idle_time = idle;
        },
        e6,
      )

  unfoldable pub read_redis : Problems → RedisConfig × Problems
  read_redis e0 =
      let (url, e1) = required_str os e0 (bytes "FLOWCAST_REDIS_URL") in
      let (connect, e2) =
        duration_val os e1 (bytes "FLOWCAST_REDIS_CONNECT_TIMEOUT") (seconds 10) in
      (record { url = url; connect_timeout = connect }, e2)

  unfoldable pub read_auth : Problems → AuthConfig × Problems
  read_auth e0 =
      let (secret, e1) = required_str os e0 (bytes "FLOWCAST_JWT_SECRET") in
      let (access, e2) = duration_val os e1 (bytes "FLOWCAST_ACCESS_TOKEN_TTL") (seconds 900) in
      let (refresh, e3) =
        duration_val os e2 (bytes "FLOWCAST_REFRESH_TOKEN_TTL") (seconds 2592000) in
      let (cost, e4) = int_val os e3 (bytes "FLOWCAST_BCRYPT_COST") default_bcrypt_cost in
      (
        record {
          jwt_secret = secret;
          access_token_ttl = access;
          refresh_token_ttl = refresh;
          bcrypt_cost = cost;
        },
        e4,
      )

  unfoldable pub read_ai : Problems → AiConfig × Problems
  read_ai e0 =
      let (dimensions, e1) = int_val os e0 (bytes "FLOWCAST_EMBEDDING_DIMENSIONS") (pos 1536) in
      let (timeout, e2) = duration_val os e1 (bytes "FLOWCAST_AI_REQUEST_TIMEOUT") (seconds 60) in
      (
        record {
          provider = str os (bytes "FLOWCAST_AI_PROVIDER") provider_mock;
          openai_api_key = str os (bytes "OPENAI_API_KEY") [];
          analysis_model = str os (bytes "FLOWCAST_ANALYSIS_MODEL") [];
          postmortem_model = str os (bytes "FLOWCAST_POSTMORTEM_MODEL") [];
          embedding_model = str os (bytes "FLOWCAST_EMBEDDING_MODEL") [];
          embedding_dimensions = dimensions;
          request_timeout = timeout;
        },
        e2,
      )

  unfoldable pub read_config : Config × Problems
  unfolding read_server read_database read_redis read_auth read_ai
  read_config =
      let (server, e1) = read_server [] in
      let (database, e2) = read_database e1 in
      let (redis, e3) = read_redis e2 in
      let (auth, e4) = read_auth e3 in
      let (ai, e5) = read_ai e4 in
      (
        record {
          env = str os (bytes "FLOWCAST_ENV") env_development;
          server = server;
          database = database;
          redis = redis;
          auth = auth;
          ai = ai;
        },
        e5,
      )
