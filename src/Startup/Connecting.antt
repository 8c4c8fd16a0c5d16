-- ===== src/Startup/Connecting.antt =====
-- Connect of backend/internal/db/postgres.go and of backend/internal/queue/redis.go, and the check of
-- backend/internal/db/embedding.go. The parsers of connection strings and the drivers are arguments.
use flow_cast.Base.{
  Text, bytes, text_eq, Duration, pos_part, ◌-ℤ◌, ltb_ℤ, eq_ℤ, ℤ, Result, ltb, if◌then◌else◌, ℕ,
  ◌+◌, ◌-◌, ◌/◌, ◌%◌, ◌^◌, Bool, ◌||◌, Option, none, some, List, [], ◌∷◌, pos, negsuc, ok, err,
}
use flow_cast.Config.Types.{DatabaseConfig, RedisConfig}
use flow_cast.Startup.Waiting.{
  Pings, Waited, reached, unreachable, ready_retry_interval, wait_for_ready,
}

abbrev pub max_pool_size : ℤ
max_pool_size = pos 1000

abbrev pub health_check_period : Duration
health_check_period = pos 60000000000

-- int32(n)
abbrev pub to_int32 : ℤ → ℤ
to_int32 (pos n) =
    if ltb (n % 2 ^ 32) (2 ^ 31) then pos (n % 2 ^ 32) else pos (n % 2 ^ 32) -ℤ pos (2 ^ 32)
to_int32 (negsuc n) =
    let m = 2 ^ 32 - 1 - n % 2 ^ 32 in if ltb m (2 ^ 31) then pos m else pos m -ℤ pos (2 ^ 32)

pub data ConnectError : Type 0 where
  invalid_string : ConnectError
  bad_max_conns : ℤ → ConnectError
  bad_min_conns : ℤ → ℤ → ConnectError
  creating_pool : ConnectError
  not_reachable : ℕ → ConnectError

-- pgxpool.Config, as far as it is set.
pub record PoolConfig : Type 0 where
  pub max_conns : ℤ
  pub min_conns : ℤ
  pub max_conn_lifetime : Duration
  pub max_conn_idle_time : Duration
  pub health_check_period : Duration
  pub connect_timeout : Duration
  pub runtime_params : List (Text × Text)

-- What the parser of connection strings gives: the parameters it found.
abbrev pub ParseDsn : Type 0
ParseDsn = Text → Option (List (Text × Text))

unfoldable pub put_param : Text → Text → List (Text × Text) → List (Text × Text)
put_param name value [] = (name, value) ∷ []
put_param name value ((n, v) ∷ more) =
    if text_eq n name then (n, value) ∷ more else (n, v) ∷ put_param name value more

unfoldable pub pool_config : ParseDsn → DatabaseConfig → Result ConnectError PoolConfig
unfolding put_param
pool_config parse_dsn cfg = elim (parse_dsn cfg.url) [
  | none ↦ err invalid_string
  | some params ↦
      if ltb_ℤ cfg.max_conns (pos 1) || ltb_ℤ max_pool_size cfg.max_conns
      then err (bad_max_conns cfg.max_conns)
      else if ltb_ℤ cfg.min_conns (pos 0) || ltb_ℤ cfg.max_conns cfg.min_conns
      then err (bad_min_conns cfg.max_conns cfg.min_conns)
      else ok (record {
        max_conns = to_int32 cfg.max_conns;
        min_conns = to_int32 cfg.min_conns;
        max_conn_lifetime = cfg.max_conn_lifetime;
        max_conn_idle_time = cfg.max_conn_idle_time;
        health_check_period = health_check_period;
        connect_timeout = cfg.connect_timeout;
        runtime_params =
            put_param (bytes "timezone") (bytes "UTC")
              (put_param (bytes "application_name") (bytes "flowcast-backend") params);
      })
]

-- What is opened and closed on the way.
pub data Resource : Type 0 where
  database redis_client : Resource

pub data ResourceEvent : Type 0 where
  opened closed : Resource → ResourceEvent

-- The fuel of the wait: more retry intervals than the timeout has.
abbrev pub wait_fuel : Duration → ℕ
wait_fuel timeout = pos_part timeout / ready_retry_interval + 1

-- The end of a wait; a client that does not answer is closed again.
unfoldable pub after_wait :
    Resource → Option Waited → Result ConnectError (Unit {0}) × List ResourceEvent
after_wait r (some (reached n)) = (ok tt, opened r ∷ [])
after_wait r (some (unreachable n)) = (err (not_reachable n), opened r ∷ closed r ∷ [])
after_wait r none = (err (not_reachable 0), opened r ∷ closed r ∷ [])

-- The pool of a configuration and its wait; `makes_pool` tells whether pgxpool.NewWithConfig makes it.
unfoldable pub open_pool :
    Bool
    → Pings
    → Duration
    → Result ConnectError PoolConfig
    → Result ConnectError (Unit {0}) × List ResourceEvent
unfolding after_wait
open_pool makes_pool pings timeout (err e) = (err e, [])
open_pool makes_pool pings timeout (ok pool) =
    if makes_pool
    then after_wait database (wait_for_ready pings (pos_part timeout) (wait_fuel timeout) 1 0)
    else (err creating_pool, [])

unfoldable pub connect_database :
    ParseDsn → Bool → Pings → DatabaseConfig → Result ConnectError (Unit {0}) × List ResourceEvent
unfolding pool_config open_pool
connect_database parse_dsn makes_pool pings cfg =
    open_pool makes_pool pings cfg.connect_timeout (pool_config parse_dsn cfg)

-- `parses` tells whether redis.ParseURL accepts the address.
unfoldable pub connect_redis :
    (Text → Bool) → Pings → RedisConfig → Result ConnectError (Unit {0}) × List ResourceEvent
unfolding after_wait
connect_redis parses pings cfg =
    if parses cfg.url
    then after_wait redis_client
        (wait_for_ready pings (pos_part cfg.connect_timeout) (wait_fuel cfg.connect_timeout) 1 0)
    else (err invalid_string, [])

-- What the query for the width of the embedding column gives.
pub data Width : Type 0 where
  width : ℤ → Width
  no_column : Width
  width_unread : Width

pub data EmbeddingError : Type 0 where
  not_migrated : EmbeddingError
  reading_width : EmbeddingError
  dimension_mismatch : ℤ → ℤ → EmbeddingError

unfoldable pub verify_embedding_dimensions : Width → ℤ → Option EmbeddingError
verify_embedding_dimensions no_column want = some not_migrated
verify_embedding_dimensions width_unread want = some reading_width
verify_embedding_dimensions (width got) want =
    if eq_ℤ got want then none else some (dimension_mismatch got want)
