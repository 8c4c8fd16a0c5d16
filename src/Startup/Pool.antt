-- ===== src/Startup/Pool.antt =====
-- The bounds of the pool of connections in backend/internal/db/postgres.go, for configurations that
-- Load of backend/internal/config/config.go returns.
use flow_cast.Base.{
  bytes, ltb_ℤ, false, ◌||◌, Text, ◌≤ℤ◌, ℤ, ltb, ◌%◌, ◌^◌, ◌≡◌, refl, true, some, List, arith, pos,
  negsuc, ok,
}
use flow_cast.Config.Types.{DatabaseConfig, Config}
use flow_cast.Startup.Connecting.{
  health_check_period, put_param, max_pool_size, to_int32, PoolConfig, ParseDsn, pool_config,
}
use flow_cast.Config.Accepted.Started.{load-ConfigIsUsable}
use flow_cast.Config.Reader.{Platform}
use flow_cast.Config.Validating.{load}
use flow_cast.Config.Accepted.{DatabaseIsUsable}

to_int32-small : (z : ℤ) → pos 0 ≤ℤ z → z ≤ℤ max_pool_size → to_int32 z ≡ z
to_int32-small (pos n) h k =
    let small : n % 2 ^ 32 ≡ n = omega arith in
    let low : ltb (n % 2 ^ 32) (2 ^ 31) ≡ true = ground arith in rw (low, small) refl
to_int32-small (negsuc n) h k = absurd (omega arith)

-- The pool of a configuration whose address has some parameters.
pool_of : List (Text × Text) → DatabaseConfig → PoolConfig
pool_of params d = record {
  max_conns = to_int32 d.max_conns;
  min_conns = to_int32 d.min_conns;
  max_conn_lifetime = d.max_conn_lifetime;
  max_conn_idle_time = d.max_conn_idle_time;
  health_check_period = health_check_period;
  connect_timeout = d.connect_timeout;
  runtime_params =
      put_param (bytes "timezone") (bytes "UTC")
        (put_param (bytes "application_name") (bytes "flowcast-backend") params);
}

checks_pass :
    (d : DatabaseConfig)
    → DatabaseIsUsable d
    → (ltb_ℤ d.max_conns (pos 1) || ltb_ℤ max_pool_size d.max_conns ≡ false)
      × (ltb_ℤ d.min_conns (pos 0) || ltb_ℤ d.max_conns d.min_conns ≡ false)
checks_pass d u =
    let low = u.some_conns in
    let high = u.bounded in
    let natural = u.min_natural in let below = u.min_below_max in (ground arith, ground arith)

pool_config-pool_of :
    (parse_dsn : ParseDsn) (d : DatabaseConfig) (params : List (Text × Text))
    → DatabaseIsUsable d
    → parse_dsn d.url ≡ some params
    → pool_config parse_dsn d ≡ ok (pool_of params d)
unfolding pool_config pool_of
pool_config-pool_of parse_dsn d params u p =
    let (max_fits, min_fits) = checks_pass d u in rw (p, pool_config, max_fits, min_fits) refl

-- With a configuration that Load returns and an address that the driver parses, the pool has the bounds
-- of the configuration: they pass the checks and keep their values as 32-bit numbers.
pub pool_config-load :
    (os : Platform) (parse_dsn : ParseDsn) (c : Config) (params : List (Text × Text))
    → load os ≡ ok c
    → parse_dsn c.database.url ≡ some params
    → (pool : PoolConfig) × (pool_config parse_dsn c.database ≡ ok pool)
      × (pool.max_conns ≡ c.database.max_conns)
      × (pool.min_conns ≡ c.database.min_conns)
unfolding pool_of
pool_config-load os parse_dsn c params h p =
    let u = (load-ConfigIsUsable os c h).database in
    let low = u.some_conns in
    let high = u.bounded in
    let natural = u.min_natural in
    let below = u.min_below_max in
    (
      pool_of params c.database,
      pool_config-pool_of parse_dsn c.database params u p,
      to_int32-small c.database.max_conns (omega arith) (omega arith),
      to_int32-small c.database.min_conns (omega arith) (omega arith),
    )
