-- ===== src/Config/Accepted/Started.antt =====
-- What Load of backend/internal/config/config.go accepts, beside what NewTokens and NewHasher ask.
use flow_cast.Base.{
  ◌<ℤ◌, Text, bytes, ℕ, subst, some, arith, is_empty, ◌≤ℤ◌, OneOf, ◌≡◌, refl, false, [], ◌∷◌, pos,
  ok,
}
use flow_cast.Config.Accepted.{
  read_config-Quiet, Platform, Quiet, DatabaseIsUsable, AuthIsUsable, validate_auth-Quiet,
}
use flow_cast.Config.Accepted.Checked.{
  HasScheme, database_schemes, redis_schemes, validate_database-Quiet, validate_redis-Quiet,
  ProviderIsUsable, validate_ai-Quiet, validate_server-Quiet,
}
use flow_cast.Config.Reader.{Problems}
use flow_cast.Config.Types.{env_development, env_test, env_production, Config}
use flow_cast.Config.Validating.{load, validate_settings, settled}
use flow_cast.Auth.Password.{Bcrypt, new_hasher}
use flow_cast.Auth.Tokens.{new_tokens}
use flow_cast.Config.Loading.{min_bcrypt_cost, max_bcrypt_cost, read_config}

-- A configuration on which the services can be started.
pub record ConfigIsUsable (os : Platform) (c : Config) : Type 0 where
  pub env : OneOf c.env (env_development ∷ env_test ∷ env_production ∷ [])
  pub port_positive : pos 1 ≤ℤ c.server.port
  pub port_bounded : c.server.port ≤ℤ pos 65535
  pub database : DatabaseIsUsable c.database
  pub database_named : is_empty c.database.url ≡ false
  pub database_scheme : HasScheme os c.database.url (database_schemes os)
  pub redis_named : is_empty c.redis.url ≡ false
  pub redis_scheme : HasScheme os c.redis.url (redis_schemes os)
  pub redis_patient : pos 0 <ℤ c.redis.connect_timeout
  pub auth : AuthIsUsable c.auth
  pub provider : ProviderIsUsable os c.ai
  pub dimensions : pos 1 ≤ℤ c.ai.embedding_dimensions
  pub ai_patient : pos 0 <ℤ c.ai.request_timeout

settled-ok : (cfg c : Config) (errs : Problems) → settled cfg errs ≡ ok c → (cfg ≡ c) × Quiet errs
settled-ok cfg c [] h = (cc h, refl)
settled-ok cfg c (e ∷ es) h = cc h

module _ (os : Platform) where
  validate_settings-Quiet :
      (c : Config) (errs : Problems)
      → Quiet (validate_settings os c errs)
      → Quiet errs
        × (is_empty c.auth.jwt_secret ≡ false
            → is_empty c.database.url ≡ false
            → is_empty c.redis.url ≡ false
            → ConfigIsUsable os c)
  unfolding validate_settings
  validate_settings-Quiet c errs h =
      let (q4, provider, dimensions, ai_patient) = validate_ai-Quiet os c.ai _ h in
      let (q3, auth) = validate_auth-Quiet c.auth _ q4 in
      let (q2, redis_patient, redis_scheme) = validate_redis-Quiet os c.redis _ q3 in
      let (q1, database, database_scheme) = validate_database-Quiet os c.database _ q2 in
      let (q0, env, low, high) = validate_server-Quiet os c errs q1 in
      (
        q0,
        λ secret url redis_url. record {
          env = env;
          port_positive = low;
          port_bounded = high;
          database = database;
          database_named = url;
          database_scheme = database_scheme url;
          redis_named = redis_url;
          redis_scheme = redis_scheme redis_url;
          redis_patient = redis_patient;
          auth = auth secret;
          provider = provider;
          dimensions = dimensions;
          ai_patient = ai_patient;
        },
      )

-- A configuration that Load returns meets every condition of its checks: a known environment; a port from
-- 1 to 65535; a database address of the scheme postgres or postgresql, and a Redis address of the scheme
-- redis or rediss; positive timeouts for both, bounds of the pool that fit each other; a secret of at
-- least 32 bytes, positive lifetimes of tokens with the access token's the shorter, a bcrypt cost from 4
-- to 31; a known AI provider, which has its key and its models named if it is OpenAI, at least one
-- dimension of embeddings, and a positive timeout of its requests.
pub load-ConfigIsUsable : (os : Platform) (c : Config) → load os ≡ ok c → ConfigIsUsable os c
unfolding load
load-ConfigIsUsable os c h =
    let (same_config, quiet) = settled-ok (read_config os).0 c _ h in
    let (read_quiet, usable) =
      validate_settings-Quiet os (read_config os).0 (read_config os).1 quiet in
    let (secret, url, redis_url) = read_config-Quiet os read_quiet in
    subst (ConfigIsUsable os) same_config (usable secret url redis_url)

-- With a configuration that Load returns, NewTokens makes a token service with its secret and
-- lifetimes, and NewHasher, where bcrypt's own bounds are 4 and 31 and it hashes the text that it is
-- given, makes a hasher of its cost.
pub load-services :
    (os : Platform) (bcrypt : Bcrypt) (salt : ℕ) (c : Config) (dummy : Text)
    → bcrypt.min_cost ≡ min_bcrypt_cost
    → bcrypt.max_cost ≡ max_bcrypt_cost
    → bcrypt.generate salt (bytes "flowcast-timing-equalizer") c.auth.bcrypt_cost ≡ some dummy
    → load os ≡ ok c
    → (new_tokens c.auth
        ≡ ok (record {
          secret = c.auth.jwt_secret;
          access_ttl = c.auth.access_token_ttl;
          refresh_ttl = c.auth.refresh_token_ttl;
        }))
      × (new_hasher bcrypt salt c.auth.bcrypt_cost
          ≡ ok (record { cost = c.auth.bcrypt_cost; dummy_hash = dummy }))
unfolding new_tokens new_hasher
load-services os bcrypt salt c dummy low high hashes h =
    let a = (load-ConfigIsUsable os c h).auth in
    let long_secret = a.long_secret in
    let access_positive = a.access_positive in
    let access_shorter = a.access_shorter in
    let cost_enough = a.cost_enough in
    let cost_bounded = a.cost_bounded in (ground arith, ground arith)
