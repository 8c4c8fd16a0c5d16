-- ===== src/Config/Logging.antt =====
-- backend/internal/config/logging.go: what the log shows of a configuration. `redacted` is url.Parse with
-- URL.Redacted, which fails by giving none.
use flow_cast.Base.{
  Text, bytes, is_empty, Duration, ℤ, if◌then◌else◌, ◌≡◌, refl, ap, Option, none, some, List, [],
  ◌∷◌,
}
use flow_cast.Config.Types.{
  Config, DatabaseConfig, RedisConfig, AuthConfig, AiConfig, ServerConfig, Environment,
}

abbrev pub secret_set : Text
secret_set = bytes "[set]"

abbrev pub secret_unset : Text
secret_unset = bytes "[unset]"

abbrev pub unparseable_id : Text
unparseable_id = bytes "[unparseable]"

pub data LogField : Type 0 where
  text_field : Text → LogField
  int_field : ℤ → LogField
  duration_field : Duration → LogField

-- A group of named fields.
abbrev pub LogGroup : Type 0
LogGroup = List (Text × LogField)

-- The value of a configuration; the server is printed with all its fields.
pub record LogValue : Type 0 where
  pub env : Environment
  pub server : ServerConfig
  pub database : LogGroup
  pub redis : LogGroup
  pub auth : LogGroup
  pub ai : LogGroup

unfoldable pub secret_state : Text → Text
secret_state s = if is_empty s then secret_unset else secret_set

unfoldable pub auth_log_value : AuthConfig → LogGroup
unfolding secret_state
auth_log_value a =
    (bytes "jwt_secret", text_field (secret_state a.jwt_secret))
    ∷ (bytes "access_token_ttl", duration_field a.access_token_ttl)
    ∷ (bytes "refresh_token_ttl", duration_field a.refresh_token_ttl)
    ∷ (bytes "bcrypt_cost", int_field a.bcrypt_cost)
    ∷ []

unfoldable pub ai_log_value : AiConfig → LogGroup
unfolding secret_state
ai_log_value a =
    (bytes "provider", text_field a.provider)
    ∷ (bytes "openai_api_key", text_field (secret_state a.openai_api_key))
    ∷ (bytes "analysis_model", text_field a.analysis_model)
    ∷ (bytes "postmortem_model", text_field a.postmortem_model)
    ∷ (bytes "embedding_model", text_field a.embedding_model)
    ∷ (bytes "embedding_dimensions", int_field a.embedding_dimensions)
    ∷ (bytes "request_timeout", duration_field a.request_timeout)
    ∷ []

module _ (redacted : Text → Option Text) where
  unfoldable pub redact_url : Text → Text
  redact_url raw =
      if is_empty raw
      then secret_unset
      else elim (redacted raw) [ none ↦ unparseable_id | some u ↦ u ]

  unfoldable pub database_log_value : DatabaseConfig → LogGroup
  unfolding redact_url
  database_log_value d =
      (bytes "url", text_field (redact_url d.url))
      ∷ (bytes "max_conns", int_field d.max_conns)
      ∷ (bytes "min_conns", int_field d.min_conns)
      ∷ (bytes "max_conn_lifetime", duration_field d.max_conn_lifetime)
      ∷ (bytes "max_conn_idle_time", duration_field d.max_conn_idle_time)
      ∷ []

  unfoldable pub redis_log_value : RedisConfig → LogGroup
  unfolding redact_url
  redis_log_value r =
      (bytes "url", text_field (redact_url r.url))
      ∷ (bytes "connect_timeout", duration_field r.connect_timeout)
      ∷ []

  unfoldable pub log_value : Config → LogValue
  unfolding database_log_value redis_log_value auth_log_value ai_log_value
  log_value c = record {
    env = c.env;
    server = c.server;
    database = database_log_value c.database;
    redis = redis_log_value c.redis;
    auth = auth_log_value c.auth;
    ai = ai_log_value c.ai;
  }

  secret_state-same : (s t : Text) → is_empty s ≡ is_empty t → secret_state s ≡ secret_state t
  unfolding secret_state
  secret_state-same s t h = ap (λ b. if b then secret_unset else secret_set) h

  -- Two addresses that are both set or both not, and of which the same remains when their passwords are
  -- taken out; or neither of which parses.
  abbrev pub ShowSame : Text → Text → Type 0
  ShowSame a b = (is_empty a ≡ is_empty b) × (redacted a ≡ redacted b)

  redact_url-same : (a b : Text) → ShowSame a b → redact_url a ≡ redact_url b
  unfolding redact_url
  redact_url-same a b (e, h) = rw (e, h, redact_url) refl

  -- The configuration with other secrets.
  abbrev pub with_secrets : Config → Text → Text → Text → Text → Config
  with_secrets c jwt_secret api_key url redis_url = record c {
    auth = record c.auth { jwt_secret = jwt_secret };
    ai = record c.ai { openai_api_key = api_key };
    database = record c.database { url = url };
    redis = record c.redis { url = redis_url };
  }

  -- The log tells nothing of the token secret and of the API key but whether they are set, and nothing of
  -- the addresses of the database and of Redis but whether they are set and what remains of them when
  -- their passwords are taken out. Of an address that does not parse it tells nothing at all.
  pub log_value-secrets :
      (c : Config) (jwt_secret api_key url redis_url : Text)
      → is_empty jwt_secret ≡ is_empty c.auth.jwt_secret
      → is_empty api_key ≡ is_empty c.ai.openai_api_key
      → ShowSame url c.database.url
      → ShowSame redis_url c.redis.url
      → log_value (with_secrets c jwt_secret api_key url redis_url) ≡ log_value c
  unfolding log_value database_log_value redis_log_value auth_log_value ai_log_value
  log_value-secrets c jwt_secret api_key url redis_url s k d r =
      rw
        (
          secret_state-same jwt_secret c.auth.jwt_secret s,
          secret_state-same api_key c.ai.openai_api_key k,
          redact_url-same url c.database.url d,
          redact_url-same redis_url c.redis.url r,
        )
        refl
