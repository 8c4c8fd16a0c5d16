-- ===== src/Config/Types.antt =====
-- The structs of backend/internal/config/config.go. A log level is slog's number.
use flow_cast.Base.{Text, bytes, text_eq, Duration, ℤ, Bool, List}

abbrev pub Environment : Type 0
Environment = Text

abbrev pub env_development : Environment
env_development = bytes "development"

abbrev pub env_test : Environment
env_test = bytes "test"

abbrev pub env_production : Environment
env_production = bytes "production"

unfoldable pub is_production : Environment → Bool
is_production e = text_eq e env_production

abbrev pub AiProvider : Type 0
AiProvider = Text

abbrev pub provider_openai : AiProvider
provider_openai = bytes "openai"

abbrev pub provider_mock : AiProvider
provider_mock = bytes "mock"

pub record ServerConfig : Type 0 where
  pub port : ℤ
  pub log_level : ℤ
  pub read_timeout : Duration
  pub write_timeout : Duration
  pub idle_timeout : Duration
  pub shutdown_timeout : Duration
  pub cors_origins : List Text

pub record DatabaseConfig : Type 0 where
  pub url : Text
  pub connect_timeout : Duration
  pub max_conns : ℤ
  pub min_conns : ℤ
  pub max_conn_lifetime : Duration
  pub max_conn_idle_time : Duration

pub record RedisConfig : Type 0 where
  pub url : Text
  pub connect_timeout : Duration

pub record AuthConfig : Type 0 where
  pub jwt_secret : Text
  pub access_token_ttl : Duration
  pub refresh_token_ttl : Duration
  pub bcrypt_cost : ℤ

pub record AiConfig : Type 0 where
  pub provider : AiProvider
  pub openai_api_key : Text
  pub analysis_model : Text
  pub postmortem_model : Text
  pub embedding_model : Text
  pub embedding_dimensions : ℤ
  pub request_timeout : Duration

pub record Config : Type 0 where
  pub env : Environment
  pub server : ServerConfig
  pub database : DatabaseConfig
  pub redis : RedisConfig
  pub auth : AuthConfig
  pub ai : AiConfig
