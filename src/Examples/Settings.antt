-- ===== src/Examples/Settings.antt =====
-- The configuration of a small environment.
use flow_cast.Base.{
  inl, err, text_ltb, OneOf, ◌↔◌, bytes, text_eq, if◌then◌else◌, ◌≡◌, refl, none, [], ◌∷◌, pos, ok,
  Text,
}
use flow_cast.Config.Accepted.Started.{ConfigIsUsable, load-ConfigIsUsable}
use flow_cast.Config.Loading.{
  seconds, problem_if, read_server, read_database, read_redis, read_auth, read_ai, read_config,
}
use flow_cast.Config.Reader.{
  FieldError, Problems, Platform, lookup, str, required_str, parsed, int_val, duration_val,
  log_level, str_slice,
}
use flow_cast.Config.Types.{Config}
use flow_cast.Config.Validating.{
  check_url_scheme, validate_database, validate_redis, validate_auth, validate_provider,
  validate_ai, validate_server, validate_settings, load,
}
use flow_cast.Strings.{
  decode_rune, is_space, chunks_from, trim_left, trim_right, join_chunks, trim_space,
}
use flow_cast.Config.Errors.{is_seen, first_mentions, variables}
use flow_cast.Config.Errors.Named.{IsNamed, IsIncreasing, variables_lem}
use flow_cast.Models.Sort.{insert, sort_slice}
use flow_cast.Config.Reporting.{integer_field, field_problem}
use flow_cast.Config.Reporting.Complete.{load-reports}

-- Three variables are set; nothing else is.
abbrev example_env : Text → Text
example_env key =
    if text_eq key (bytes "FLOWCAST_DATABASE_URL")
    then bytes "postgres"
    else if text_eq key (bytes "FLOWCAST_REDIS_URL")
    then bytes "redis"
    else if text_eq key (bytes "FLOWCAST_JWT_SECRET")
    then bytes "0123456789abcdef0123456789abcdef"
    else []

abbrev pub example_os : Platform
example_os = record {
  getenv = example_env;
  parse_int = λ t. none;
  parse_duration = λ t. none;
  parse_level = λ t. none;
  quote = λ t. t;
  url_scheme = λ t. ok t;
}

abbrev pub example_config : Config
example_config = record {
  env = bytes "development";
  server = record {
    port = pos 8080;
    log_level = pos 0;
    read_timeout = seconds 15;
    write_timeout = seconds 30;
    idle_timeout = seconds 60;
    shutdown_timeout = seconds 15;
    cors_origins = bytes "http://localhost:3000" ∷ [];
  };
  database = record {
    url = bytes "postgres";
    connect_timeout = seconds 15;
    max_conns = pos 10;
    min_conns = pos 2;
    max_conn_lifetime = seconds 3600;
    max_conn_idle_time = seconds 1800;
  };
  redis = record { url = bytes "redis"; connect_timeout = seconds 10 };
  auth = record {
    jwt_secret = bytes "0123456789abcdef0123456789abcdef";
    access_token_ttl = seconds 900;
    refresh_token_ttl = seconds 2592000;
    bcrypt_cost = pos 12;
  };
  ai = record {
    provider = bytes "mock";
    openai_api_key = [];
    analysis_model = [];
    postmortem_model = [];
    embedding_model = [];
    embedding_dimensions = pos 1536;
    request_timeout = seconds 60;
  };
}

pub load-example_os : load example_os ≡ ok example_config
unfolding load read_config read_server read_database read_redis read_auth read_ai str str_slice
    required_str int_val log_level duration_val parsed lookup trim_space chunks_from trim_left
    trim_right join_chunks decode_rune is_space bytes text_eq validate_settings validate_server
    validate_database validate_redis validate_auth validate_ai validate_provider check_url_scheme
    problem_if
load-example_os = refl

load-ConfigIsUsable_example : ConfigIsUsable example_os example_config
load-ConfigIsUsable_example = load-ConfigIsUsable example_os example_config load-example_os

-- Two problems of one variable around one of another.
abbrev three_problems : Problems
three_problems =
    record { variable = bytes "PORT"; message = bytes "must be an integer" }
    ∷ record { variable = bytes "ENV"; message = bytes "is required" }
    ∷ record { variable = bytes "PORT"; message = bytes "must be positive" }
    ∷ []

two_variables : variables three_problems ≡ bytes "ENV" ∷ bytes "PORT" ∷ []
unfolding variables first_mentions is_seen sort_slice insert text_ltb text_eq bytes
two_variables = refl

variables_lem_example :
    IsIncreasing (variables three_problems)
    × ((v : Text) → OneOf v (variables three_problems) ↔ IsNamed v three_problems)
variables_lem_example = variables_lem three_problems

-- A port that is no number, and nothing else.
abbrev broken_os : Platform
broken_os = record example_os {
  getenv = λ key. if text_eq key (bytes "FLOWCAST_HTTP_PORT") then bytes "http" else [];
}

abbrev port_problem : FieldError
port_problem = record {
  variable = bytes "FLOWCAST_HTTP_PORT";
  message = bytes "must be an integer; got http";
}

port_unread :
    OneOf port_problem (field_problem broken_os (integer_field (bytes "FLOWCAST_HTTP_PORT")))
unfolding field_problem lookup trim_space chunks_from trim_left trim_right join_chunks decode_rune
    is_space bytes text_eq
port_unread = inl refl

load-reports_example : (ps : Problems) × (load broken_os ≡ err ps) × OneOf port_problem ps
load-reports_example =
    load-reports port_problem broken_os (integer_field (bytes "FLOWCAST_HTTP_PORT")) (inl refl)
      port_unread
