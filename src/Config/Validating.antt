-- ===== src/Config/Validating.antt =====
-- validate of backend/internal/config/config.go: the checks on values that were read.
use flow_cast.Base.{
  bytes, text_eq, is_empty, show_nat, join, ltb_ℤ, leb_ℤ, length, Result, ltb, if◌then◌else◌, Bool,
  false, not, ◌&&◌, ◌||◌, Option, none, some, List, [], ◌∷◌, ◌++◌, pos, ok, err, Text,
}
use flow_cast.Config.Loading.{
  min_bcrypt_cost, max_bcrypt_cost, max_database_conns, min_jwt_secret_length, show_int, problem_if,
  read_config,
}
use flow_cast.Config.Reader.{Problems, add_problem, Platform}
use flow_cast.Config.Types.{
  env_development, env_test, env_production, provider_openai, provider_mock, DatabaseConfig,
  RedisConfig, AuthConfig, AiConfig, Config,
}

abbrev pub one_of : Text → List Text → Bool
one_of t [] = false
one_of t (u ∷ us) = text_eq t u || one_of t us

module _ (os : Platform) where
  -- checkURLScheme: the message, or none for nil.
  unfoldable pub check_url_scheme : Text → List Text → Option Text
  check_url_scheme raw allowed = elim (os.url_scheme raw) [
    | err message ↦ some (bytes "must be a valid URL: " ++ message)
    | ok scheme ↦
        if one_of scheme allowed
        then none
        else some (
            bytes "scheme must be one of "
            ++ (join allowed (bytes ", ") ++ (bytes "; got " ++ os.quote scheme)))
  ]

  -- The message of a check, if any, is a problem of the variable.
  abbrev pub report_problem : Problems → Text → Option Text → Problems
  report_problem errs variable none = errs
  report_problem errs variable (some message) = add_problem errs variable message

  unfoldable pub validate_database : DatabaseConfig → Problems → Problems
  validate_database c e0 =
      let e1 =
        if is_empty c.url
        then e0
        else report_problem e0 (bytes "FLOWCAST_DATABASE_URL")
            (check_url_scheme c.url (bytes "postgres" ∷ bytes "postgresql" ∷ [])) in
      let e2 =
        problem_if (leb_ℤ c.connect_timeout (pos 0)) e1 (bytes "FLOWCAST_DATABASE_CONNECT_TIMEOUT")
          (bytes "must be a positive duration") in
      let e3 =
        problem_if (ltb_ℤ c.max_conns (pos 1) || ltb_ℤ max_database_conns c.max_conns) e2
          (bytes "FLOWCAST_DATABASE_MAX_CONNS")
          (bytes "must be between 1 and 1000; got " ++ show_int c.max_conns) in
      let e4 =
        problem_if (ltb_ℤ c.min_conns (pos 0)) e3 (bytes "FLOWCAST_DATABASE_MIN_CONNS")
          (bytes "must not be negative; got " ++ show_int c.min_conns) in
      problem_if (ltb_ℤ c.max_conns c.min_conns) e4 (bytes "FLOWCAST_DATABASE_MIN_CONNS") (
        bytes "must not exceed FLOWCAST_DATABASE_MAX_CONNS ("
        ++ (show_int c.max_conns ++ (bytes "); got " ++ show_int c.min_conns)))

  unfoldable pub validate_redis : RedisConfig → Problems → Problems
  validate_redis c e0 =
      let e1 =
        problem_if (leb_ℤ c.connect_timeout (pos 0)) e0 (bytes "FLOWCAST_REDIS_CONNECT_TIMEOUT")
          (bytes "must be a positive duration") in
      if is_empty c.url
      then e1
      else report_problem e1 (bytes "FLOWCAST_REDIS_URL")
          (check_url_scheme c.url (bytes "redis" ∷ bytes "rediss" ∷ []))

unfoldable pub validate_auth : AuthConfig → Problems → Problems
validate_auth c e0 =
    let access = c.access_token_ttl in
    let refresh = c.refresh_token_ttl in
    let e1 =
      problem_if (not (is_empty c.jwt_secret) && ltb (length c.jwt_secret) min_jwt_secret_length) e0
        (bytes "FLOWCAST_JWT_SECRET")
        (bytes "must be at least 32 characters; got " ++ show_nat (length c.jwt_secret)) in
    let e2 =
      problem_if (leb_ℤ access (pos 0)) e1 (bytes "FLOWCAST_ACCESS_TOKEN_TTL")
        (bytes "must be a positive duration") in
    let e3 =
      problem_if (leb_ℤ refresh (pos 0)) e2 (bytes "FLOWCAST_REFRESH_TOKEN_TTL")
        (bytes "must be a positive duration") in
    let e4 =
      problem_if (ltb_ℤ (pos 0) access && ltb_ℤ (pos 0) refresh && leb_ℤ refresh access) e3
        (bytes "FLOWCAST_ACCESS_TOKEN_TTL")
        (bytes "must be shorter than FLOWCAST_REFRESH_TOKEN_TTL") in
    problem_if (ltb_ℤ c.bcrypt_cost min_bcrypt_cost || ltb_ℤ max_bcrypt_cost c.bcrypt_cost) e4
      (bytes "FLOWCAST_BCRYPT_COST")
      (bytes "must be between 4 and 31; got " ++ show_int c.bcrypt_cost)

abbrev pub needed : Problems → Text → Text → Problems
needed errs variable value =
    problem_if (is_empty value) errs variable (bytes "is required when FLOWCAST_AI_PROVIDER=openai")

unfoldable pub validate_provider : Platform → AiConfig → Problems → Problems
validate_provider os c e0 =
    if text_eq c.provider provider_mock
    then e0
    else if text_eq c.provider provider_openai
    then needed
        (needed
          (needed (needed e0 (bytes "OPENAI_API_KEY") c.openai_api_key)
            (bytes "FLOWCAST_ANALYSIS_MODEL") c.analysis_model)
          (bytes "FLOWCAST_POSTMORTEM_MODEL") c.postmortem_model)
        (bytes "FLOWCAST_EMBEDDING_MODEL") c.embedding_model
    else add_problem e0 (bytes "FLOWCAST_AI_PROVIDER")
        (bytes "must be one of openai, mock; got " ++ os.quote c.provider)

unfoldable pub validate_ai : Platform → AiConfig → Problems → Problems
unfolding validate_provider
validate_ai os c e0 =
    let e1 = validate_provider os c e0 in
    let e2 =
      problem_if (ltb_ℤ c.embedding_dimensions (pos 1)) e1 (bytes "FLOWCAST_EMBEDDING_DIMENSIONS")
        (bytes "must be at least 1; got " ++ show_int c.embedding_dimensions) in
    problem_if (leb_ℤ c.request_timeout (pos 0)) e2 (bytes "FLOWCAST_AI_REQUEST_TIMEOUT")
      (bytes "must be a positive duration")

unfoldable pub validate_server : Platform → Config → Problems → Problems
validate_server os c e0 =
    let e1 =
      problem_if (not (one_of c.env (env_development ∷ env_test ∷ env_production ∷ []))) e0
        (bytes "FLOWCAST_ENV")
        (bytes "must be one of development, test, production; got " ++ os.quote c.env) in
    problem_if (ltb_ℤ c.server.port (pos 1) || ltb_ℤ (pos 65535) c.server.port) e1
      (bytes "FLOWCAST_HTTP_PORT")
      (bytes "must be between 1 and 65535; got " ++ show_int c.server.port)

unfoldable pub validate_settings : Platform → Config → Problems → Problems
unfolding validate_server validate_database validate_redis validate_auth validate_ai
validate_settings os c errs = validate_ai os c.ai (
    validate_auth c.auth
      (validate_redis os c.redis (validate_database os c.database (validate_server os c errs))))

-- The end of Load: the problems, if there are any.
abbrev pub settled : Config → Problems → Result Problems Config
settled cfg [] = ok cfg
settled cfg (e ∷ es) = err (e ∷ es)

unfoldable pub load : Platform → Result Problems Config
unfolding validate_settings
load os = let (cfg, errs) = read_config os in settled cfg (validate_settings os cfg errs)
