-- ===== src/Config/Accepted/Checked.antt =====
-- The checks on the database, Redis, the AI provider and the server.
use flow_cast.Base.{
  ◌<ℤ◌, Result-cases, Option-cases, ok, bytes, text_eq, text_eq_iff, is_empty, ◌≤ℤ◌, leb_ℤ, OneOf,
  if◌then◌else◌, Bool-cases, ◌≡◌, ◌↔◌, ◌⊎◌, inl, inr, true, false, none, List, [], ◌∷◌, arith, pos,
  Text,
}
use flow_cast.Config.Accepted.{Quiet, add_problem-not-Quiet, problem_if-Quiet, DatabaseIsUsable}
use flow_cast.Config.Loading.{problem_if}
use flow_cast.Config.Reader.{Problems, Platform}
use flow_cast.Config.Types.{
  env_development, env_test, env_production, provider_openai, provider_mock, DatabaseConfig,
  RedisConfig, AiConfig, Config,
}
use flow_cast.Config.Validating.{
  one_of, check_url_scheme, report_problem, validate_database, validate_redis, needed,
  validate_provider, validate_ai, validate_server,
}

one_of_iff : (t : Text) (us : List Text) → (one_of t us ≡ true) ↔ OneOf t us
one_of_iff t [] = ground arith
one_of_iff t (u ∷ us) = ground (arith, one_of_iff t us, text_eq_iff t u)

module _ (os : Platform) where
  -- The address parses, to one of the schemes.
  abbrev pub HasScheme : Text → List Text → Type 0
  HasScheme raw allowed = (scheme : Text) × (os.url_scheme raw ≡ ok scheme) × OneOf scheme allowed

  check_url_scheme-HasScheme :
      (raw : Text) (allowed : List Text)
      → check_url_scheme os raw allowed ≡ none
      → HasScheme raw allowed
  unfolding check_url_scheme
  check_url_scheme-HasScheme raw allowed h = elim (Result-cases (os.url_scheme raw)) [
    | inl (message, bad) ↦ cc (rw (bad, check_url_scheme) at h)
    | inr (scheme, good) ↦ elim (Bool-cases (one_of scheme allowed)) [
      | inl known ↦ (scheme, good, (one_of_iff scheme allowed).0 known)
      | inr other_scheme ↦ cc (rw (good, other_scheme, check_url_scheme) at h)
    ]
  ]

  reported-HasScheme :
      (errs : Problems) (variable raw : Text) (allowed : List Text)
      → Quiet (report_problem os errs variable (check_url_scheme os raw allowed))
      → Quiet errs × HasScheme raw allowed
  reported-HasScheme errs variable raw allowed h =
      elim (Option-cases (check_url_scheme os raw allowed)) [
        | inl passed ↦ (rw passed at h, check_url_scheme-HasScheme raw allowed passed)
        | inr (message, bad) ↦ absurd (add_problem-not-Quiet errs variable message (rw bad at h))
      ]

  -- The check of an address that is set.
  address_checked :
      (errs : Problems) (variable raw : Text) (allowed : List Text)
      → Quiet (
          if is_empty raw
          then errs
          else report_problem os errs variable (check_url_scheme os raw allowed))
      → Quiet errs × (is_empty raw ≡ false → HasScheme raw allowed)
  address_checked errs variable raw allowed h = elim (Bool-cases (is_empty raw)) [
    | inl e ↦ (rw e at h, λ given. cc (e, given))
    | inr e ↦
        let (quiet, schemed) = reported-HasScheme errs variable raw allowed (rw e at h) in
        (quiet, λ _. schemed)
  ]

  abbrev pub database_schemes : List Text
  database_schemes = bytes "postgres" ∷ bytes "postgresql" ∷ []

  abbrev pub redis_schemes : List Text
  redis_schemes = bytes "redis" ∷ bytes "rediss" ∷ []

  pub validate_database-Quiet :
      (c : DatabaseConfig) (errs : Problems)
      → Quiet (validate_database os c errs)
      → Quiet errs
        × DatabaseIsUsable c
        × (is_empty c.url ≡ false → HasScheme c.url database_schemes)
  unfolding validate_database
  validate_database-Quiet c errs h =
      let (q4, below) = (problem_if-Quiet _ _ _ _).0 h in
      let (q3, natural) = (problem_if-Quiet _ _ _ _).0 q4 in
      let (q2, bounds) = (problem_if-Quiet _ _ _ _).0 q3 in
      let (q1, patience) = (problem_if-Quiet _ _ _ _).0 q2 in
      let (q0, schemed) =
        address_checked errs (bytes "FLOWCAST_DATABASE_URL") c.url database_schemes q1 in
      (
        q0,
        record {
          patient = ground arith;
          some_conns = ground arith;
          bounded = ground arith;
          min_natural = ground arith;
          min_below_max = ground arith;
        },
        schemed,
      )

  pub validate_redis-Quiet :
      (c : RedisConfig) (errs : Problems)
      → Quiet (validate_redis os c errs)
      → Quiet errs
        × (pos 0 <ℤ c.connect_timeout)
        × (is_empty c.url ≡ false → HasScheme c.url redis_schemes)
  unfolding validate_redis
  validate_redis-Quiet c errs h =
      let (q1, schemed) =
        address_checked
          (problem_if (leb_ℤ c.connect_timeout (pos 0)) errs
            (bytes "FLOWCAST_REDIS_CONNECT_TIMEOUT") (bytes "must be a positive duration"))
          (bytes "FLOWCAST_REDIS_URL") c.url redis_schemes h in
      let (q0, patience) = (problem_if-Quiet _ _ _ _).0 q1 in (q0, ground arith, schemed)

  -- The named models and the key are there where the provider is OpenAI.
  abbrev pub ProviderIsUsable : AiConfig → Type 0
  ProviderIsUsable c =
      (c.provider ≡ provider_mock)
      ⊎ ((c.provider ≡ provider_openai)
          × (is_empty c.openai_api_key ≡ false)
          × (is_empty c.analysis_model ≡ false)
          × (is_empty c.postmortem_model ≡ false)
          × (is_empty c.embedding_model ≡ false))

  needed-Quiet :
      (errs : Problems) (variable value : Text)
      → Quiet (needed errs variable value)
      → Quiet errs × (is_empty value ≡ false)
  needed-Quiet errs variable value h = (problem_if-Quiet _ _ _ _).0 h

  validate_provider-Quiet :
      (c : AiConfig) (errs : Problems)
      → Quiet (validate_provider os c errs)
      → Quiet errs × ProviderIsUsable c
  unfolding validate_provider
  validate_provider-Quiet c errs h = elim (Bool-cases (text_eq c.provider provider_mock)) [
    | inl mock ↦ (rw mock at h, inl ((text_eq_iff _ _).0 mock))
    | inr real ↦ elim (Bool-cases (text_eq c.provider provider_openai)) [
      | inl openai ↦
          let (q3, embedding) = needed-Quiet _ _ _ (rw (real, openai) at h) in
          let (q2, postmortem) = needed-Quiet _ _ _ q3 in
          let (q1, analysis) = needed-Quiet _ _ _ q2 in
          let (q0, key) = needed-Quiet _ _ _ q1 in
          (q0, inr ((text_eq_iff _ _).0 openai, key, analysis, postmortem, embedding))
      | inr other_provider ↦
          absurd (add_problem-not-Quiet errs _ _ (rw (real, other_provider) at h))
    ]
  ]

  pub validate_ai-Quiet :
      (c : AiConfig) (errs : Problems)
      → Quiet (validate_ai os c errs)
      → Quiet errs
        × ProviderIsUsable c
        × (pos 1 ≤ℤ c.embedding_dimensions)
        × (pos 0 <ℤ c.request_timeout)
  unfolding validate_ai
  validate_ai-Quiet c errs h =
      let (q2, patience) = (problem_if-Quiet _ _ _ _).0 h in
      let (q1, dimensions) = (problem_if-Quiet _ _ _ _).0 q2 in
      let (q0, provider) = validate_provider-Quiet c errs q1 in
      (q0, provider, ground arith, ground arith)

  pub validate_server-Quiet :
      (c : Config) (errs : Problems)
      → Quiet (validate_server os c errs)
      → Quiet errs
        × OneOf c.env (env_development ∷ env_test ∷ env_production ∷ [])
        × (pos 1 ≤ℤ c.server.port)
        × (c.server.port ≤ℤ pos 65535)
  unfolding validate_server
  validate_server-Quiet c errs h =
      let (q1, port) = (problem_if-Quiet _ _ _ _).0 h in
      let (q0, named) = (problem_if-Quiet _ _ _ _).0 q1 in
      let environments = env_development ∷ env_test ∷ env_production ∷ [] in
      let known : one_of c.env environments ≡ true = ground arith in
      (q0, (one_of_iff c.env environments).0 known, ground arith, ground arith)
