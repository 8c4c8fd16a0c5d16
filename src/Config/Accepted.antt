-- ===== src/Config/Accepted.antt =====
-- When reading and checking the configuration reports no problem (config.go, reader.go).
pub mod Checked
pub mod Started
use flow_cast.Base.{
  ◌≤ℤ◌, ◌<ℤ◌, length, ◌≤◌, pos, bytes, is_empty, Duration, ℤ, append-ne-nil, Option-cases, ◌≡◌,
  refl, ◌↔◌, inl, inr, Bool, true, false, Option, [], arith, Text,
}
use flow_cast.Config.Loading.{
  min_bcrypt_cost, max_bcrypt_cost, max_database_conns, min_jwt_secret_length, read_database,
  read_auth, read_ai, read_config, problem_if, read_redis,
}
use flow_cast.Config.Reader.{
  log_level, Platform, Problems, add_problem, lookup, required_str, parsed, int_val, duration_val,
}
use flow_cast.Config.Types.{DatabaseConfig, AuthConfig}
use flow_cast.Config.Validating.{validate_auth}

abbrev pub Quiet : Problems → Type 0
Quiet errs = errs ≡ []

pub add_problem-not-Quiet :
    (errs : Problems) (variable message : Text) → ¬ Quiet (add_problem errs variable message)
unfolding add_problem
add_problem-not-Quiet errs variable message h = append-ne-nil errs _ h

pub problem_if-Quiet :
    (b : Bool) (errs : Problems) (variable message : Text)
    → Quiet (problem_if b errs variable message) ↔ (Quiet errs × (b ≡ false))
unfolding problem_if
problem_if-Quiet true errs variable message =
    (λ h. absurd (add_problem-not-Quiet errs variable message h), λ h. cc h.1)
problem_if-Quiet false errs variable message = (λ h. (h, refl), λ h. h.0)

module _ (os : Platform) where
  parsed-Quiet :
      {A : Type 0} (errs : Problems) (key : Text) (default : A) (parse : Text → Option A)
      (message : Text)
      → Quiet (parsed os errs key default parse message).1
      → Quiet errs
  unfolding parsed
  parsed-Quiet errs key default parse message h = elim (Option-cases (lookup os key)) [
    | inl missing ↦ rw (missing, parsed) at h
    | inr (raw, set) ↦ elim (Option-cases (parse raw)) [
      | inl bad ↦ absurd (add_problem-not-Quiet errs key _ (rw (set, parsed, bad) at h))
      | inr (v, good) ↦ rw (set, parsed, good) at h
    ]
  ]

  int_val-Quiet :
      (errs : Problems) (key : Text) (default : ℤ)
      → Quiet (int_val os errs key default).1
      → Quiet errs
  unfolding int_val
  int_val-Quiet errs key default h = parsed-Quiet errs key default os.parse_int _ h

  duration_val-Quiet :
      (errs : Problems) (key : Text) (default : Duration)
      → Quiet (duration_val os errs key default).1
      → Quiet errs
  unfolding duration_val
  duration_val-Quiet errs key default h = parsed-Quiet errs key default os.parse_duration _ h

  required_str-Quiet :
      (errs : Problems) (key : Text)
      → Quiet (required_str os errs key).1
      → Quiet errs × (is_empty (required_str os errs key).0 ≡ false)
  unfolding required_str lookup
  required_str-Quiet errs key h =
      ground (arith, add_problem-not-Quiet errs key (bytes "is required"))

  log_level-Quiet :
      (errs : Problems) (key : Text) (default : ℤ)
      → Quiet (log_level os errs key default).1
      → Quiet errs
  unfolding log_level
  log_level-Quiet errs key default h = parsed-Quiet errs key default os.parse_level _ h

  -- The address is set.
  read_redis-Quiet :
      (errs : Problems)
      → Quiet (read_redis os errs).1
      → Quiet errs × (is_empty (read_redis os errs).0.url ≡ false)
  unfolding read_redis
  read_redis-Quiet errs h = required_str-Quiet _ _ (duration_val-Quiet _ _ _ h)

  read_ai-Quiet : (errs : Problems) → Quiet (read_ai os errs).1 → Quiet errs
  unfolding read_ai
  read_ai-Quiet errs h = int_val-Quiet _ _ _ (duration_val-Quiet _ _ _ h)

  -- The secret is set.
  read_auth-Quiet :
      (errs : Problems)
      → Quiet (read_auth os errs).1
      → Quiet errs × (is_empty (read_auth os errs).0.jwt_secret ≡ false)
  unfolding read_auth
  read_auth-Quiet errs h =
      required_str-Quiet _ _
        (duration_val-Quiet _ _ _ (duration_val-Quiet _ _ _ (int_val-Quiet _ _ _ h)))

  -- The address is set.
  read_database-Quiet :
      (errs : Problems)
      → Quiet (read_database os errs).1
      → Quiet errs × (is_empty (read_database os errs).0.url ≡ false)
  unfolding read_database
  read_database-Quiet errs h = required_str-Quiet _ _ (
      duration_val-Quiet _ _ _ (
        int_val-Quiet _ _ _
          (int_val-Quiet _ _ _ (duration_val-Quiet _ _ _ (duration_val-Quiet _ _ _ h)))))

  pub read_config-Quiet :
      Quiet (read_config os).1
      → (is_empty (read_config os).0.auth.jwt_secret ≡ false)
        × (is_empty (read_config os).0.database.url ≡ false)
        × (is_empty (read_config os).0.redis.url ≡ false)
  unfolding read_config
  read_config-Quiet h =
      let (before_auth, secret) = read_auth-Quiet _ (read_ai-Quiet _ h) in
      let (before_redis, redis_url) = read_redis-Quiet _ before_auth in
      let (_, url) = read_database-Quiet _ before_redis in (secret, url, redis_url)

-- What the checks ask of a pool of connections.
pub record DatabaseIsUsable (c : DatabaseConfig) : Type 0 where
  pub patient : pos 0 <ℤ c.connect_timeout
  pub some_conns : pos 1 ≤ℤ c.max_conns
  pub bounded : c.max_conns ≤ℤ max_database_conns
  pub min_natural : pos 0 ≤ℤ c.min_conns
  pub min_below_max : c.min_conns ≤ℤ c.max_conns

-- The conditions on secrets and lifetimes, where the secret is set.
pub record AuthIsUsable (c : AuthConfig) : Type 0 where
  pub long_secret : min_jwt_secret_length ≤ length c.jwt_secret
  pub access_positive : pos 0 <ℤ c.access_token_ttl
  pub access_shorter : c.access_token_ttl <ℤ c.refresh_token_ttl
  pub cost_enough : min_bcrypt_cost ≤ℤ c.bcrypt_cost
  pub cost_bounded : c.bcrypt_cost ≤ℤ max_bcrypt_cost

pub validate_auth-Quiet :
    (c : AuthConfig) (errs : Problems)
    → Quiet (validate_auth c errs)
    → Quiet errs × (is_empty c.jwt_secret ≡ false → AuthIsUsable c)
unfolding validate_auth
validate_auth-Quiet c errs h =
    let (q4, cost) = (problem_if-Quiet _ _ _ _).0 h in
    let (q3, shorter) = (problem_if-Quiet _ _ _ _).0 q4 in
    let (q2, refresh) = (problem_if-Quiet _ _ _ _).0 q3 in
    let (q1, access) = (problem_if-Quiet _ _ _ _).0 q2 in
    let (q0, secret) = (problem_if-Quiet _ _ _ _).0 q1 in
    (
      q0,
      λ given. record {
        long_secret = ground arith;
        access_positive = ground arith;
        access_shorter = ground arith;
        cost_enough = ground arith;
        cost_bounded = ground arith;
      },
    )
