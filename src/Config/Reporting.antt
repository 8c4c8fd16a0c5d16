-- ===== src/Config/Reporting.antt =====
-- What Load of backend/internal/config/config.go reports of the variables that cannot be read, beside a
-- list of these variables.
pub mod Complete
use flow_cast.Base.{
  Text, bytes, Duration, ℤ, Option-cases, ◌≡◌, refl, sym, inl, inr, Option, none, some, List, [],
  ◌∷◌, ◌++◌,
}
use mathlib.Core.List.{append-nil, append_assoc}
use flow_cast.Config.Reader.{
  Platform, Problems, parsed, lookup, add_problem, int_val, duration_val, log_level, required_str,
}
use flow_cast.Config.Loading.{
  read_server, read_database, read_redis, read_auth, read_ai, read_config,
}

-- A variable that has to be set, or to parse where it is set.
pub data Field : Type 0 where
  required_field integer_field duration_field level_field : Text → Field

abbrev pub all_fields : List Field
all_fields =
    integer_field (bytes "FLOWCAST_HTTP_PORT")
    ∷ level_field (bytes "FLOWCAST_LOG_LEVEL")
    ∷ duration_field (bytes "FLOWCAST_HTTP_READ_TIMEOUT")
    ∷ duration_field (bytes "FLOWCAST_HTTP_WRITE_TIMEOUT")
    ∷ duration_field (bytes "FLOWCAST_HTTP_IDLE_TIMEOUT")
    ∷ duration_field (bytes "FLOWCAST_SHUTDOWN_TIMEOUT")
    ∷ required_field (bytes "FLOWCAST_DATABASE_URL")
    ∷ duration_field (bytes "FLOWCAST_DATABASE_CONNECT_TIMEOUT")
    ∷ integer_field (bytes "FLOWCAST_DATABASE_MAX_CONNS")
    ∷ integer_field (bytes "FLOWCAST_DATABASE_MIN_CONNS")
    ∷ duration_field (bytes "FLOWCAST_DATABASE_MAX_CONN_LIFETIME")
    ∷ duration_field (bytes "FLOWCAST_DATABASE_MAX_CONN_IDLE_TIME")
    ∷ required_field (bytes "FLOWCAST_REDIS_URL")
    ∷ duration_field (bytes "FLOWCAST_REDIS_CONNECT_TIMEOUT")
    ∷ required_field (bytes "FLOWCAST_JWT_SECRET")
    ∷ duration_field (bytes "FLOWCAST_ACCESS_TOKEN_TTL")
    ∷ duration_field (bytes "FLOWCAST_REFRESH_TOKEN_TTL")
    ∷ integer_field (bytes "FLOWCAST_BCRYPT_COST")
    ∷ integer_field (bytes "FLOWCAST_EMBEDDING_DIMENSIONS")
    ∷ duration_field (bytes "FLOWCAST_AI_REQUEST_TIMEOUT")
    ∷ []

abbrev problem_of : Text → Text → Problems
problem_of variable message = record { variable = variable; message = message } ∷ []

module _ (os : Platform) where
  -- The problem of a variable that is set to what does not parse.
  unfoldable parse_problem : {A : Type 0} → Text → (Text → Option A) → Text → Problems
  parse_problem key parse message = elim (lookup os key) [
    | none ↦ []
    | some raw ↦ elim (parse raw) [ none ↦ problem_of key (message ++ os.quote raw) | some v ↦ [] ]
  ]

  -- The problem of a variable by itself, if any.
  unfoldable pub field_problem : Field → Problems
  unfolding parse_problem
  field_problem (required_field key) = elim (lookup os key) [
    | none ↦ problem_of key (bytes "is required")
    | some v ↦ []
  ]
  field_problem (integer_field key) =
      parse_problem key os.parse_int (bytes "must be an integer; got ")
  field_problem (duration_field key) =
      parse_problem key os.parse_duration (bytes "must be a duration such as 15m or 24h; got ")
  field_problem (level_field key) =
      parse_problem key os.parse_level (bytes "must be one of debug, info, warn, error; got ")

  unfoldable pub field_problems : List Field → Problems
  unfolding field_problem
  field_problems [] = []
  field_problems (f ∷ fs) = field_problem f ++ field_problems fs

  parsed-problems :
      {A : Type 0} (errs : Problems) (key : Text) (default : A) (parse : Text → Option A)
      (message : Text)
      → (parsed os errs key default parse message).1 ≡ errs ++ parse_problem key parse message
  unfolding parsed parse_problem add_problem
  parsed-problems errs key default parse message = elim (Option-cases (lookup os key)) [
    | inl unset ↦ rw (unset, parsed, parse_problem) (sym (append-nil errs))
    | inr (raw, set) ↦ elim (Option-cases (parse raw)) [
      | inl bad ↦ rw (set, parsed, parse_problem, bad) refl
      | inr (v, good) ↦ rw (set, parsed, parse_problem, good) (sym (append-nil errs))
    ]
  ]

  int_val-problems :
      (errs : Problems) (key : Text) (default : ℤ)
      → (int_val os errs key default).1 ≡ errs ++ field_problem (integer_field key)
  unfolding int_val field_problem
  int_val-problems errs key default = parsed-problems errs key default os.parse_int _

  duration_val-problems :
      (errs : Problems) (key : Text) (default : Duration)
      → (duration_val os errs key default).1 ≡ errs ++ field_problem (duration_field key)
  unfolding duration_val field_problem
  duration_val-problems errs key default = parsed-problems errs key default os.parse_duration _

  log_level-problems :
      (errs : Problems) (key : Text) (default : ℤ)
      → (log_level os errs key default).1 ≡ errs ++ field_problem (level_field key)
  unfolding log_level field_problem
  log_level-problems errs key default = parsed-problems errs key default os.parse_level _

  required_str-problems :
      (errs : Problems) (key : Text)
      → (required_str os errs key).1 ≡ errs ++ field_problem (required_field key)
  unfolding required_str field_problem add_problem
  required_str-problems errs key = elim (Option-cases (lookup os key)) [
    | inl unset ↦ rw (unset, required_str, field_problem) refl
    | inr (v, set) ↦ rw (set, required_str, field_problem) (sym (append-nil errs))
  ]

  -- The problems of reading are those of the variables by themselves, in order.
  pub read_config-problems : (read_config os).1 ≡ field_problems all_fields
  unfolding read_config read_server read_database read_redis read_auth read_ai field_problems
  read_config-problems = simp (
    int_val-problems, log_level-problems, duration_val-problems, required_str-problems,
    append_assoc, append-nil,
  )
