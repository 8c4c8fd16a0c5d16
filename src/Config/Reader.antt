-- ===== src/Config/Reader.antt =====
-- backend/internal/config/reader.go: the values of environment variables, with the problems found on
-- the way. Each read takes the problems so far and gives the value with the problems then.
use flow_cast.Base.{
  bytes, is_empty, Duration, ℤ, Result, ◌==◌, if◌then◌else◌, Option, none, some, List, [], ◌∷◌,
  ◌++◌, Text,
}
use flow_cast.Strings.{trim_space}

pub record FieldError : Type 0 where
  pub variable : Text
  pub message : Text

abbrev pub Problems : Type 0
Problems = List FieldError

unfoldable pub add_problem : Problems → Text → Text → Problems
add_problem errs variable message = errs ++ record { variable = variable; message = message } ∷ []

-- What the reader uses of the system and the standard library: the environment, the parsers of
-- integers, durations and levels, and the verb %q.
pub record Platform : Type 0 where
  pub getenv : Text → Text
  pub parse_int : Text → Option ℤ
  pub parse_duration : Text → Option Duration
  pub parse_level : Text → Option ℤ
  pub quote : Text → Text
  pub url_scheme : Text → Result Text Text

-- strings.Split(raw, ","), with the part so far.
unfoldable pub split_commas : Text → Text → List Text
split_commas part [] = part ∷ []
split_commas part (b ∷ s) =
    let rest = split_commas [] s in
    let longer = split_commas (part ++ b ∷ []) s in if b == b',' then part ∷ rest else longer

unfoldable pub nonblank : List Text → List Text
nonblank [] = []
nonblank (p ∷ ps) =
    let rest = nonblank ps in if is_empty (trim_space p) then rest else trim_space p ∷ rest

module _ (os : Platform) where
  -- The trimmed value, if it is not blank.
  unfoldable pub lookup : Text → Option Text
  lookup key = let v = trim_space (os.getenv key) in if is_empty v then none else some v

  unfoldable pub str : Text → Text → Text
  unfolding lookup
  str key default = elim (lookup key) [ none ↦ default | some v ↦ v ]

  unfoldable pub required_str : Problems → Text → Text × Problems
  unfolding lookup add_problem
  required_str errs key = elim (lookup key) [
    | none ↦ ([], add_problem errs key (bytes "is required"))
    | some v ↦ (v, errs)
  ]

  -- A set variable that does not parse is a problem, and the default is kept.
  unfoldable pub parsed :
      {A : Type 0} → Problems → Text → A → (Text → Option A) → Text → A × Problems
  unfolding lookup add_problem
  parsed errs key default parse message = elim (lookup key) [
    | none ↦ (default, errs)
    | some raw ↦ elim (parse raw) [
      | none ↦ (default, add_problem errs key (message ++ os.quote raw))
      | some v ↦ (v, errs)
    ]
  ]

  unfoldable pub int_val : Problems → Text → ℤ → ℤ × Problems
  unfolding parsed
  int_val errs key default = parsed errs key default os.parse_int (bytes "must be an integer; got ")

  unfoldable pub duration_val : Problems → Text → Duration → Duration × Problems
  unfolding parsed
  duration_val errs key default =
      parsed errs key default os.parse_duration
        (bytes "must be a duration such as 15m or 24h; got ")

  unfoldable pub log_level : Problems → Text → ℤ → ℤ × Problems
  unfolding parsed
  log_level errs key default =
      parsed errs key default os.parse_level (bytes "must be one of debug, info, warn, error; got ")

  unfoldable pub str_slice : Text → List Text → List Text
  unfolding lookup split_commas nonblank
  str_slice key default = elim (lookup key) [
    | none ↦ default
    | some raw ↦ elim (nonblank (split_commas [] raw)) [ [] ↦ default | p ∷ ps ↦ p ∷ ps ]
  ]
