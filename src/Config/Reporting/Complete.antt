-- ===== src/Config/Reporting/Complete.antt =====
-- The problems that Load of backend/internal/config/config.go has found stay in its error.
use flow_cast.Base.{
  Text, text_eq, is_empty, OneOf, if◌then◌else◌, Bool-cases, ◌≡◌, refl, sym, subst, inl, inr, Bool,
  true, false, Option, none, some, List, [], ◌∷◌, ◌++◌, err,
}
use flow_cast.Config.Reader.{Platform, Problems, FieldError, add_problem}
use flow_cast.Config.Reporting.{
  Field, all_fields, field_problem, field_problems, read_config-problems,
}
use flow_cast.Config.Loading.{problem_if, read_config}
use flow_cast.Config.Types.{
  provider_openai, provider_mock, DatabaseConfig, RedisConfig, AuthConfig, AiConfig, Config,
}
use flow_cast.Config.Validating.{
  report_problem, validate_database, validate_redis, validate_auth, validate_provider, validate_ai,
  validate_server, validate_settings, settled, load,
}

module _ (p : FieldError) where
  OneOf-append_left : (xs ys : Problems) → OneOf p xs → OneOf p (xs ++ ys)
  OneOf-append_left [] ys m = absurd m
  OneOf-append_left (x ∷ xs) ys (inl e) = inl e
  OneOf-append_left (x ∷ xs) ys (inr m) = inr (OneOf-append_left xs ys m)

  OneOf-append_right : (xs ys : Problems) → OneOf p ys → OneOf p (xs ++ ys)
  OneOf-append_right [] ys m = m
  OneOf-append_right (x ∷ xs) ys m = inr (OneOf-append_right xs ys m)

  add_problem-keeps :
      (variable message : Text) (errs : Problems)
      → OneOf p errs
      → OneOf p (add_problem errs variable message)
  unfolding add_problem
  add_problem-keeps variable message errs m = OneOf-append_left errs _ m

  problem_if-keeps :
      (b : Bool) (variable message : Text) (errs : Problems)
      → OneOf p errs
      → OneOf p (problem_if b errs variable message)
  unfolding problem_if
  problem_if-keeps true variable message errs m = add_problem-keeps variable message errs m
  problem_if-keeps false variable message errs m = m

  module _ (os : Platform) where
    report_problem-keeps :
        (variable : Text) (o : Option Text) (errs : Problems)
        → OneOf p errs
        → OneOf p (report_problem os errs variable o)
    report_problem-keeps variable none errs m = m
    report_problem-keeps variable (some message) errs m = add_problem-keeps variable message errs m

    if_empty-keeps :
        (b : Bool) (variable : Text) (o : Option Text) (errs : Problems)
        → OneOf p errs
        → OneOf p (if b then errs else report_problem os errs variable o)
    if_empty-keeps true variable o errs m = m
    if_empty-keeps false variable o errs m = report_problem-keeps variable o errs m

    validate_server-keeps :
        (c : Config) (errs : Problems) → OneOf p errs → OneOf p (validate_server os c errs)
    unfolding validate_server
    validate_server-keeps c errs m = problem_if-keeps _ _ _ _ (problem_if-keeps _ _ _ _ m)

    validate_database-keeps :
        (c : DatabaseConfig) (errs : Problems)
        → OneOf p errs
        → OneOf p (validate_database os c errs)
    unfolding validate_database
    validate_database-keeps c errs m = problem_if-keeps _ _ _ _ (
        problem_if-keeps _ _ _ _ (
          problem_if-keeps _ _ _ _
            (problem_if-keeps _ _ _ _ (if_empty-keeps (is_empty c.url) _ _ _ m))))

    validate_redis-keeps :
        (c : RedisConfig) (errs : Problems) → OneOf p errs → OneOf p (validate_redis os c errs)
    unfolding validate_redis
    validate_redis-keeps c errs m =
        if_empty-keeps (is_empty c.url) _ _ _ (problem_if-keeps _ _ _ _ m)

    validate_auth-keeps :
        (c : AuthConfig) (errs : Problems) → OneOf p errs → OneOf p (validate_auth c errs)
    unfolding validate_auth
    validate_auth-keeps c errs m = problem_if-keeps _ _ _ _ (
        problem_if-keeps _ _ _ _
          (problem_if-keeps _ _ _ _ (problem_if-keeps _ _ _ _ (problem_if-keeps _ _ _ _ m))))

    validate_provider-keeps :
        (c : AiConfig) (errs : Problems) → OneOf p errs → OneOf p (validate_provider os c errs)
    unfolding validate_provider
    validate_provider-keeps c errs m = elim (Bool-cases (text_eq c.provider provider_mock)) [
      | inl mock ↦ rw mock m
      | inr real ↦ elim (Bool-cases (text_eq c.provider provider_openai)) [
        | inl openai ↦
            rw (real, openai)
              (problem_if-keeps _ _ _ _
                (problem_if-keeps _ _ _ _ (problem_if-keeps _ _ _ _ (problem_if-keeps _ _ _ _ m))))
        | inr unknown_one ↦ rw (real, unknown_one) (add_problem-keeps _ _ errs m)
      ]
    ]

    validate_ai-keeps :
        (c : AiConfig) (errs : Problems) → OneOf p errs → OneOf p (validate_ai os c errs)
    unfolding validate_ai
    validate_ai-keeps c errs m =
        problem_if-keeps _ _ _ _ (problem_if-keeps _ _ _ _ (validate_provider-keeps c _ m))

    validate_settings-keeps :
        (c : Config) (errs : Problems) → OneOf p errs → OneOf p (validate_settings os c errs)
    unfolding validate_settings
    validate_settings-keeps c errs m = validate_ai-keeps c.ai _ (
        validate_auth-keeps c.auth _ (
          validate_redis-keeps c.redis _
            (validate_database-keeps c.database _ (validate_server-keeps c _ m))))

    field_problems-has :
        (f : Field) (fs : List Field)
        → OneOf f fs
        → OneOf p (field_problem os f)
        → OneOf p (field_problems os fs)
    unfolding field_problems
    field_problems-has f [] m h = absurd m
    field_problems-has f (g ∷ fs) (inl e) h =
        OneOf-append_left (field_problem os g) _ (subst (λ x. OneOf p (field_problem os x)) e h)
    field_problems-has f (g ∷ fs) (inr m) h =
        OneOf-append_right (field_problem os g) _ (field_problems-has f fs m h)

    settled-reports :
        (c : Config) (errs : Problems)
        → OneOf p errs
        → (ps : Problems) × (settled c errs ≡ err ps) × OneOf p ps
    settled-reports c [] m = absurd m
    settled-reports c (e ∷ es) m = (e ∷ es, refl, m)

    -- Load fails where a variable that has to be set is not, or one that is set does not parse, and its
    -- error has the problem of that variable, whatever other problems there are.
    pub load-reports :
        (f : Field)
        → OneOf f all_fields
        → OneOf p (field_problem os f)
        → (ps : Problems) × (load os ≡ err ps) × OneOf p ps
    unfolding load
    load-reports f m h =
        settled-reports (read_config os).0
          (validate_settings os (read_config os).0 (read_config os).1)
          (validate_settings-keeps (read_config os).0 (read_config os).1
            (subst (OneOf p) (sym (read_config-problems os)) (field_problems-has f all_fields m h)))
