-- ===== src/Startup/Running/Closing.antt =====
-- What the program of backend/cmd/server/main.go leaves open, and when it serves.
use flow_cast.Base.{
  Text, Duration, Result-cases, Option-cases, Result, if◌then◌else◌, Bool-cases, ◌≡◌, refl, sym, ap,
  ◌∙◌, subst, inl, inr, Bool, true, false, Option, none, some, List, [], ◌∷◌, ◌++◌, arith, ok, err,
}
use flow_cast.Startup.Running.{
  with_dot_env, connecting_database, connecting_redis, start_server, with_hasher, with_redis,
  with_schema, with_database, with_config, load_config, RunError, deferring, connected, World, Run,
  run,
}
use flow_cast.Startup.Connecting.{
  invalid_string, PoolConfig, pool_config, open_pool, connect_redis, verify_embedding_dimensions,
  ConnectError, ParseDsn, after_wait, connect_database, Resource, ResourceEvent, opened, closed,
  database, redis_client,
}
use flow_cast.Startup.Waiting.{Pings, Waited, reached, unreachable}
use flow_cast.Config.Types.{RedisConfig, Config, DatabaseConfig}
use flow_cast.Auth.Password.{Hasher, new_hasher}
use flow_cast.Auth.Tokens.{new_tokens}
use flow_cast.Config.Validating.{load}
use flow_cast.Migrations.Files.{migrate}
use flow_cast.Config.DotEnv.{
  DiskPath, DotEnvError, no_working_directory, no_dot_env, checking, loading, load_dot_env,
}

-- The resources that are open after some events, the last one in front; none where one is closed that
-- is not the last.
abbrev same_resource : Resource → Resource → Bool
same_resource database database = true
same_resource redis_client redis_client = true
same_resource database redis_client = false
same_resource redis_client database = false

abbrev pub replay : List Resource → List ResourceEvent → Option (List Resource)
replay open_ones' [] = some open_ones'
replay open_ones' (opened r ∷ es) = replay (r ∷ open_ones') es
replay [] (closed r ∷ es) = none
replay (s ∷ open_ones') (closed r ∷ es) =
    let rest = replay open_ones' es in if same_resource s r then rest else none

abbrev Balanced : List ResourceEvent → Type 0
Balanced es = (before_them : List Resource) → replay before_them es ≡ some before_them

replay-append :
    (es fs : List ResourceEvent) (before_them after_them : List Resource)
    → replay before_them es ≡ some after_them
    → replay before_them (es ++ fs) ≡ replay after_them fs
replay-append [] fs before_them after_them h = ap (λ x. replay x fs) (cc h)
replay-append (opened r ∷ es) fs before_them after_them h =
    replay-append es fs (r ∷ before_them) after_them h
replay-append (closed r ∷ es) fs [] after_them h = cc h
replay-append (closed r ∷ es) fs (s ∷ before_them) after_them h =
    elim (Bool-cases (same_resource s r)) [
      | inl last_one ↦ rw last_one (replay-append es fs before_them after_them (rw last_one at h))
      | inr another ↦ absurd (ground arith)
    ]

closed_last :
    (r : Resource) (before_them : List Resource)
    → replay (r ∷ before_them) (closed r ∷ []) ≡ some before_them
closed_last database before_them = refl
closed_last redis_client before_them = refl

Balanced-deferring :
    (r : Resource) (es : List ResourceEvent)
    → Balanced es
    → Balanced (opened r ∷ (es ++ closed r ∷ []))
Balanced-deferring r es h before_them =
    replay-append es (closed r ∷ []) (r ∷ before_them) (r ∷ before_them) (h (r ∷ before_them))
    ∙ closed_last r before_them

-- A connection is open where it succeeds, and closed again or never opened where it fails.
abbrev Connects : Resource → Result ConnectError (Unit {0}) × List ResourceEvent → Type 0
Connects r (err e, es) = Balanced es
Connects r (ok _, es) = es ≡ opened r ∷ []

after_wait-Connects : (r : Resource) (o : Option Waited) → Connects r (after_wait r o)
unfolding after_wait
after_wait-Connects r (some (reached n)) = refl
after_wait-Connects r (some (unreachable n)) = closed_last r
after_wait-Connects r none = closed_last r

open_pool-Connects :
    (made : Bool) (pings : Pings) (timeout : Duration) (pool : Result ConnectError PoolConfig)
    → Connects database (open_pool made pings timeout pool)
unfolding open_pool
open_pool-Connects made pings timeout (err e) = λ _. refl
open_pool-Connects true pings timeout (ok pool) = after_wait-Connects database _
open_pool-Connects false pings timeout (ok pool) = λ _. refl

connect_database-Connects :
    (parse_dsn : ParseDsn) (made : Bool) (pings : Pings) (cfg : DatabaseConfig)
    → Connects database (connect_database parse_dsn made pings cfg)
unfolding connect_database
connect_database-Connects parse_dsn made pings cfg =
    open_pool-Connects made pings cfg.connect_timeout (pool_config parse_dsn cfg)

if_parsed :
    (b : Bool) (x : Result ConnectError (Unit {0}) × List ResourceEvent)
    → Connects redis_client x
    → Connects redis_client (if b then x else (err invalid_string, []))
if_parsed true x h = h
if_parsed false x h = λ _. refl

connect_redis-Connects :
    (parses : Text → Bool) (pings : Pings) (cfg : RedisConfig)
    → Connects redis_client (connect_redis parses pings cfg)
unfolding connect_redis
connect_redis-Connects parses pings cfg =
    if_parsed (parses cfg.url) _ (after_wait-Connects redis_client _)

connected-Balanced :
    (r : Resource) (as_error : ConnectError → RunError)
    (connection : Result ConnectError (Unit {0}) × List ResourceEvent) (body : Run)
    → Connects r connection
    → Balanced body.events
    → Balanced (connected r as_error connection body).events
unfolding connected deferring
connected-Balanced r as_error (err e, es) body h k = h
connected-Balanced r as_error (ok _, es) body h k =
    subst (λ x. Balanced (x ++ (body.events ++ closed r ∷ []))) (sym h)
      (Balanced-deferring r body.events k)

module _ (w : World) where
  with_hasher-Balanced :
      (cfg : Config) (hasher : Hasher) → Balanced (with_hasher w cfg hasher).events
  unfolding with_hasher
  with_hasher-Balanced cfg hasher before_them = elim (Result-cases (new_tokens cfg.auth)) [
    | inl (e, h) ↦ rw (h, with_hasher) refl
    | inr (tokens, h) ↦ rw (h, with_hasher, start_server) refl
  ]

  with_redis-Balanced : (cfg : Config) → Balanced (with_redis w cfg).events
  unfolding with_redis
  with_redis-Balanced cfg before_them =
      elim (Result-cases (new_hasher w.bcrypt w.salt cfg.auth.bcrypt_cost)) [
        | inl (e, h) ↦ rw (h, with_redis) refl
        | inr (hasher, h) ↦ rw (h, with_redis) (with_hasher-Balanced cfg hasher before_them)
      ]

  with_schema-Balanced : (cfg : Config) → Balanced (with_schema w cfg).events
  unfolding with_schema
  with_schema-Balanced cfg before_them =
      elim (Option-cases (verify_embedding_dimensions w.width cfg.ai.embedding_dimensions)) [
        | inr (e, h) ↦ rw (h, with_schema) refl
        | inl h ↦
            rw (h, with_schema)
              (connected-Balanced redis_client connecting_redis
                (connect_redis w.redis_parses w.redis_pings cfg.redis) (with_redis w cfg)
                (connect_redis-Connects w.redis_parses w.redis_pings cfg.redis)
                (with_redis-Balanced cfg) before_them)
      ]

  with_database-Balanced : (cfg : Config) → Balanced (with_database w cfg).events
  unfolding with_database
  with_database-Balanced cfg before_them =
      elim (Result-cases (migrate w.server w.files w.faults w.readiness w.session).0) [
        | inl (e, h) ↦ rw (h, with_database) refl
        | inr (applied, h) ↦ rw (h, with_database) (with_schema-Balanced cfg before_them)
      ]

  with_config-Balanced : (cfg : Config) → Balanced (with_config w cfg).events
  unfolding with_config
  with_config-Balanced cfg =
      connected-Balanced database connecting_database
        (connect_database w.parse_dsn w.pool_made w.database_pings cfg.database)
        (with_database w cfg)
        (connect_database-Connects w.parse_dsn w.pool_made w.database_pings cfg.database)
        (with_database-Balanced cfg)

  load_config-Balanced : Balanced (load_config w).events
  unfolding load_config
  load_config-Balanced before_them = elim (Result-cases (load w.os)) [
    | inl (problems, h) ↦ rw (h, load_config) refl
    | inr (cfg, h) ↦ rw (h, load_config) (with_config-Balanced cfg before_them)
  ]

  with_dot_env-Balanced :
      (found_file : Result DotEnvError DiskPath) → Balanced (with_dot_env w found_file).events
  unfolding with_dot_env
  with_dot_env-Balanced (ok path) = load_config-Balanced
  with_dot_env-Balanced (err no_dot_env) = load_config-Balanced
  with_dot_env-Balanced (err no_working_directory) = λ _. refl
  with_dot_env-Balanced (err (checking path)) = λ _. refl
  with_dot_env-Balanced (err (loading path)) = λ _. refl

-- However the program ends, on each of its errors or after it has served, every connection that it
-- opened is closed, the last one first, and nothing else is closed.
pub run-closes : (w : World) → replay [] (run w).events ≡ some []
unfolding run
run-closes w = with_dot_env-Balanced w (load_dot_env w.disk) []
