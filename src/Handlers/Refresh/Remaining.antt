-- ===== src/Handlers/Refresh/Remaining.antt =====
-- The life of a revocation beside that of its token (backend/internal/handlers/auth.go).
use flow_cast.Base.{
  Time, before, max_duration, time_sub, ◌-ℤ◌, ◌≤ℤ◌, ◌<ℤ◌, int_laws, Uuid, ◌≡◌, some,
}
use flow_cast.Auth.Tokens.Library.{Claims, UuidLib}
use flow_cast.Handlers.Refresh.{remaining_life}
use flow_cast.Sessions.{RedisLib, revoke}
use flow_cast.Sessions.Revocation.{IsWithdrawn, revoke-IsWithdrawn}

-- A duration that is positive and fits is not cut.
time_sub-fits : (t u : Time) → u <ℤ t → (t -ℤ u) ≤ℤ max_duration → time_sub t u ≡ t -ℤ u
unfolding time_sub
time_sub-fits t u h k = grind int_laws

pub remaining_life-IsWithdrawn :
    (redis : RedisLib) (uuid : UuidLib) (db db' : redis.Db) (read now : Time) (id : Uuid)
    (claims : Claims) (expiry : Time)
    → claims.expires_at ≡ some expiry
    → read ≤ℤ now
    → (expiry -ℤ read) ≤ℤ max_duration
    → revoke redis uuid db now id (remaining_life claims read) ≡ some db'
    → IsWithdrawn redis uuid db' id now expiry
unfolding remaining_life
remaining_life-IsWithdrawn redis uuid db db' read now id claims expiry dated ordered fits done later
      since before =
    let left : remaining_life claims read ≡ expiry -ℤ read =
      rw (dated, time_sub-fits expiry read (omega int_laws) fits) in
    revoke-IsWithdrawn redis uuid db db' read now id expiry ordered (rw left at done) later since
      before
