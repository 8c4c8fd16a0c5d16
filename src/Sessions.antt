-- ===== src/Sessions.antt =====
-- backend/internal/queue/sessions.go: the store of withdrawn refresh tokens. The Redis server and its
-- client are a parameter; the clock is the server's.
pub mod Revocation
use flow_cast.Base.{
  ◌≤ℤ◌, Text, bytes, Time, Duration, time_add, ◌<ℤ◌, leb_ℤ, if◌then◌else◌, Uuid, ◌≡◌, ◌≢◌, Bool,
  true, false, Option, none, some, ◌++◌, pos,
}
use flow_cast.Auth.Tokens.Library.{UuidLib}

-- What Get answers: a value, redis.Nil, or another error.
pub data Lookup : Type 0 where
  found nil_reply failed : Lookup

-- Set with a lifetime gives none where it fails. A key that was set is there until its lifetime is
-- over, and setting one key leaves the others alone. A read may fail at any time.
pub record RedisLib : Type 1 where
  pub Db : Type 0
  pub set : Db → Time → Text → Text → Duration → Option Db
  pub get : Db → Time → Text → Lookup
  pub get-set :
      (db : Db) (now later : Time) (key value : Text) (ttl : Duration) (db' : Db)
      → set db now key value ttl ≡ some db'
      → now ≤ℤ later
      → later <ℤ time_add now ttl
      → get db' later key ≢ nil_reply
  pub get-set_ne :
      (db : Db) (now later : Time) (key other value : Text) (ttl : Duration) (db' : Db)
      → set db now key value ttl ≡ some db'
      → other ≢ key
      → get db later other ≢ nil_reply
      → get db' later other ≢ nil_reply

abbrev pub revoked_key_prefix : Text
revoked_key_prefix = bytes "flowcast:auth:revoked:"

module _ (redis : RedisLib) (uuid : UuidLib) where
  unfoldable pub revoked_key : Uuid → Text
  revoked_key token_id = revoked_key_prefix ++ uuid.to_string token_id

  -- Revoke: the new store, or none for an error.
  unfoldable pub revoke : redis.Db → Time → Uuid → Duration → Option redis.Db
  unfolding revoked_key
  revoke db now token_id ttl =
      if leb_ℤ ttl (pos 0) then some db else redis.set db now (revoked_key token_id) (bytes "1") ttl

  -- IsRevoked: none is an error.
  unfoldable pub is_revoked : redis.Db → Time → Uuid → Option Bool
  unfolding revoked_key
  is_revoked db now token_id = elim (redis.get db now (revoked_key token_id)) [
    | found ↦ some true
    | nil_reply ↦ some false
    | failed ↦ none
  ]
