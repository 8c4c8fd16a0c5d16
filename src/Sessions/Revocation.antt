-- ===== src/Sessions/Revocation.antt =====
-- How long a token stays withdrawn (backend/internal/queue/sessions.go).
use flow_cast.Base.{
  leb_ℤ, Bool-cases, subst, inl, inr, bytes, time_add, int_laws, pos, Text, Time, Duration, before,
  ◌-ℤ◌, ◌≤ℤ◌, ◌<ℤ◌, Uuid, ◌≡◌, sym, ap, ◌≢◌, ◌↔◌, false, some, [], ◌∷◌, ◌++◌, arith,
}
use flow_cast.Auth.Tokens.Library.{UuidLib}
use mathlib.Core.List.{tail}
use flow_cast.Sessions.{RedisLib, nil_reply, revoked_key_prefix, revoked_key, revoke, is_revoked}

append-left-injective : (p s t : Text) → p ++ s ≡ p ++ t → s ≡ t
append-left-injective [] s t e = e
append-left-injective (b ∷ p) s t e = append-left-injective p s t (ap tail e)

module _ (redis : RedisLib) (uuid : UuidLib) where
  revoked_key-injective : (a b : Uuid) → revoked_key redis uuid a ≡ revoked_key redis uuid b → a ≡ b
  unfolding revoked_key
  revoked_key-injective a b e =
      let same = append-left-injective revoked_key_prefix _ _ e in
      cc (uuid.parse-to_string a, uuid.parse-to_string b, ap uuid.parse same)

  -- From `since` until `expiry` no read says that the token is still good.
  abbrev pub IsWithdrawn : redis.Db → Uuid → Time → Time → Type 0
  IsWithdrawn db id since expiry =
      (later : Time)
      → since ≤ℤ later
      → later <ℤ expiry
      → is_revoked redis uuid db later id ≢ some false

  is_revoked-ne-false :
      (db : redis.Db) (later : Time) (id : Uuid)
      → (is_revoked redis uuid db later id ≢ some false)
        ↔ (redis.get db later (revoked_key redis uuid id) ≢ nil_reply)
  unfolding is_revoked
  is_revoked-ne-false db later id = ground arith

  revoke-set :
      (db db' : redis.Db) (now : Time) (id : Uuid) (ttl : Duration)
      → pos 0 <ℤ ttl
      → revoke redis uuid db now id ttl ≡ some db'
      → redis.set db now (revoked_key redis uuid id) (bytes "1") ttl ≡ some db'
  unfolding revoke
  revoke-set db db' now id ttl h e = ground arith

  -- Revoke for the remaining life of a token, read at or before the time of the write, withdraws it.
  pub revoke-IsWithdrawn :
      (db db' : redis.Db) (read now : Time) (id : Uuid) (expiry : Time)
      → read ≤ℤ now
      → revoke redis uuid db now id (expiry -ℤ read) ≡ some db'
      → IsWithdrawn db' id now expiry
  revoke-IsWithdrawn db db' read now id expiry h e later since before =
      let lasts : later <ℤ time_add now (expiry -ℤ read) = omega int_laws in
      let positive : pos 0 <ℤ (expiry -ℤ read) = omega int_laws in
      (is_revoked-ne-false db' later id).1 (
        redis.get-set db now later _ _ (expiry -ℤ read) db' (revoke-set db db' now id _ positive e)
          since lasts)

  get-revoke :
      (db db' : redis.Db) (now later : Time) (id other : Uuid) (ttl : Duration)
      → other ≢ id
      → revoke redis uuid db now other ttl ≡ some db'
      → redis.get db later (revoked_key redis uuid id) ≢ nil_reply
      → redis.get db' later (revoked_key redis uuid id) ≢ nil_reply
  unfolding revoke
  get-revoke db db' now later id other ttl ne e h = elim (Bool-cases (leb_ℤ ttl (pos 0))) [
    | inl over ↦
        let same : db ≡ db' = ground arith in
        subst (λ d. redis.get d later (revoked_key redis uuid id) ≢ nil_reply) same h
    | inr lasts ↦
        redis.get-set_ne db now later (revoked_key redis uuid other) (revoked_key redis uuid id) _
          ttl db' (rw lasts at e) (λ p. ne (sym (revoked_key-injective id other p))) h
  ]

  -- The revocation of another token leaves it withdrawn.
  pub IsWithdrawn-revoke :
      (db db' : redis.Db) (now : Time) (id other : Uuid) (ttl : Duration) (since expiry : Time)
      → other ≢ id
      → revoke redis uuid db now other ttl ≡ some db'
      → IsWithdrawn db id since expiry
      → IsWithdrawn db' id since expiry
  IsWithdrawn-revoke db db' now id other ttl since expiry ne e w later after before =
      (is_revoked-ne-false db' later id).1 (
        get-revoke db db' now later id other ttl ne e
          ((is_revoked-ne-false db later id).0 (w later after before)))
