-- ===== src/Handlers/Refresh/Rotation.antt =====
-- A refresh token and the sessions it is exchanged for (backend/internal/handlers/auth.go).
use flow_cast.Base.{
  max_duration, sym, subst, Time, Duration, ◌-ℤ◌, ◌≤ℤ◌, ◌<ℤ◌, Uuid, ◌≡◌, refl, ◌∙◌, ◌≢◌, ◌⊎◌, inl,
  inr, false, some, ok, Text,
}
use flow_cast.Api.Respond.{write_internal_error}
use flow_cast.Auth.Tokens.{token_refresh, parser_options, parse_refresh}
use flow_cast.Auth.Tokens.Library.{Claims}
use flow_cast.Auth.Tokens.Parsing.{parse_token-ok}
use flow_cast.Handlers.Env.{Env, AuthHandler, Draws}
use flow_cast.Handlers.Refresh.{Reply, refuse, refresh}
use flow_cast.Handlers.Refresh.Stages.{
  Rotates, Ends, no_cookie, refused, broke, rotated, refresh-Ends,
}
use flow_cast.Http.{Request}
use flow_cast.Models.Identity.{User}
use flow_cast.Sessions.{revoke, is_revoked}
use flow_cast.Sessions.Revocation.{IsWithdrawn, IsWithdrawn-revoke}
use flow_cast.Handlers.Refresh.Remaining.{remaining_life-IsWithdrawn}

module _ (env : Env) (h : AuthHandler) where
  -- The stores that follow by revoking other tokens than `id`.
  pub data Revocations (id : Uuid) : env.redis.Db → env.redis.Db → Type 0 where
    nothing : {db : env.redis.Db} → Revocations id db db
    also :
        {db db' db'' : env.redis.Db} (now : Time) (other : Uuid) (ttl : Duration)
        → other ≢ id
        → revoke env.redis env.uuid db now other ttl ≡ some db'
        → Revocations id db' db''
        → Revocations id db db''

  Revocations-IsWithdrawn :
      (id : Uuid) (since expiry : Time) {db db'' : env.redis.Db}
      → Revocations id db db''
      → IsWithdrawn env.redis env.uuid db id since expiry
      → IsWithdrawn env.redis env.uuid db'' id since expiry
  Revocations-IsWithdrawn id since expiry nothing w = w
  Revocations-IsWithdrawn id since expiry {db} (also {db' = db'} now other ttl ne e rest) w =
      Revocations-IsWithdrawn id since expiry rest
        (IsWithdrawn-revoke env.redis env.uuid db db' now id other ttl since expiry ne e w)

  -- What a request is told about a token that is not good, with the store as it was.
  abbrev pub Rebuffed : env.redis.Db → Request → Reply env h → Type 0
  Rebuffed db r reply =
      (reply ≡ (refuse env h r, db)) ⊎ (reply ≡ (write_internal_error env.marshal r, db))

  -- Two parses of one cookie give the same claims.
  parse_refresh-same :
      (t t' : Time) (cookie : Text) (c c' : Claims)
      → parse_refresh env.jwt env.uuid h.tokens t cookie ≡ ok c
      → parse_refresh env.jwt env.uuid h.tokens t' cookie ≡ ok c'
      → c ≡ c'
  unfolding parse_refresh
  parse_refresh-same t t' cookie c c' p p' =
      env.jwt.valid_same (parser_options t) t' h.tokens.secret cookie c c'
        (parse_token-ok env.jwt env.uuid h.tokens t cookie token_refresh c p).0
        (parse_token-ok env.jwt env.uuid h.tokens t' cookie token_refresh c' p').0

  Ends-Rebuffed :
      (d : Draws) (users : env.users.Users) (db : env.redis.Db) (r : Request) (reply : Reply env h)
      (t : Time) (cookie : Text) (claims : Claims) (token_id : Uuid)
      → r.refresh_cookie ≡ some cookie
      → parse_refresh env.jwt env.uuid h.tokens t cookie ≡ ok claims
      → env.uuid.parse claims.id ≡ some token_id
      → is_revoked env.redis env.uuid db d.checked_at token_id ≢ some false
      → Ends env h d users db r reply
      → Rebuffed db r reply
  Ends-Rebuffed d users db r _ t cookie claims token_id c p n gone (no_cookie e) = cc
  Ends-Rebuffed d users db r _ t cookie claims token_id c p n gone refused = inl refl
  Ends-Rebuffed d users db r _ t cookie claims token_id c p n gone broke = inr refl
  Ends-Rebuffed d users db r _ t cookie claims token_id c p n gone
        (rotated claims' id' user db' m) =
      let same_cookie : m.cookie ≡ cookie = cc (c, m.presented) in
      let parsed' =
        subst (λ x. parse_refresh env.jwt env.uuid h.tokens d.parsed_at x ≡ ok claims') same_cookie
          m.parsed in
      let same_claims = parse_refresh-same t d.parsed_at cookie claims claims' p parsed' in
      let same_id : token_id ≡ id' = cc (n, m.named, same_claims) in
      absurd (
        gone (
          subst (λ x. is_revoked env.redis env.uuid db d.checked_at x ≡ some false) (sym same_id)
            m.live))

-- A refresh that went through, and a later request with its cookie.
used_once :
    (env : Env) (h : AuthHandler) (d d' : Draws) (users users' : env.users.Users)
    (db db' later : env.redis.Db) (r r' : Request) (claims : Claims) (token_id : Uuid) (user : User)
    (expiry : Time)
    → Rotates env h d users db r claims token_id user db'
    → claims.expires_at ≡ some expiry
    → d.until_at ≤ℤ d.revoked_at
    → (expiry -ℤ d.until_at) ≤ℤ max_duration
    → Revocations env h token_id db' later
    → r'.refresh_cookie ≡ r.refresh_cookie
    → d.revoked_at ≤ℤ d'.checked_at
    → d'.checked_at <ℤ expiry
    → Rebuffed env h later r' (refresh env h d' users' later r')
used_once env h d d' users users' db db' later r r' claims token_id user expiry m dated ordered fits
      since repeated after before =
    let w =
      remaining_life-IsWithdrawn env.redis env.uuid db db' d.until_at d.revoked_at token_id claims
        expiry dated ordered fits m.withdrawn in
    Ends-Rebuffed env h d' users' later r' _ d.parsed_at m.cookie claims token_id
      (repeated ∙ m.presented) m.parsed m.named
      (Revocations-IsWithdrawn env h token_id d.revoked_at expiry since w d'.checked_at after
        before)
      (refresh-Ends env h d' users' later r')

module _ (env : Env) (h : AuthHandler) (d d' : Draws) (users users' : env.users.Users)
    (db later : env.redis.Db) (r r' : Request) (cookie : Text) (claims : Claims) (token_id : Uuid)
    (expiry : Time) (sent : r.refresh_cookie ≡ some cookie)
    (parsed : parse_refresh env.jwt env.uuid h.tokens d.parsed_at cookie ≡ ok claims)
    (named : env.uuid.parse claims.id ≡ some token_id) (dated : claims.expires_at ≡ some expiry)
    (ordered : d.until_at ≤ℤ d.revoked_at) (fits : (expiry -ℤ d.until_at) ≤ℤ max_duration)
    (repeated : r'.refresh_cookie ≡ r.refresh_cookie) (after : d.revoked_at ≤ℤ d'.checked_at)
    (before : d'.checked_at <ℤ expiry) where
  second_of_two :
      (reply : Reply env h)
      → Ends env h d users db r reply
      → Revocations env h token_id reply.1 later
      → Rebuffed env h db r reply ⊎ Rebuffed env h later r' (refresh env h d' users' later r')
  second_of_two _ (no_cookie e) since = cc (e, sent)
  second_of_two _ refused since = inl (inl refl)
  second_of_two _ broke since = inl (inr refl)
  second_of_two _ (rotated claims' id' user db' m) since =
      let same_cookie : m.cookie ≡ cookie = cc (sent, m.presented) in
      let parsed' =
        subst (λ x. parse_refresh env.jwt env.uuid h.tokens d.parsed_at x ≡ ok claims') same_cookie
          m.parsed in
      let same_claims : claims ≡ claims' = cc (parsed, parsed') in
      let same_id : token_id ≡ id' = cc (named, m.named, same_claims) in
      inr (
        used_once env h d d' users users' db db' later r r' claims' id' user expiry m
          (cc (dated, same_claims)) ordered fits
          (subst (λ i. Revocations env h i db' later) same_id since) repeated after before)

  -- Of two requests with one refresh token, the second after the first, at most one gets a session:
  -- the first or the second is refused with its cookie dropped, or fails and leaves the store alone,
  -- whatever other tokens have been revoked between them and whatever the users are by then. The
  -- second comes before the token expires. The first reads the clock for the remaining life before it
  -- writes, and that life is below the 292 years of a Duration.
  pub refresh-single_use :
      Revocations env h token_id (refresh env h d users db r).1 later
      → Rebuffed env h db r (refresh env h d users db r)
        ⊎ Rebuffed env h later r' (refresh env h d' users' later r')
  refresh-single_use since =
      second_of_two (refresh env h d users db r) (refresh-Ends env h d users db r) since
