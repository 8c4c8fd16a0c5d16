-- ===== src/Handlers/Refresh/Ending.antt =====
-- How Logout of backend/internal/handlers/auth.go ends a session.
use flow_cast.Base.{
  false, ap, ◌∙◌, Time, max_duration, ◌-ℤ◌, ◌≤ℤ◌, Result-cases, ok, Option-cases, Uuid, ℕ, ◌≡◌,
  refl, ◌⊎◌, inl, inr, Option, none, some, [], ◌∷◌, Text,
}
use flow_cast.Api.Respond.{write_json, write_error, write_internal_error}
use flow_cast.Api.Respond.Laws.{write_json-Answers}
use flow_cast.Auth.Tokens.Library.{Claims}
use flow_cast.Handlers.Cookies.{reject_session, cleared_cookie, clear_refresh_cookie}
use flow_cast.Handlers.Env.{Env, AuthHandler, Draws}
use flow_cast.Handlers.Refresh.{
  Reply, refuse, logout_with, logout, remaining_life, no_content, withdraw,
}
use flow_cast.Http.{
  is_informational, add_cookie, Sent, fresh_writer, perform, perform_all, finish, response, Request,
}
use flow_cast.Sessions.{revoke}
use flow_cast.Api.Payload.{Payload}
use flow_cast.Auth.Tokens.{parse_refresh}
use flow_cast.Handlers.Refresh.Remaining.{remaining_life-IsWithdrawn}
use flow_cast.Sessions.Revocation.{IsWithdrawn}

-- A response that carries one cookie, the cleared one.
abbrev pub ClearsCookie : AuthHandler → Option Sent → Type 0
ClearsCookie h o = (s : Sent) × (o ≡ some s) × (s.cookies ≡ cleared_cookie h ∷ [])

module _ (env : Env) (h : AuthHandler) where
  no_content-ClearsCookie : ClearsCookie h (response (no_content env h))
  unfolding response perform_all finish clear_refresh_cookie
  no_content-ClearsCookie = (_, refl, refl)

  -- After the cookie is dropped, an error answers with the cleared cookie.
  pub write_json-ClearsCookie :
      (r : Request) (status : ℕ) (payload : Payload)
      → is_informational status ≡ false
      → ClearsCookie h (response (clear_refresh_cookie h ∷ write_json env.marshal r status payload))
  unfolding response clear_refresh_cookie perform_all perform
  write_json-ClearsCookie r status payload final =
      let (s, e, cookies, _) =
        write_json-Answers env.marshal (perform fresh_writer (add_cookie (cleared_cookie h))) r
          status payload final refl in
      (s, e, cookies)

  internal_error-ClearsCookie :
      (r : Request)
      → ClearsCookie h (response (clear_refresh_cookie h ∷ write_internal_error env.marshal r))
  unfolding write_internal_error write_error
  internal_error-ClearsCookie r = write_json-ClearsCookie r _ _ refl

  -- What withdraw leaves.
  data Withdraws (d : Draws) (db : env.redis.Db) (r : Request) (claims : Claims) (id : Uuid)
      : Reply env h → Type 0 where
    gone :
        (db' : env.redis.Db)
        → revoke env.redis env.uuid db d.revoked_at id (remaining_life claims d.until_at) ≡ some db'
        → Withdraws d db r claims id (no_content env h, db')
    kept :
        Withdraws d db r claims id (clear_refresh_cookie h ∷ write_internal_error env.marshal r, db)

  withdraw-Withdraws :
      (d : Draws) (db : env.redis.Db) (r : Request) (claims : Claims) (id : Uuid)
      → env.uuid.parse claims.id ≡ some id
      → Withdraws d db r claims id (withdraw env h d db r claims)
  unfolding withdraw
  withdraw-Withdraws d db r claims id n =
      elim (Option-cases
        (revoke env.redis env.uuid db d.revoked_at id (remaining_life claims d.until_at))) [
          | inl e ↦ rw (n, withdraw, e) kept
          | inr (db', e) ↦ rw (n, withdraw, e) (gone db' e)
        ]

  logout-withdraw :
      (d : Draws) (db : env.redis.Db) (r : Request) (cookie : Text) (claims : Claims)
      → r.refresh_cookie ≡ some cookie
      → parse_refresh env.jwt env.uuid h.tokens d.parsed_at cookie ≡ ok claims
      → logout env h d db r ≡ withdraw env h d db r claims
  unfolding logout logout_with
  logout-withdraw d db r cookie claims c p =
      let good : logout_with env h d db r (some cookie) ≡ withdraw env h d db r claims =
        rw (logout_with, p) in
      ap (logout_with env h d db r) c ∙ good

  withdraw-ClearsCookie :
      (d : Draws) (db : env.redis.Db) (r : Request) (claims : Claims)
      → ClearsCookie h (response (withdraw env h d db r claims).0)
  unfolding withdraw
  withdraw-ClearsCookie d db r claims = elim (Option-cases (env.uuid.parse claims.id)) [
    | inl nameless ↦ rw (nameless, withdraw) no_content-ClearsCookie
    | inr (id, n) ↦
        elim (Option-cases
          (revoke env.redis env.uuid db d.revoked_at id (remaining_life claims d.until_at))) [
            | inl e ↦ rw (n, withdraw, e) (internal_error-ClearsCookie r)
            | inr (db', e) ↦ rw (n, withdraw, e) no_content-ClearsCookie
          ]
  ]

  logout_with-ClearsCookie :
      (d : Draws) (db : env.redis.Db) (r : Request) (o : Option Text)
      → ClearsCookie h (response (logout_with env h d db r o).0)
  unfolding logout_with
  logout_with-ClearsCookie d db r none = no_content-ClearsCookie
  logout_with-ClearsCookie d db r (some cookie) =
      elim (Result-cases (parse_refresh env.jwt env.uuid h.tokens d.parsed_at cookie)) [
        | inl (e, bad) ↦ rw (logout_with, bad) no_content-ClearsCookie
        | inr (claims, p) ↦ rw (logout_with, p) (withdraw-ClearsCookie d db r claims)
      ]

-- Whatever cookie Logout is given and whatever fails, its response carries one cookie: the refresh
-- cookie with no value and a negative age, for the same path.
pub logout-ClearsCookie :
    (env : Env) (h : AuthHandler) (d : Draws) (db : env.redis.Db) (r : Request)
    → ClearsCookie h (response (logout env h d db r).0)
unfolding logout
logout-ClearsCookie env h d db r = logout_with-ClearsCookie env h d db r r.refresh_cookie

-- After a Logout with a good refresh token, either the response has no content and the token is
-- withdrawn until it expires, or the store is as it was and the response is an internal error behind
-- the cleared cookie. The clock is read for the remaining life before the write, and that life is below
-- the 292 years of a Duration.
pub logout-withdraws :
    (env : Env) (h : AuthHandler) (d : Draws) (db : env.redis.Db) (r : Request) (cookie : Text)
    (claims : Claims) (token_id : Uuid) (expiry : Time)
    → r.refresh_cookie ≡ some cookie
    → parse_refresh env.jwt env.uuid h.tokens d.parsed_at cookie ≡ ok claims
    → env.uuid.parse claims.id ≡ some token_id
    → claims.expires_at ≡ some expiry
    → d.until_at ≤ℤ d.revoked_at
    → (expiry -ℤ d.until_at) ≤ℤ max_duration
    → ((db' : env.redis.Db) × (logout env h d db r ≡ (no_content env h, db'))
        × IsWithdrawn env.redis env.uuid db' token_id d.revoked_at expiry)
      ⊎ (logout env h d db r ≡ (clear_refresh_cookie h ∷ write_internal_error env.marshal r, db))
logout-withdraws env h d db r cookie claims token_id expiry c p n dated ordered fits =
    closed (withdraw env h d db r claims) (logout-withdraw env h d db r cookie claims c p)
      (withdraw-Withdraws env h d db r claims token_id n)
  where
    closed :
        (reply : Reply env h)
        → logout env h d db r ≡ reply
        → Withdraws env h d db r claims token_id reply
        → ((db' : env.redis.Db) × (logout env h d db r ≡ (no_content env h, db'))
            × IsWithdrawn env.redis env.uuid db' token_id d.revoked_at expiry)
          ⊎ (logout env h d db r
              ≡ (clear_refresh_cookie h ∷ write_internal_error env.marshal r, db))
    closed _ e (gone db' done) = inl (
      db',
      e,
      remaining_life-IsWithdrawn env.redis env.uuid db db' d.until_at d.revoked_at token_id claims
          expiry dated ordered fits done,
    )
    closed _ e kept = inr e

-- A session that Refresh refuses is told so with the cleared cookie alone, and no new one.
pub refuse-ClearsCookie :
    (env : Env) (h : AuthHandler) (r : Request) → ClearsCookie h (response (refuse env h r))
unfolding refuse reject_session write_error
refuse-ClearsCookie env h r = write_json-ClearsCookie env h r _ _ refl
