-- ===== src/Handlers/Refresh/Stages.antt =====
-- The ways in which Refresh of backend/internal/handlers/auth.go ends.
use flow_cast.Base.{
  refl, Option, Result-cases, Verdict-cases, Text, Option-cases, Uuid, ◌≡◌, inl, inr, false, none,
  some, List, ok,
}
use flow_cast.Http.{Action, Request, status_ok}
use flow_cast.Models.Identity.{User}
use flow_cast.Api.Respond.{write_internal_error}
use flow_cast.Auth.Tokens.Library.{Claims}
use flow_cast.Auth.Tokens.{user_id, parse_refresh}
use flow_cast.Sessions.{revoke, is_revoked}
use flow_cast.Handlers.Env.{StoreError, Env, AuthHandler, Draws, not_found, conflict, other_error}
use flow_cast.Handlers.Cookies.{reject_session, respond_with_session}
use flow_cast.Handlers.Login.{team_of}
use flow_cast.Handlers.Refresh.{
  remaining_life, refuse, rotate, unknown_user, renew, refresh_claims, refresh_with, refresh,
}

module _ (env : Env) (h : AuthHandler) where
  -- A refresh that went all the way: the token was valid and not withdrawn, its user is there, the
  -- token was withdrawn, and a new session was issued to the user as the store has it.
  pub record Rotates (d : Draws) (users : env.users.Users) (db : env.redis.Db) (r : Request)
      (claims : Claims) (token_id : Uuid) (user : User) (db' : env.redis.Db) : Type 0 where
    pub cookie : Text
    pub presented : r.refresh_cookie ≡ some cookie
    pub parsed : parse_refresh env.jwt env.uuid h.tokens d.parsed_at cookie ≡ ok claims
    pub named : env.uuid.parse claims.id ≡ some token_id
    pub live : is_revoked env.redis env.uuid db d.checked_at token_id ≡ some false
    pub owner : Uuid
    pub subject : user_id env.jwt env.uuid claims ≡ some owner
    pub known : env.users.find_by_id users owner ≡ ok user
    pub withdrawn :
        revoke env.redis env.uuid db d.revoked_at token_id (remaining_life claims d.until_at)
        ≡ some db'

  -- Every end of a refresh: refused, with the cookie dropped where there was one; failed, with the
  -- store as it was; or gone all the way.
  pub data Ends (d : Draws) (users : env.users.Users) (db : env.redis.Db) (r : Request)
      : List Action × env.redis.Db → Type 0 where
    no_cookie : r.refresh_cookie ≡ none → Ends d users db r (reject_session env h r, db)
    refused : Ends d users db r (refuse env h r, db)
    broke : Ends d users db r (write_internal_error env.marshal r, db)
    rotated :
        (claims : Claims) (token_id : Uuid) (user : User) (db' : env.redis.Db)
        → Rotates d users db r claims token_id user db'
        → Ends d users db r (respond_with_session env h d r status_ok user (team_of user), db')

  module _ (d : Draws) (users : env.users.Users) (db : env.redis.Db) (r : Request) where
    rotate-Ends :
        (claims : Claims) (token_id : Uuid) (user : User)
        → ((db' : env.redis.Db)
            → revoke env.redis env.uuid db d.revoked_at token_id (remaining_life claims d.until_at)
              ≡ some db'
            → Rotates d users db r claims token_id user db')
        → Ends d users db r (rotate env h d db r claims token_id user)
    unfolding rotate
    rotate-Ends claims token_id user all =
        elim (Option-cases
          (revoke env.redis env.uuid db d.revoked_at token_id (remaining_life claims d.until_at))) [
            | inl failed ↦ rw (failed, rotate) broke
            | inr (db', done) ↦ rw (done, rotate) (rotated claims token_id user db' (all db' done))
          ]

    unknown_user-Ends : (e : StoreError) → Ends d users db r (unknown_user env h db r e)
    unfolding unknown_user
    unknown_user-Ends not_found = refused
    unknown_user-Ends conflict = broke
    unknown_user-Ends other_error = broke

    renew-Ends :
        (claims : Claims) (token_id : Uuid) (cookie : Text)
        → r.refresh_cookie ≡ some cookie
        → parse_refresh env.jwt env.uuid h.tokens d.parsed_at cookie ≡ ok claims
        → env.uuid.parse claims.id ≡ some token_id
        → is_revoked env.redis env.uuid db d.checked_at token_id ≡ some false
        → Ends d users db r (renew env h d users db r claims token_id)
    unfolding renew
    renew-Ends claims token_id cookie c p n l =
        elim (Option-cases (user_id env.jwt env.uuid claims)) [
          | inl nobody ↦ rw (nobody, renew) refused
          | inr (owner, subject) ↦ elim (Result-cases (env.users.find_by_id users owner)) [
            | inl (e, missing) ↦ rw (subject, renew, missing) (unknown_user-Ends e)
            | inr (user, known) ↦
                rw (subject, renew, known)
                  (rotate-Ends claims token_id user (λ db' done. record {
                    cookie = cookie;
                    presented = c;
                    parsed = p;
                    named = n;
                    live = l;
                    owner = owner;
                    subject = subject;
                    known = known;
                    withdrawn = done;
                  }))
          ]
        ]

    refresh_claims-Ends :
        (claims : Claims) (cookie : Text)
        → r.refresh_cookie ≡ some cookie
        → parse_refresh env.jwt env.uuid h.tokens d.parsed_at cookie ≡ ok claims
        → Ends d users db r (refresh_claims env h d users db r claims)
    unfolding refresh_claims
    refresh_claims-Ends claims cookie c p = elim (Option-cases (env.uuid.parse claims.id)) [
      | inl nameless ↦ rw (nameless, refresh_claims) refused
      | inr (token_id, n) ↦
          elim (Verdict-cases (is_revoked env.redis env.uuid db d.checked_at token_id)) [
            | inl failed ↦ rw (n, refresh_claims, failed) broke
            | inr (inl gone) ↦ rw (n, refresh_claims, gone) refused
            | inr (inr l) ↦ rw (n, refresh_claims, l) (renew-Ends claims token_id cookie c p n l)
          ]
    ]

    refresh_with-Ends :
        (o : Option Text)
        → r.refresh_cookie ≡ o
        → Ends d users db r (refresh_with env h d users db r o)
    unfolding refresh_with
    refresh_with-Ends none c = no_cookie c
    refresh_with-Ends (some cookie) c =
        elim (Result-cases (parse_refresh env.jwt env.uuid h.tokens d.parsed_at cookie)) [
          | inl (e, bad) ↦ rw (refresh_with, bad) refused
          | inr (claims, p) ↦ rw (refresh_with, p) (refresh_claims-Ends claims cookie c p)
        ]

    -- Whatever its request and the clock, Refresh refuses, or fails and leaves the store of withdrawn
    -- tokens alone, or has checked the token, withdrawn it and answered with a session for its user.
    pub refresh-Ends : Ends d users db r (refresh env h d users db r)
    unfolding refresh
    refresh-Ends = refresh_with-Ends r.refresh_cookie refl
