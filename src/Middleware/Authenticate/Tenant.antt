-- ===== src/Middleware/Authenticate/Tenant.antt =====
-- Whom a handler behind Authenticate of backend/internal/middleware/auth.go acts for.
use flow_cast.Base.{
  ◌≢◌, none, err, bytes, Time, ◌≤ℤ◌, ◌<ℤ◌, Result-cases, Option-cases, Uuid, ◌≡◌, refl, inl, inr,
  Option, some, List, ok, Text,
}
use flow_cast.Api.Ids.{context_with_identity}
use flow_cast.Api.Payload.{code_token_expired, code_unauthorized, Payload}
use flow_cast.Auth.Tokens.{
  new_claims, token_access, TokenError, token_invalid, token_expired, wrong_token_kind, TokenPair,
  Tokens, user_id, issue_pair, parse_access,
}
use flow_cast.Auth.Tokens.Kinds.{issue_pair-access, issue_pair-kinds}
use flow_cast.Auth.Tokens.Library.{Claims, JwtLib, UuidLib}
use flow_cast.Auth.Tokens.Parsing.{IsTrusted, parse_access-IsTrusted}
use flow_cast.Http.{Action, Identity, Request}
use flow_cast.Middleware.Authenticate.{
  required, bearer_token, unauthorized, with_claims, rejected_token, with_token, authenticate,
}

-- A request that carries a good access token, and the caller that it names.
pub record IsCaller (jwt : JwtLib) (uuid : UuidLib) (tokens : Tokens) (now : Time) (r : Request)
    (caller : Identity) : Type 0 where
  pub raw : Text
  pub carried : bearer_token r ≡ some raw
  pub claims : Claims
  pub parsed : parse_access jwt uuid tokens now raw ≡ ok claims
  pub trusted : IsTrusted uuid now token_access claims
  pub user : uuid.parse claims.subject ≡ some caller.user_id
  pub team : claims.team_id ≡ caller.team_id

-- Every end of an authenticated route.
pub data AuthEnds (jwt : JwtLib) (uuid : UuidLib) (marshal : Payload → Option Text)
    (tokens : Tokens) (next : Request → List Action) (now : Time) (r : Request)
    : List Action → Type 0 where
  without_token :
      bearer_token r ≡ none
      → AuthEnds jwt uuid marshal tokens next now r (required jwt uuid marshal tokens next r)
  too_late :
      (raw : Text)
      → bearer_token r ≡ some raw
      → parse_access jwt uuid tokens now raw ≡ err token_expired
      → AuthEnds jwt uuid marshal tokens next now r
          (unauthorized marshal r code_token_expired (bytes "Your access token has expired."))
  refused :
      (raw : Text) (e : TokenError)
      → bearer_token r ≡ some raw
      → parse_access jwt uuid tokens now raw ≡ err e
      → e ≢ token_expired
      → AuthEnds jwt uuid marshal tokens next now r (required jwt uuid marshal tokens next r)
  let_in :
      (caller : Identity)
      → IsCaller jwt uuid tokens now r caller
      → AuthEnds jwt uuid marshal tokens next now r (next (context_with_identity r caller))

module _ (jwt : JwtLib) (uuid : UuidLib) (marshal : Payload → Option Text) (tokens : Tokens)
    (next : Request → List Action) (now : Time) (r : Request) where
  rejected_token-AuthEnds :
      (raw : Text) (e : TokenError)
      → bearer_token r ≡ some raw
      → parse_access jwt uuid tokens now raw ≡ err e
      → AuthEnds jwt uuid marshal tokens next now r
          (rejected_token jwt uuid marshal tokens next r e)
  unfolding rejected_token
  rejected_token-AuthEnds raw token_expired c bad = too_late raw c bad
  rejected_token-AuthEnds raw token_invalid c bad = refused raw token_invalid c bad (λ e. cc e)
  rejected_token-AuthEnds raw wrong_token_kind c bad =
      refused raw wrong_token_kind c bad (λ e. cc e)

  with_claims-AuthEnds :
      (raw : Text) (claims : Claims)
      → bearer_token r ≡ some raw
      → parse_access jwt uuid tokens now raw ≡ ok claims
      → AuthEnds jwt uuid marshal tokens next now r
          (with_claims jwt uuid marshal tokens next r claims)
  unfolding with_claims user_id
  with_claims-AuthEnds raw claims c good =
      let trusted = parse_access-IsTrusted jwt uuid tokens now raw claims good in
      elim (Option-cases (uuid.parse claims.subject)) [
        | inl nobody ↦ absurd (trusted.user nobody)
        | inr (user, named) ↦
            rw (with_claims, user_id, named)
              (let_in (record { user_id = user; team_id = claims.team_id })
                (record {
                  raw = raw;
                  carried = c;
                  claims = claims;
                  parsed = good;
                  trusted = trusted;
                  user = named;
                  team = refl;
                }))
      ]

  with_token-AuthEnds :
      (raw : Text)
      → bearer_token r ≡ some raw
      → AuthEnds jwt uuid marshal tokens next now r
          (with_token jwt uuid marshal tokens next now r raw)
  unfolding with_token
  with_token-AuthEnds raw c = elim (Result-cases (parse_access jwt uuid tokens now raw)) [
    | inl (e, bad) ↦ rw (with_token, bad) (rejected_token-AuthEnds raw e c bad)
    | inr (claims, good) ↦ rw (with_token, good) (with_claims-AuthEnds raw claims c good)
  ]

-- Authenticate calls the handler only with the request to which the caller is attached: the user and the
-- team of the claims to which the token that the request carries parses as an access token, which has been
-- checked and has not expired; the team is never the nil id. Else it answers without a call of the
-- handler: that authentication is required where the request carries no token or one that does not parse,
-- and that the token has expired where it has.
pub authenticate-AuthEnds :
    (jwt : JwtLib) (uuid : UuidLib) (marshal : Payload → Option Text) (tokens : Tokens)
    (next : Request → List Action) (now : Time) (r : Request)
    → AuthEnds jwt uuid marshal tokens next now r (authenticate jwt uuid marshal tokens next now r)
unfolding authenticate
authenticate-AuthEnds jwt uuid marshal tokens next now r = elim (Option-cases (bearer_token r)) [
  | inl absent ↦ rw (authenticate, absent) (without_token absent)
  | inr (raw, c) ↦
      rw (authenticate, c) (with_token-AuthEnds jwt uuid marshal tokens next now r raw c)
]

-- While it lasts, the access token of an issued pair lets its bearer in as the user and the team it was
-- issued for; the refresh token of the pair, sent in its place, is answered that authentication is
-- required.
pub authenticate-issue_pair :
    (jwt : JwtLib) (uuid : UuidLib) (marshal : Payload → Option Text) (t : Tokens)
    (next : Request → List Action) (now later : Time) (refresh_id access_id user team : Uuid)
    (p : TokenPair) (r r' : Request)
    → issue_pair jwt uuid t now refresh_id access_id user team ≡ ok p
    → now ≤ℤ later
    → later <ℤ jwt.numeric_date p.access_expires_at
    → later <ℤ jwt.numeric_date p.refresh_expires_at
    → bearer_token r ≡ some p.access_token
    → bearer_token r' ≡ some p.refresh_token
    → (authenticate jwt uuid marshal t next later r
        ≡ next (context_with_identity r (record { user_id = user; team_id = team })))
      × (authenticate jwt uuid marshal t next later r'
          ≡ unauthorized marshal r' code_unauthorized (bytes "Authentication is required."))
unfolding authenticate with_token with_claims rejected_token new_claims
authenticate-issue_pair jwt uuid marshal t next now later refresh_id access_id user team p r r' h
      since access_left left carried carried' =
    let (accepted, subject) =
      issue_pair-access jwt uuid t now later refresh_id access_id user team p h since access_left in
    let kinds =
      issue_pair-kinds jwt uuid t now later later refresh_id access_id user team p h since left
        since access_left in
    (
      (rw (authenticate, carried, with_token, accepted, with_claims, subject)),
      (rw (authenticate, carried', with_token, kinds.1)),
    )
