-- ===== src/Auth/Tokens/Parsing.antt =====
-- What a token that parse of backend/internal/auth/token.go accepts has been checked for.
use flow_cast.Base.{
  subst, refl, ap, Option, Text, text_eq_iff, Time, ◌<ℤ◌, OneOf, uuid_nil, ◌≡◌, ◌≢◌, none, some,
  arith, ok,
}
use flow_cast.Auth.Tokens.Library.{
  Unexpired, Claims, TokenType, ParseOutcome, valid, expired, rejected, JwtLib, UuidLib,
}
use flow_cast.Auth.Tokens.{
  token_access, parse_access, check_outcome, Tokens, token_issuer, token_audience, parser_options,
  check_claims, parse_token,
}

-- Claims that the program may rely on.
pub record IsTrusted (uuid : UuidLib) (now : Time) (want : TokenType) (c : Claims) : Type 0 where
  pub kind : c.kind ≡ want
  pub team : c.team_id ≢ uuid_nil
  pub user : uuid.parse c.subject ≢ none
  pub issuer : c.issuer ≡ token_issuer
  pub audience : OneOf token_audience c.audience
  pub expiry : (t : Time) × (c.expires_at ≡ some t) × (now <ℤ t)

module _ (jwt : JwtLib) (uuid : UuidLib) where
  check_claims-ok :
      (want : TokenType) (c d : Claims)
      → check_claims jwt uuid want c ≡ ok d
      → (c ≡ d) × (c.kind ≡ want) × (c.team_id ≢ uuid_nil) × (uuid.parse c.subject ≢ none)
  unfolding check_claims
  check_claims-ok want c d h = ground (arith, text_eq_iff c.kind want)

  check_outcome-ok :
      (want : TokenType) (o : ParseOutcome) (c : Claims)
      → check_outcome jwt uuid want o ≡ ok c
      → (o ≡ valid c) × (check_claims jwt uuid want c ≡ ok c)
  unfolding check_outcome
  check_outcome-ok want expired c h = cc
  check_outcome-ok want rejected c h = cc
  check_outcome-ok want (valid d) c h =
      let e = (check_claims-ok want d c h).0 in
      (ap valid e, subst (λ x. check_claims jwt uuid want x ≡ ok c) e h)

  pub parse_token-ok :
      (t : Tokens) (now : Time) (raw : Text) (want : TokenType) (c : Claims)
      → parse_token jwt uuid t now raw want ≡ ok c
      → (jwt.parse_with_claims (parser_options now) t.secret raw ≡ valid c)
        × (check_claims jwt uuid want c ≡ ok c)
  unfolding parse_token
  parse_token-ok t now raw want c h = check_outcome-ok want _ c h

expiry_of :
    (now : Time) (expires_at : Option Time)
    → expires_at ≢ none
    → Unexpired now expires_at
    → (t : Time) × (expires_at ≡ some t) × (now <ℤ t)
expiry_of now none dated h = absurd (dated refl)
expiry_of now (some t) dated h = (t, refl, h)

-- A token that is accepted has the kind that was asked for, a team that is set, a subject that is a
-- UUID, FlowCast's issuer and audience, and an expiry that lies ahead.
pub parse_token-IsTrusted :
    (jwt : JwtLib) (uuid : UuidLib) (t : Tokens) (now : Time) (raw : Text) (want : TokenType)
    (c : Claims)
    → parse_token jwt uuid t now raw want ≡ ok c
    → IsTrusted uuid now want c
parse_token-IsTrusted jwt uuid t now raw want c h =
    let (decoded, checked) = parse_token-ok jwt uuid t now raw want c h in
    let (_, kind, team, user) = check_claims-ok jwt uuid want c c checked in
    let m = jwt.valid-Meets (parser_options now) t.secret raw c decoded in
    record {
      kind = kind;
      team = team;
      user = user;
      issuer = m.issuer;
      audience = m.audience;
      expiry = expiry_of now c.expires_at (m.dated refl) m.unexpired;
    }

pub parse_access-IsTrusted :
    (jwt : JwtLib) (uuid : UuidLib) (t : Tokens) (now : Time) (raw : Text) (c : Claims)
    → parse_access jwt uuid t now raw ≡ ok c
    → IsTrusted uuid now token_access c
unfolding parse_access
parse_access-IsTrusted jwt uuid t now raw c h =
    parse_token-IsTrusted jwt uuid t now raw token_access c h
