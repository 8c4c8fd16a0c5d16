-- ===== src/Auth/Tokens.antt =====
-- backend/internal/auth/token.go. The JWT and UUID libraries are parameters; the clock is an argument
-- of each operation that reads it, and so are the ids that uuid.New draws.
pub mod Library
pub mod Parsing
pub mod Kinds
use flow_cast.Base.{
  Text, bytes, text_eq, Time, Duration, time_add, leb_ℤ, length, Result, ltb, ◌==◌, if◌then◌else◌,
  Uuid, uuid_nil, ℕ, true, not, ◌||◌, Option, none, some, [], ◌∷◌, pos, ok, err,
}
use flow_cast.Config.Types.{AuthConfig}
use Library.{
  Claims, TokenType, ParserOptions, ParseOutcome, valid, expired, rejected, JwtLib, UuidLib,
}

abbrev pub token_issuer : Text
token_issuer = bytes "flowcast"

abbrev pub token_audience : Text
token_audience = bytes "flowcast-api"

-- signingMethod.Alg()
abbrev pub signing_alg : Text
signing_alg = bytes "HS256"

abbrev pub token_access : TokenType
token_access = bytes "access"

abbrev pub token_refresh : TokenType
token_refresh = bytes "refresh"

-- The three errors of the package; the text that wraps them is left out.
pub data TokenError : Type 0 where
  token_invalid token_expired wrong_token_kind : TokenError

pub data IssueError : Type 0 where
  ids_required signing : IssueError

pub data TokensError : Type 0 where
  short_secret lifetimes_not_positive access_not_shorter : TokensError

pub record TokenPair : Type 0 where
  pub access_token : Text
  pub refresh_token : Text
  pub access_expires_at : Time
  pub refresh_expires_at : Time
  pub refresh_id : Uuid

pub record Tokens : Type 0 where
  pub secret : Text
  pub access_ttl : Duration
  pub refresh_ttl : Duration

abbrev pub min_secret_length : ℕ
min_secret_length = 32

-- The options, which only replace the clock, are left out.
unfoldable pub new_tokens : AuthConfig → Result TokensError Tokens
new_tokens cfg =
    if ltb (length cfg.jwt_secret) min_secret_length
    then err short_secret
    else if leb_ℤ cfg.access_token_ttl (pos 0) || leb_ℤ cfg.refresh_token_ttl (pos 0)
    then err lifetimes_not_positive
    else if leb_ℤ cfg.refresh_token_ttl cfg.access_token_ttl
    then err access_not_shorter
    else ok (record {
      secret = cfg.jwt_secret;
      access_ttl = cfg.access_token_ttl;
      refresh_ttl = cfg.refresh_token_ttl;
    })

-- The time function is read at the one time `now`.
abbrev pub parser_options : Time → ParserOptions
parser_options now = record {
  methods = signing_alg ∷ [];
  issuer = token_issuer;
  audience = token_audience;
  expiration_required = true;
  now = now;
}

module _ (jwt : JwtLib) (uuid : UuidLib) where
  unfoldable pub user_id : Claims → Option Uuid
  user_id c = uuid.parse c.subject

  unfoldable pub new_claims : Uuid → Uuid → TokenType → Uuid → Time → Time → Claims
  new_claims user team kind jti issued_at expiry = record {
    subject = uuid.to_string user;
    issuer = token_issuer;
    audience = token_audience ∷ [];
    id = uuid.to_string jti;
    issued_at = some (jwt.numeric_date issued_at);
    not_before = some (jwt.numeric_date issued_at);
    expires_at = some (jwt.numeric_date expiry);
    team_id = team;
    kind = kind;
  }

  unfoldable pub sign : Tokens → Claims → Option Text
  sign t claims = jwt.signed_string signing_alg t.secret claims

  -- The clock is read once; `refresh_id` and `access_id` are what uuid.New drew.
  unfoldable pub issue_pair :
      Tokens → Time → Uuid → Uuid → Uuid → Uuid → Result IssueError TokenPair
  unfolding sign new_claims
  issue_pair t now refresh_id access_id user team =
      if user == uuid_nil || team == uuid_nil
      then err ids_required
      else let access_expiry = time_add now t.access_ttl in
        let refresh_expiry = time_add now t.refresh_ttl in
        elim (sign t (new_claims user team token_access access_id now access_expiry)) [
          | none ↦ err signing
          | some access ↦
              elim (sign t (new_claims user team token_refresh refresh_id now refresh_expiry)) [
                | none ↦ err signing
                | some refresh ↦ ok (record {
                  access_token = access;
                  refresh_token = refresh;
                  access_expires_at = access_expiry;
                  refresh_expires_at = refresh_expiry;
                  refresh_id = refresh_id;
                })
              ]
        ]

  -- The checks on claims whose signature and registered claims are valid.
  pub check_claims : TokenType → Claims → Result TokenError Claims
  unfolding user_id
  check_claims want claims =
      if not (text_eq claims.kind want)
      then err wrong_token_kind
      else if claims.team_id == uuid_nil
      then err token_invalid
      else elim (user_id claims) [ none ↦ err token_invalid | some _ ↦ ok claims ]

  pub check_outcome : TokenType → ParseOutcome → Result TokenError Claims
  unfolding check_claims
  check_outcome want expired = err token_expired
  check_outcome want rejected = err token_invalid
  check_outcome want (valid claims) = check_claims want claims

  unfoldable pub parse_token : Tokens → Time → Text → TokenType → Result TokenError Claims
  unfolding check_outcome
  parse_token t now raw want =
      check_outcome want (jwt.parse_with_claims (parser_options now) t.secret raw)

  unfoldable pub parse_access : Tokens → Time → Text → Result TokenError Claims
  unfolding parse_token
  parse_access t now raw = parse_token t now raw token_access

  unfoldable pub parse_refresh : Tokens → Time → Text → Result TokenError Claims
  unfolding parse_token
  parse_refresh t now raw = parse_token t now raw token_refresh
