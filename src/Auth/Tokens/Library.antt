-- ===== src/Auth/Tokens/Library.antt =====
-- Claims of backend/internal/auth/token.go, and what the package relies on of its two libraries,
-- github.com/golang-jwt/jwt/v5 and github.com/google/uuid.
use flow_cast.Base.{
  Text, Time, ◌≤ℤ◌, ◌<ℤ◌, OneOf, Uuid, ◌≡◌, ◌≢◌, Bool, true, Option, none, some, List,
}

abbrev pub TokenType : Type 0
TokenType = Text

-- The registered claims and FlowCast's own two.
pub record Claims : Type 0 where
  pub subject : Text
  pub issuer : Text
  pub audience : List Text
  pub id : Text
  pub issued_at : Option Time
  pub not_before : Option Time
  pub expires_at : Option Time
  pub team_id : Uuid
  pub kind : TokenType

pub record ParserOptions : Type 0 where
  pub methods : List Text
  pub issuer : Text
  pub audience : Text
  pub expiration_required : Bool
  pub now : Time

-- What ParseWithClaims gives: claims, an error that is ErrTokenExpired, or another error.
pub data ParseOutcome : Type 0 where
  valid : Claims → ParseOutcome
  expired rejected : ParseOutcome

-- An expiry is in force until its instant; a start, from it on.
abbrev pub Unexpired : Time → Option Time → Type 0
Unexpired now none = Unit
Unexpired now (some expiry) = now <ℤ expiry

abbrev pub Started : Time → Option Time → Type 0
Started now none = Unit
Started now (some start) = start ≤ℤ now

-- What the parser asks of the registered claims.
pub record Meets (o : ParserOptions) (c : Claims) : Type 0 where
  pub issuer : c.issuer ≡ o.issuer
  pub audience : OneOf o.audience c.audience
  pub dated : o.expiration_required ≡ true → c.expires_at ≢ none
  pub unexpired : Unexpired o.now c.expires_at
  pub started : Started o.now c.not_before

-- A date without a fraction of a second, if any.
abbrev pub WholeSeconds : (Time → Time) → Option Time → Type 0
WholeSeconds numeric_date none = Unit
WholeSeconds numeric_date (some t) = numeric_date t ≡ t

pub record HasWholeDates (numeric_date : Time → Time) (c : Claims) : Type 0 where
  pub issued_at : WholeSeconds numeric_date c.issued_at
  pub not_before : WholeSeconds numeric_date c.not_before
  pub expires_at : WholeSeconds numeric_date c.expires_at

pub record JwtLib : Type 0 where
  -- jwt.NewNumericDate, which drops the fraction of a second.
  pub numeric_date : Time → Time
  pub signed_string : Text → Text → Claims → Option Text
  pub parse_with_claims : ParserOptions → Text → Text → ParseOutcome
  pub numeric_date-le : (t : Time) → numeric_date t ≤ℤ t
  pub numeric_date_idem : (t : Time) → numeric_date (numeric_date t) ≡ numeric_date t
  -- What the parser accepts meets its options.
  pub valid-Meets :
      (o : ParserOptions) (secret raw : Text) (c : Claims)
      → parse_with_claims o secret raw ≡ valid c
      → Meets o c
  -- A signed token with whole dates decodes to its claims, if these meet the options.
  pub signed-valid :
      (o : ParserOptions) (alg secret raw : Text) (c : Claims)
      → signed_string alg secret c ≡ some raw
      → OneOf alg o.methods
      → HasWholeDates numeric_date c
      → Meets o c
      → parse_with_claims o secret raw ≡ valid c
  -- Only the verdict depends on the time: a token that was accepted has the same claims later.
  pub valid_same :
      (o : ParserOptions) (now : Time) (secret raw : Text) (c d : Claims)
      → parse_with_claims o secret raw ≡ valid c
      → parse_with_claims (record o { now = now }) secret raw ≡ valid d
      → c ≡ d

pub record UuidLib : Type 0 where
  pub to_string : Uuid → Text
  pub parse : Text → Option Uuid
  pub parse-to_string : (u : Uuid) → parse (to_string u) ≡ some u
