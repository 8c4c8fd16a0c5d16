-- ===== src/Auth/Tokens/Kinds.antt =====
-- The two tokens of a pair that IssuePair of backend/internal/auth/token.go makes.
use flow_cast.Base.{
  ◌∙◌, subst, text_eq_refl, time_add, uuid_nil, ◌≢◌, ok, err, Text, bytes, text_eq, Time, ◌≤ℤ◌,
  ◌<ℤ◌, Uuid, ◌≡◌, refl, inl, false, some, arith,
}
use flow_cast.Auth.Tokens.Library.{TokenType, Meets, HasWholeDates, JwtLib, UuidLib}
use flow_cast.Auth.Tokens.{
  user_id, parse_refresh, parse_access, Claims, TokenPair, issue_pair, wrong_token_kind, Tokens,
  token_access, token_refresh, signing_alg, parser_options, new_claims, sign, check_claims,
  parse_token,
}

access-ne-refresh : text_eq token_access token_refresh ≡ false
unfolding text_eq bytes
access-ne-refresh = refl

refresh-ne-access : text_eq token_refresh token_access ≡ false
unfolding text_eq bytes
refresh-ne-access = refl

module _ (jwt : JwtLib) (uuid : UuidLib) where
  new_claims-Meets :
      (user team jti : Uuid) (kind : TokenType) (issued now expiry : Time)
      → issued ≤ℤ now
      → now <ℤ jwt.numeric_date expiry
      → Meets (parser_options now) (new_claims jwt uuid user team kind jti issued expiry)
  unfolding new_claims
  new_claims-Meets user team jti kind issued now expiry h k = record {
    issuer = refl;
    audience = inl refl;
    dated = λ _ e. cc e;
    unexpired = k;
    started = omega (arith, jwt.numeric_date-le issued);
  }

  new_claims-whole :
      (user team jti : Uuid) (kind : TokenType) (issued expiry : Time)
      → HasWholeDates jwt.numeric_date (new_claims jwt uuid user team kind jti issued expiry)
  unfolding new_claims
  new_claims-whole user team jti kind issued expiry = record {
    issued_at = jwt.numeric_date_idem issued;
    not_before = jwt.numeric_date_idem issued;
    expires_at = jwt.numeric_date_idem expiry;
  }

  -- A token that was signed parses to what the checks say of its claims.
  signed-parse_token :
      (t : Tokens) (user team jti : Uuid) (kind want : TokenType) (issued now expiry : Time)
      (raw : Text)
      → sign jwt uuid t (new_claims jwt uuid user team kind jti issued expiry) ≡ some raw
      → issued ≤ℤ now
      → now <ℤ jwt.numeric_date expiry
      → parse_token jwt uuid t now raw want
        ≡ check_claims jwt uuid want (new_claims jwt uuid user team kind jti issued expiry)
  unfolding sign parse_token
  signed-parse_token t user team jti kind want issued now expiry raw s h k = rw (
      jwt.signed-valid (parser_options now) signing_alg t.secret raw _ s (inl refl)
        (new_claims-whole user team jti kind issued expiry)
        (new_claims-Meets user team jti kind issued now expiry h k))

  check_new_claims :
      (user team jti : Uuid) (kind : TokenType) (issued expiry : Time)
      → team ≢ uuid_nil
      → check_claims jwt uuid kind (new_claims jwt uuid user team kind jti issued expiry)
        ≡ ok (new_claims jwt uuid user team kind jti issued expiry)
  unfolding check_claims new_claims
  check_new_claims user team jti kind issued expiry h =
      ground (arith, text_eq_refl kind, uuid.parse-to_string user)

  check_other_kind :
      (user team jti : Uuid) (kind want : TokenType) (issued expiry : Time)
      → text_eq kind want ≡ false
      → check_claims jwt uuid want (new_claims jwt uuid user team kind jti issued expiry)
        ≡ err wrong_token_kind
  unfolding check_claims new_claims
  check_other_kind user team jti kind want issued expiry h = rw h

  -- What a pair that was issued is made of.
  pub record IsPair (t : Tokens) (now : Time) (refresh_id access_id user team : Uuid)
      (p : TokenPair) : Type 0 where
    pub team_given : team ≢ uuid_nil
    pub access :
        sign jwt uuid t
          (new_claims jwt uuid user team token_access access_id now (time_add now t.access_ttl))
        ≡ some p.access_token
    pub refresh :
        sign jwt uuid t
          (new_claims jwt uuid user team token_refresh refresh_id now (time_add now t.refresh_ttl))
        ≡ some p.refresh_token
    pub access_expires_at : p.access_expires_at ≡ time_add now t.access_ttl
    pub refresh_expires_at : p.refresh_expires_at ≡ time_add now t.refresh_ttl
    pub same_id : p.refresh_id ≡ refresh_id

  pub issue_pair-IsPair :
      (t : Tokens) (now : Time) (refresh_id access_id user team : Uuid) (p : TokenPair)
      → issue_pair jwt uuid t now refresh_id access_id user team ≡ ok p
      → IsPair t now refresh_id access_id user team p
  unfolding issue_pair
  issue_pair-IsPair t now refresh_id access_id user team p h = record {
    team_given = ground arith;
    access = ground arith;
    refresh = ground arith;
    access_expires_at = ground arith;
    refresh_expires_at = ground arith;
    same_id = ground arith;
  }

-- The access token of a pair is accepted, with its user.
pub issue_pair-access :
    (jwt : JwtLib) (uuid : UuidLib) (t : Tokens) (now later : Time)
    (refresh_id access_id user team : Uuid) (p : TokenPair)
    → issue_pair jwt uuid t now refresh_id access_id user team ≡ ok p
    → now ≤ℤ later
    → later <ℤ jwt.numeric_date p.access_expires_at
    → (parse_access jwt uuid t later p.access_token
        ≡ ok (new_claims jwt uuid user team token_access access_id now (time_add now t.access_ttl)))
      × (user_id jwt uuid
            (new_claims jwt uuid user team token_access access_id now (time_add now t.access_ttl))
          ≡ some user)
unfolding parse_access user_id new_claims
issue_pair-access jwt uuid t now later refresh_id access_id user team p h since left =
    let m = issue_pair-IsPair jwt uuid t now refresh_id access_id user team p h in
    let in_time = subst (λ e. later <ℤ jwt.numeric_date e) m.access_expires_at left in
    (
      signed-parse_token jwt uuid t user team access_id token_access token_access now later _
            p.access_token m.access since in_time
          ∙ check_new_claims jwt uuid user team access_id token_access now _ m.team_given,
      uuid.parse-to_string user,
    )

-- The claims of the refresh token of a pair.
abbrev pub refresh_token_claims : JwtLib → UuidLib → Tokens → Time → Uuid → Uuid → Uuid → Claims
refresh_token_claims jwt uuid t now refresh_id user team =
    new_claims jwt uuid user team token_refresh refresh_id now (time_add now t.refresh_ttl)

-- From its issue until its own expiry, in whole seconds, the refresh token of a pair is accepted as a
-- refresh token, with the user, the team and the id it was made for, and refused as an access token
-- because of its kind, also when the access token of the pair has expired; and from its issue until its
-- own expiry the access token of the pair is refused as a refresh token.
pub issue_pair-kinds :
    (jwt : JwtLib) (uuid : UuidLib) (t : Tokens) (now later sooner : Time)
    (refresh_id access_id user team : Uuid) (p : TokenPair)
    → issue_pair jwt uuid t now refresh_id access_id user team ≡ ok p
    → now ≤ℤ later
    → later <ℤ jwt.numeric_date p.refresh_expires_at
    → now ≤ℤ sooner
    → sooner <ℤ jwt.numeric_date p.access_expires_at
    → (parse_refresh jwt uuid t later p.refresh_token
        ≡ ok (refresh_token_claims jwt uuid t now refresh_id user team))
      × (parse_access jwt uuid t later p.refresh_token ≡ err wrong_token_kind)
      × (parse_refresh jwt uuid t sooner p.access_token ≡ err wrong_token_kind)
unfolding parse_access parse_refresh
issue_pair-kinds jwt uuid t now later sooner refresh_id access_id user team p h since left since_too
      access_left =
    let m = issue_pair-IsPair jwt uuid t now refresh_id access_id user team p h in
    let refresh_in_time = subst (λ e. later <ℤ jwt.numeric_date e) m.refresh_expires_at left in
    let access_in_time =
      subst (λ e. sooner <ℤ jwt.numeric_date e) m.access_expires_at access_left in
    (
      signed-parse_token jwt uuid t user team refresh_id token_refresh token_refresh now later _
            p.refresh_token m.refresh since refresh_in_time
          ∙ check_new_claims jwt uuid user team refresh_id token_refresh now _ m.team_given,
      signed-parse_token jwt uuid t user team refresh_id token_refresh token_access now later _
            p.refresh_token m.refresh since refresh_in_time
          ∙ check_other_kind jwt uuid user team refresh_id token_refresh token_access now _
              refresh-ne-access,
      signed-parse_token jwt uuid t user team access_id token_access token_refresh now sooner _
            p.access_token m.access since_too access_in_time
          ∙ check_other_kind jwt uuid user team access_id token_access token_refresh now _
              access-ne-refresh,
    )
