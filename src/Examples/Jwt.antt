-- ===== src/Examples/Jwt.antt =====
-- A JWT library that writes the claims behind the secret, and a UUID library that writes an id as one
-- number. All dates count as whole.
use flow_cast.Base.{
  subst, text_eq_iff, ltb_ℤ, leb_ℤ, ltb_ℤ_iff, leb_ℤ_iff, OneOf, ap, ◌∙◌, ◌≢◌, ◌↔◌, Bool, true,
  false, not, ◌&&◌, ◌||◌, arith, text_eq, text_eq_refl, Time, if◌then◌else◌, Uuid, ◌≡◌, refl,
  Option, none, some, List, [], ◌∷◌, Text,
}
use flow_cast.Auth.Tokens.Library.{
  ParserOptions, ParseOutcome, valid, expired, rejected, Unexpired, Started, Meets, JwtLib, Claims,
  UuidLib,
}
use flow_cast.Examples.Codec.{Codec, number_codec, list_codec, time_codec, option_codec, pair_codec}

abbrev parse_id : Text → Option Uuid
parse_id (u ∷ []) = some u
parse_id _ = none

abbrev pub example_uuids : UuidLib
example_uuids = record { to_string = λ u. u ∷ []; parse = parse_id; parse-to_string = λ u. refl }

abbrev Tuple : Type 0
Tuple =
    ((Text × Text) × (List Text × Text))
    × ((Option Time × (Option Time × Option Time)) × (Uuid × Text))

abbrev tuple_codec : Codec Tuple
tuple_codec =
    let text = list_codec number_codec in
    let date = option_codec time_codec in
    pair_codec (pair_codec (pair_codec text text) (pair_codec (list_codec text) text))
      (pair_codec (pair_codec date (pair_codec date date)) (pair_codec number_codec text))

abbrev tuple_of : Claims → Tuple
tuple_of c = (
  ((c.subject, c.issuer), (c.audience, c.id)),
  ((c.issued_at, (c.not_before, c.expires_at)), (c.team_id, c.kind)),
)

abbrev claims_of : Tuple → Claims
claims_of (((s, i), (a, j)), ((t, (n, e)), (m, k))) = record {
  subject = s;
  issuer = i;
  audience = a;
  id = j;
  issued_at = t;
  not_before = n;
  expires_at = e;
  team_id = m;
  kind = k;
}

unfoldable pub encode : Text → Claims → Text
encode secret c = (list_codec number_codec).put secret (tuple_codec.put (tuple_of c) [])

unfoldable pub finished : Option (Tuple × Text) → Option Claims
finished none = none
finished (some (t, _)) = some (claims_of t)

unfoldable pub signed_with : Text → Option (Text × Text) → Option Claims
signed_with secret none = none
signed_with secret (some (written, rest)) =
    if text_eq written secret then finished (tuple_codec.get rest) else none

unfoldable pub decode : Text → Text → Option Claims
decode secret raw = signed_with secret ((list_codec number_codec).get raw)

signed_with-good :
    (secret rest : Text)
    → signed_with secret (some (secret, rest)) ≡ finished (tuple_codec.get rest)
unfolding signed_with
signed_with-good secret rest = rw (text_eq_refl secret)

pub decode-encode : (secret : Text) (c : Claims) → decode secret (encode secret c) ≡ some c
unfolding decode encode finished
decode-encode secret c =
    ap (signed_with secret)
      ((list_codec number_codec).get-put secret (tuple_codec.put (tuple_of c) []))
    ∙ (signed_with-good secret (tuple_codec.put (tuple_of c) [])
        ∙ ap finished (tuple_codec.get-put (tuple_of c) []))

-- The checks of the parser on registered claims.
abbrev one_of : Text → List Text → Bool
one_of t [] = false
one_of t (u ∷ us) = text_eq t u || one_of t us

abbrev is_started : Time → Option Time → Bool
is_started now none = true
is_started now (some t) = leb_ℤ t now

abbrev is_unexpired : ParserOptions → Option Time → Bool
is_unexpired o none = not o.expiration_required
is_unexpired o (some t) = ltb_ℤ o.now t

unfoldable pub meets : ParserOptions → Claims → Bool
meets o c =
    text_eq c.issuer o.issuer
    && (one_of o.audience c.audience
        && (is_unexpired o c.expires_at && is_started o.now c.not_before))

one_of_iff : (t : Text) (us : List Text) → (one_of t us ≡ true) ↔ OneOf t us
one_of_iff t [] = ground arith
one_of_iff t (u ∷ us) = ground (arith, one_of_iff t us, text_eq_iff t u)

start_past_iff : (now : Time) (o : Option Time) → (is_started now o ≡ true) ↔ Started now o
start_past_iff now none = ground arith
start_past_iff now (some t) = ground (arith, leb_ℤ_iff t now)

end_ahead_iff :
    (o : ParserOptions) (e : Option Time)
    → (is_unexpired o e ≡ true) ↔ ((o.expiration_required ≡ true → e ≢ none) × Unexpired o.now e)
end_ahead_iff o none = ground arith
end_ahead_iff o (some t) = ground (arith, ltb_ℤ_iff o.now t)

meets_iff : (o : ParserOptions) (c : Claims) → (meets o c ≡ true) ↔ Meets o c
unfolding meets
meets_iff o c = ground (
  arith,
  text_eq_iff c.issuer o.issuer,
  one_of_iff o.audience c.audience,
  start_past_iff o.now c.not_before,
  end_ahead_iff o c.expires_at,
)

unfoldable pub judge : ParserOptions → Option Claims → ParseOutcome
judge o none = rejected
judge o (some c) =
    if meets o c then valid c else if is_unexpired o c.expires_at then rejected else expired

pub judge-valid :
    (o : ParserOptions) (m : Option Claims) (c : Claims)
    → judge o m ≡ valid c
    → (m ≡ some c) × Meets o c
unfolding judge
judge-valid o none c h = cc
judge-valid o (some d) c h = ground (arith, meets_iff o d)

pub judge-Meets : (o : ParserOptions) (c : Claims) → Meets o c → judge o (some c) ≡ valid c
unfolding judge
judge-Meets o c h = ground (arith, meets_iff o c)

pub example_signed :
    (o : ParserOptions) (secret raw : Text) (c : Claims)
    → some (encode secret c) ≡ some raw
    → Meets o c
    → judge o (decode secret raw) ≡ valid c
example_signed o secret raw c s h =
    let same : encode secret c ≡ raw = cc s in
    subst (λ t. judge o (decode secret t) ≡ valid c) same
      (ap (judge o) (decode-encode secret c) ∙ judge-Meets o c h)

pub example_same :
    (o p : ParserOptions) (m : Option Claims) (c d : Claims)
    → judge o m ≡ valid c
    → judge p m ≡ valid d
    → c ≡ d
example_same o p m c d h k = cc ((judge-valid o m c h).0, (judge-valid p m d k).0)

abbrev pub example_jwt : JwtLib
example_jwt = record {
  numeric_date = λ t. t;
  signed_string = λ alg secret c. some (encode secret c);
  parse_with_claims = λ o secret raw. judge o (decode secret raw);
  numeric_date-le = λ t. omega arith;
  numeric_date_idem = λ t. refl;
  valid-Meets = λ o secret raw c h. (judge-valid o (decode secret raw) c h).1;
  signed-valid = λ o alg secret raw c s m w h. example_signed o secret raw c s h;
  valid_same = λ o now secret raw c d h k.
      example_same o (record o { now = now }) (decode secret raw) c d h k;
}
