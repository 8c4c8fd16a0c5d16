-- ===== src/Examples/World.antt =====
-- A store of withdrawn tokens, a password library and a store of users in memory, and the handlers on
-- them.
use flow_cast.Base.{
  bytes, text_eq, text_eq_refl, Time, Duration, time_add, ◌<ℤ◌, ltb_ℤ, ltb_ℤ_iff, length, Result,
  ◌==◌, if◌then◌else◌, Uuid, ℕ, ◌+◌, ◌≡◌, subst, ◌≢◌, true, false, ◌&&◌, Option, none, some, List,
  [], ◌∷◌, arith, pos, ok, err, Text,
}
use flow_cast.Auth.Password.{Comparison, same, mismatched, unusable_hash, Bcrypt}
use flow_cast.Auth.Tokens.{Tokens}
use flow_cast.Examples.Jwt.{example_uuids, example_jwt}
use flow_cast.Handlers.Env.{
  StoreError, not_found, conflict, UserStore, RegisterRequest, LoginRequest, Env, AuthHandler,
  Draws,
}
use flow_cast.Http.{Request}
use flow_cast.Models.Identity.{Team, User}
use flow_cast.Sessions.{Lookup, found, nil_reply, RedisLib}

-- Keys with the times until which they last.
abbrev pub Keys : Type 0
Keys = List (Text × Time)

unfoldable pub look_up : Keys → Time → Text → Lookup
look_up [] now key = nil_reply
look_up ((k, expiry) ∷ keys) now key =
    if text_eq k key && ltb_ℤ now expiry then found else look_up keys now key

pub look_up-set :
    (db : Keys) (later expiry : Time) (key : Text)
    → later <ℤ expiry
    → look_up ((key, expiry) ∷ db) later key ≢ nil_reply
unfolding look_up
look_up-set db later expiry key h = ground (arith, text_eq_refl key, ltb_ℤ_iff later expiry)

pub look_up-set_ne :
    (db : Keys) (later expiry : Time) (key other : Text)
    → look_up db later other ≢ nil_reply
    → look_up ((key, expiry) ∷ db) later other ≢ nil_reply
unfolding look_up
look_up-set_ne db later expiry key other h = ground arith

abbrev set_key : Keys → Time → Text → Text → Duration → Option Keys
set_key db now key value ttl = some ((key, time_add now ttl) ∷ db)

pub set_key-found :
    (db : Keys) (now later : Time) (key value : Text) (ttl : Duration) (db' : Keys)
    → set_key db now key value ttl ≡ some db'
    → later <ℤ time_add now ttl
    → look_up db' later key ≢ nil_reply
set_key-found db now later key value ttl db' s lasts =
    let stored : ((key, time_add now ttl) ∷ db) ≡ db' = cc s in
    subst (λ x. look_up x later key ≢ nil_reply) stored
      (look_up-set db later (time_add now ttl) key lasts)

pub set_key-others :
    (db : Keys) (now later : Time) (key other value : Text) (ttl : Duration) (db' : Keys)
    → set_key db now key value ttl ≡ some db'
    → look_up db later other ≢ nil_reply
    → look_up db' later other ≢ nil_reply
set_key-others db now later key other value ttl db' s h =
    let stored : ((key, time_add now ttl) ∷ db) ≡ db' = cc s in
    subst (λ x. look_up x later other ≢ nil_reply) stored
      (look_up-set_ne db later (time_add now ttl) key other h)

abbrev pub example_redis : RedisLib
example_redis = record {
  Db = Keys;
  set = set_key;
  get = look_up;
  get-set = λ db now later key value ttl db' s since lasts.
      set_key-found db now later key value ttl db' s lasts;
  get-set_ne = λ db now later key other value ttl db' s ne h.
      set_key-others db now later key other value ttl db' s h;
}

-- A hash is the password behind its salt.
unfoldable pub compare_salted : Text → Text → Comparison
compare_salted [] plain = unusable_hash
compare_salted (salt ∷ plain_part) plain = if text_eq plain_part plain then same else mismatched

pub compare_salted-same :
    (salt : ℕ) (plain hashed : Text)
    → some (salt ∷ plain) ≡ some hashed
    → compare_salted hashed plain ≡ same
unfolding compare_salted
compare_salted-same salt plain hashed h =
    let e : (salt ∷ plain) ≡ hashed = cc h in
    subst (λ x. compare_salted x plain ≡ same) e (rw (text_eq_refl plain))

abbrev pub example_bcrypt : Bcrypt
example_bcrypt = record {
  min_cost = pos 4;
  max_cost = pos 31;
  generate = λ salt plain cost. some (salt ∷ plain);
  compare_hash = compare_salted;
  generate-compare_hash = λ salt plain cost hashed fits h. compare_salted-same salt plain hashed h;
}

-- Users, the newest first.
unfoldable pub find_email : List User → Text → Result StoreError User
find_email [] email = err not_found
find_email (u ∷ us) email = if text_eq u.email email then ok u else find_email us email

unfoldable pub find_id : List User → Uuid → Result StoreError User
find_id [] id = err not_found
find_id (u ∷ us) id = if u.id == id then ok u else find_id us id

-- A team and its owner share a number.
unfoldable pub create_owner : List User → Text → User → Result StoreError (Team × User × List User)
create_owner us name u = elim (find_email us u.email) [
  | ok _ ↦ err conflict
  | err _ ↦
      let n = length us + 1 in
      let made = record u { id = n; team_id = n } in
      ok (record { id = n; name = name; created_at = pos 0; updated_at = pos 0 }, made, made ∷ us)
]

abbrev pub example_users : UserStore
example_users = record {
  Users = List User;
  create_team_with_owner = create_owner;
  find_by_email = find_email;
  find_by_id = find_id;
}

abbrev pub password : Text
password = bytes "correct horse battery"

abbrev pub email : Text
email = bytes "ana@example.com"

abbrev pub registration : RegisterRequest
registration = record {
  email = email;
  password = password;
  name = bytes "Ana";
  team_name = bytes "Ops";
}

abbrev pub credentials : LoginRequest
credentials = record { email = email; password = password }

abbrev pub env : Env
env = record {
  jwt = example_jwt;
  uuid = example_uuids;
  bcrypt = example_bcrypt;
  redis = example_redis;
  users = example_users;
  marshal = λ p. some (bytes "{}");
  media_type = λ t. some t;
  quote = λ t. t;
  decode_register = λ t. ok registration;
  decode_login = λ t. ok credentials;
  more = λ t. false;
}

abbrev pub tokens : Tokens
tokens = record {
  secret = bytes "0123456789abcdef0123456789abcdef+";
  access_ttl = pos 900;
  refresh_ttl = pos 2592000;
}

abbrev pub handler : AuthHandler
handler = record {
  hasher = record { cost = pos 12; dummy_hash = 7 ∷ [] };
  tokens = tokens;
  secure_cookies = true;
}

-- Draws of a request at a time; its ids are those that follow `id`.
abbrev pub draws_at : ℕ → Uuid → Draws
draws_at now id = record {
  parsed_at = pos now;
  checked_at = pos now;
  until_at = pos now;
  revoked_at = pos now;
  issued_at = pos now;
  salt = 5;
  refresh_id = id + 1;
  access_id = id + 2;
}

abbrev pub request_with : Option Text → Request
request_with cookie = record {
  method = bytes "POST";
  path = bytes "/api/v1/auth";
  content_type = bytes "application/json";
  authorization = [];
  request_id_header = [];
  remote_addr = bytes "10.0.0.1:5000";
  refresh_cookie = cookie;
  body = bytes "{}";
  request_id = bytes "req-1";
  identity = none;
}

abbrev pub ana : User
ana = record {
  id = 11;
  team_id = 12;
  email = email;
  password_hash = 5 ∷ password;
  name = bytes "Ana";
  created_at = pos 0;
  updated_at = pos 0;
}
