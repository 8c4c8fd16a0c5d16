-- ===== src/Handlers/Env.antt =====
-- What the handlers of backend/internal/handlers/auth.go are built on: the libraries, the session
-- store and the user store, which AuthHandler takes as an interface.
use flow_cast.Base.{Text, Time, Result, Uuid, ℕ, Bool, Option}
use flow_cast.Auth.Tokens.Library.{JwtLib, UuidLib}
use flow_cast.Auth.Password.{Bcrypt, Hasher}
use flow_cast.Auth.Tokens.{Tokens}
use flow_cast.Sessions.{RedisLib}
use flow_cast.Api.Payload.{Payload}
use flow_cast.Api.Decode.{DecodeFailure}
use flow_cast.Models.Identity.{User, Team}

-- The sentinel errors of the models, and any other error.
pub data StoreError : Type 0 where
  not_found conflict other_error : StoreError

-- UserStore. A lookup changes nothing; a creation gives the changed store.
pub record UserStore : Type 1 where
  pub Users : Type 0
  pub create_team_with_owner : Users → Text → User → Result StoreError (Team × User × Users)
  pub find_by_email : Users → Text → Result StoreError User
  pub find_by_id : Users → Uuid → Result StoreError User

pub record RegisterRequest : Type 0 where
  pub email : Text
  pub password : Text
  pub name : Text
  pub team_name : Text

pub record LoginRequest : Type 0 where
  pub email : Text
  pub password : Text

pub record Env : Type 1 where
  pub jwt : JwtLib
  pub uuid : UuidLib
  pub bcrypt : Bcrypt
  pub redis : RedisLib
  pub users : UserStore
  pub marshal : Payload → Option Text
  pub media_type : Text → Option Text
  pub quote : Text → Text
  pub decode_register : Text → Result DecodeFailure RegisterRequest
  pub decode_login : Text → Result DecodeFailure LoginRequest
  pub more : Text → Bool

-- AuthHandler, without the stores and the logger.
pub record AuthHandler : Type 0 where
  pub hasher : Hasher
  pub tokens : Tokens
  pub secure_cookies : Bool

-- What a request reads from outside: the clock, at each of the places where it does, and what the
-- salt and the two new ids are drawn as.
pub record Draws : Type 0 where
  pub parsed_at : Time
  pub checked_at : Time
  pub until_at : Time
  pub revoked_at : Time
  pub issued_at : Time
  pub salt : ℕ
  pub refresh_id : Uuid
  pub access_id : Uuid
