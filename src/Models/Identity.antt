-- ===== src/Models/Identity.antt =====
-- backend/internal/models/identity.go.
pub mod Validity
use flow_cast.Base.{
  Text, bytes, is_empty, Time, length, Result, ltb, ◌==◌, Uuid, uuid_nil, ℕ, Bool, not, ◌&&◌,
  Option, List, [], ◌∷◌,
}
use flow_cast.Models.Enum.{valid_enum, parse_enum, InvalidEnumError}
use flow_cast.Models.Email.{valid_email}
use flow_cast.Models.Issues.{
  ValidationError, Validator, no_issues, add_if, require, max_len, enum_field, err_of,
}

pub record Team : Type 0 where
  pub id : Uuid
  pub name : Text
  pub created_at : Time
  pub updated_at : Time

pub record User : Type 0 where
  pub id : Uuid
  pub team_id : Uuid
  pub email : Text
  pub password_hash : Text
  pub name : Text
  pub created_at : Time
  pub updated_at : Time

abbrev pub Provider : Type 0
Provider = Text

abbrev pub all_providers : List Provider
all_providers = bytes "pagerduty" ∷ bytes "datadog" ∷ bytes "slack" ∷ []

pub provider_valid : Provider → Bool
provider_valid p = valid_enum p all_providers

pub parse_provider : Text → Result InvalidEnumError Provider
parse_provider raw = parse_enum raw (bytes "provider") all_providers

-- The configuration is kept as its JSON text.
pub record Integration : Type 0 where
  pub id : Uuid
  pub team_id : Uuid
  pub provider : Provider
  pub webhook_secret : Text
  pub config : Text
  pub enabled : Bool
  pub created_at : Time
  pub updated_at : Time

abbrev pub max_team_name_len : ℕ
max_team_name_len = 200

abbrev pub max_user_name_len : ℕ
max_user_name_len = 200

abbrev pub max_email_len : ℕ
max_email_len = 320

abbrev pub min_webhook_secret_len : ℕ
min_webhook_secret_len = 16

unfoldable pub validate_team : Team → Option ValidationError
validate_team t =
    let (v1, name) = require no_issues (bytes "name") t.name in
    err_of (max_len v1 (bytes "name") name max_team_name_len)

unfoldable pub validate_user : User → Option ValidationError
validate_user u =
    let (v1, email) = require no_issues (bytes "email") u.email in
    let v2 = max_len v1 (bytes "email") email max_email_len in
    let v3 =
      add_if (not (is_empty email) && not (valid_email email)) v2 (bytes "email")
        (bytes "must be a valid email address") in
    let (v4, name) = require v3 (bytes "name") u.name in
    let v5 = max_len v4 (bytes "name") name max_user_name_len in
    let (v6, _) = require v5 (bytes "password_hash") u.password_hash in
    err_of (add_if (u.team_id == uuid_nil) v6 (bytes "team_id") (bytes "is required"))

unfoldable pub validate_integration : Integration → Option ValidationError
validate_integration i =
    let v1 = enum_field no_issues (bytes "provider") i.provider all_providers in
    let v2 =
      add_if (ltb (length i.webhook_secret) min_webhook_secret_len) v1 (bytes "webhook_secret")
        (bytes "must be at least 16 characters") in
    err_of (add_if (i.team_id == uuid_nil) v2 (bytes "team_id") (bytes "is required"))
