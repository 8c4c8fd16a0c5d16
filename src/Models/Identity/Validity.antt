-- ===== src/Models/Identity/Validity.antt =====
-- What Validate of a team, a user and an integration accepts.
use flow_cast.Base.{
  Text, bytes, is_empty, length, OneOf, iff_trans, and_then, iff_refl, uuid_nil, ◌≤◌, ◌≡◌, ◌≢◌, ◌↔◌,
  Bool, true, not, ◌&&◌, none, [], arith,
}
use flow_cast.Strings.{trim_space}
use flow_cast.Models.Email.{valid_email}
use flow_cast.Models.Issues.Clean.{
  require-trimmed, add_if-Clean, require-Clean, required_max_len-Clean, enum_field-Clean,
  err_of-Clean,
}
use flow_cast.Models.Identity.{
  no_issues, Team, User, Integration, all_providers, max_team_name_len, max_user_name_len,
  max_email_len, min_webhook_secret_len, validate_team, validate_user, validate_integration,
}

pub validate_team_iff :
    (t : Team)
    → (validate_team t ≡ none)
      ↔ ((trim_space t.name ≢ []) × (length (trim_space t.name) ≤ max_team_name_len))
unfolding validate_team
validate_team_iff t =
    iff_trans (err_of-Clean _) (iff_trans (required_max_len-Clean _ _ _ _) (ground arith))

pub record UserIsValid (u : User) : Type 0 where
  pub email : trim_space u.email ≢ []
  pub email_fits : length (trim_space u.email) ≤ max_email_len
  pub email_shaped : valid_email (trim_space u.email) ≡ true
  pub named : trim_space u.name ≢ []
  pub name_fits : length (trim_space u.name) ≤ max_user_name_len
  pub password_hash : trim_space u.password_hash ≢ []
  pub owned : u.team_id ≢ uuid_nil

-- The address is checked only where there is one.
abbrev malformed : Text → Bool
malformed email = not (is_empty email) && not (valid_email email)

-- Validate of a user reports no error exactly if the trimmed email is not empty, has at most 320
-- bytes and the shape of an address, the trimmed name is not empty and has at most 200 bytes, the
-- password hash is not blank and the team is set.
pub validate_user_iff : (u : User) → (validate_user u ≡ none) ↔ UserIsValid u
unfolding validate_user
validate_user_iff u = iff_trans (err_of-Clean _) (
    iff_trans
      (and_then (add_if-Clean _ _ _ _)
        (and_then (require-Clean _ _ _)
          (and_then (required_max_len-Clean _ _ _ _)
            (and_then (add_if-Clean _ _ _ _) (required_max_len-Clean _ _ _ _) iff_refl) iff_refl)
          iff_refl)
        iff_refl)
      (ground (arith, require-trimmed no_issues (bytes "email") u.email)))

pub record IntegrationIsValid (i : Integration) : Type 0 where
  pub provider : OneOf i.provider all_providers
  pub secret : min_webhook_secret_len ≤ length i.webhook_secret
  pub owned : i.team_id ≢ uuid_nil

pub validate_integration_iff :
    (i : Integration) → (validate_integration i ≡ none) ↔ IntegrationIsValid i
unfolding validate_integration
validate_integration_iff i = iff_trans (err_of-Clean _) (
    iff_trans
      (and_then (add_if-Clean _ _ _ _)
        (and_then (add_if-Clean _ _ _ _) (enum_field-Clean _ _ _ _) iff_refl) iff_refl)
      (ground arith))
