-- ===== src/Models/Postmortem.antt =====
-- backend/internal/models/postmortem.go.
pub mod Validity
use flow_cast.Base.{
  Text, bytes, is_empty, Time, ◌==◌, if◌then◌else◌, Uuid, uuid_nil, ◌&&◌, Option, List, [], ◌∷◌,
}
use flow_cast.Models.Issues.{ValidationError, Validator, no_issues, add, add_if, err_of}

pub record ActionItem : Type 0 where
  pub description : Text
  pub owner : Text

pub record Postmortem : Type 0 where
  pub id : Uuid
  pub incident_id : Uuid
  pub executive_summary : Text
  pub impact : Text
  pub root_cause : Text
  pub timeline_md : Text
  pub contributing_factors : List Text
  pub action_items : List ActionItem
  pub uncertainties : List Text
  pub generated_at : Time
  pub updated_at : Time

-- The loop over the action items, which ends at the first one with no description.
unfoldable pub check_items : Validator → List ActionItem → Validator
unfolding add
check_items v [] = v
check_items v (item ∷ items) =
    if is_empty item.description
    then add v (bytes "action_items") (bytes "every action item needs a description")
    else check_items v items

unfoldable pub validate_postmortem : Postmortem → Option ValidationError
validate_postmortem p =
    let v1 =
      add_if (p.incident_id == uuid_nil) no_issues (bytes "incident_id") (bytes "is required") in
    let v2 =
      add_if (is_empty p.executive_summary && is_empty p.root_cause && is_empty p.impact) v1
        (bytes "executive_summary") (bytes "at least one section must be filled in") in
    err_of (check_items v2 p.action_items)
