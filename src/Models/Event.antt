-- ===== src/Models/Event.antt =====
-- backend/internal/models/event.go. UUID.String is a library's, and a parameter of the sort.
pub mod Validity
pub mod Order
use flow_cast.Base.{
  Text, bytes, text_eq, text_ltb, Time, is_zero, before, equal, ltb_ℤ, ℤ, Result, ◌==◌,
  if◌then◌else◌, Uuid, uuid_nil, ℕ, ◌<◌, Bool, false, not, ◌&&◌, ◌||◌, Option, none, some, List, [],
  ◌∷◌, pos,
}
use flow_cast.Models.Enum.{valid_enum, parse_enum, InvalidEnumError}
use flow_cast.Models.Incident.{Source, all_sources}
use flow_cast.Models.Sort.{sort_slice}
use flow_cast.Models.Issues.{
  ValidationError, no_issues, add_if, require, max_len, enum_field, err_of,
}

abbrev pub Classification : Type 0
Classification = Text

abbrev pub class_root_cause : Classification
class_root_cause = bytes "ROOT_CAUSE"

abbrev pub class_contributing_factor : Classification
class_contributing_factor = bytes "CONTRIBUTING_FACTOR"

abbrev pub all_classifications : List Classification
all_classifications =
    class_root_cause
    ∷ class_contributing_factor
    ∷ bytes "SYMPTOM"
    ∷ bytes "MITIGATION"
    ∷ bytes "RECOVERY"
    ∷ bytes "NOISE"
    ∷ bytes "UNKNOWN"
    ∷ []

pub classification_valid : Classification → Bool
classification_valid c = valid_enum c all_classifications

pub parse_classification : Text → Result InvalidEnumError Classification
parse_classification raw = parse_enum raw (bytes "classification") all_classifications

unfoldable pub is_causal : Classification → Bool
is_causal c = text_eq c class_root_cause || text_eq c class_contributing_factor

pub record Event : Type 0 where
  pub id : Uuid
  pub incident_id : Uuid
  pub source : Source
  pub event_type : Text
  pub title : Text
  pub description : Text
  pub service : Text
  pub occurred_at : Time
  pub raw_payload : Text
  pub classification : Classification
  pub causal_rank : Option ℤ
  pub created_at : Time

abbrev pub max_event_type_len : ℕ
max_event_type_len = 100

abbrev pub max_event_title : ℕ
max_event_title = 500

-- rank != nil && *rank < 1
abbrev pub rank_below_one : Option ℤ → Bool
rank_below_one none = false
rank_below_one (some rank) = ltb_ℤ rank (pos 1)

unfoldable pub validate_event : Event → Option ValidationError
validate_event e =
    let (v1, event_type) = require no_issues (bytes "event_type") e.event_type in
    let v2 = max_len v1 (bytes "event_type") event_type max_event_type_len in
    let (v3, title) = require v2 (bytes "title") e.title in
    let v4 = max_len v3 (bytes "title") title max_event_title in
    let v5 = enum_field v4 (bytes "source") e.source all_sources in
    let v6 = enum_field v5 (bytes "classification") e.classification all_classifications in
    let v7 = add_if (e.incident_id == uuid_nil) v6 (bytes "incident_id") (bytes "is required") in
    let v8 = add_if (is_zero e.occurred_at) v7 (bytes "occurred_at") (bytes "is required") in
    err_of (
      add_if (rank_below_one e.causal_rank) v8 (bytes "causal_rank")
        (bytes "must be positive when set"))

module _ (uuid_string : Uuid → Text) where
  pub event_less : Event → Event → Bool
  event_less a b =
      if not (equal a.occurred_at b.occurred_at)
      then before a.occurred_at b.occurred_at
      else text_ltb (uuid_string a.id) (uuid_string b.id)

  unfoldable pub sort_events_by_time : List Event → List Event
  unfolding event_less
  sort_events_by_time events = sort_slice event_less events
