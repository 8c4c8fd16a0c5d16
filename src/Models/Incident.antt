-- ===== src/Models/Incident.antt =====
-- backend/internal/models/incident.go.
pub mod Validity
use flow_cast.Base.{
  ℕ, Bool, true, false, not, ◌&&◌, Option, none, some, List, [], ◌∷◌, Text, bytes, text_eq,
  is_empty, Float32, Time, Duration, pos, is_zero, before, time_sub, Uuid, uuid_nil, ◌==◌,
  if◌then◌else◌, Result,
}
use flow_cast.Models.Enum.{valid_enum, parse_enum, InvalidEnumError}
use flow_cast.Models.Issues.{
  ValidationError, Validator, no_issues, add_if, require, max_len, enum_field, err_of,
}

abbrev pub Severity : Type 0
Severity = Text

abbrev pub all_severities : List Severity
all_severities = bytes "P1" ∷ bytes "P2" ∷ bytes "P3" ∷ bytes "P4" ∷ []

pub severity_valid : Severity → Bool
severity_valid s = valid_enum s all_severities

pub parse_severity : Text → Result InvalidEnumError Severity
parse_severity raw = parse_enum raw (bytes "severity") all_severities

abbrev pub IncidentStatus : Type 0
IncidentStatus = Text

abbrev pub status_resolved : IncidentStatus
status_resolved = bytes "resolved"

abbrev pub all_incident_statuses : List IncidentStatus
all_incident_statuses =
    bytes "open" ∷ bytes "processing" ∷ bytes "analysis_ready" ∷ status_resolved ∷ []

pub status_valid : IncidentStatus → Bool
status_valid s = valid_enum s all_incident_statuses

pub parse_incident_status : Text → Result InvalidEnumError IncidentStatus
parse_incident_status raw = parse_enum raw (bytes "status") all_incident_statuses

abbrev pub Source : Type 0
Source = Text

abbrev pub all_sources : List Source
all_sources =
    bytes "manual" ∷ bytes "pagerduty" ∷ bytes "datadog" ∷ bytes "slack" ∷ bytes "simulation" ∷ []

pub source_valid : Source → Bool
source_valid s = valid_enum s all_sources

pub parse_source : Text → Result InvalidEnumError Source
parse_source raw = parse_enum raw (bytes "source") all_sources

-- SourceForProvider is a conversion between string types.
unfoldable pub source_for_provider : Text → Source
source_for_provider p = p

-- The metadata is kept as its JSON text.
pub record Incident : Type 0 where
  pub id : Uuid
  pub team_id : Uuid
  pub external_id : Option Text
  pub title : Text
  pub description : Text
  pub severity : Severity
  pub status : IncidentStatus
  pub source : Source
  pub started_at : Time
  pub resolved_at : Option Time
  pub embedding : List Float32
  pub metadata : Text
  pub created_at : Time
  pub updated_at : Time

unfoldable pub duration : Incident → Duration × Bool
duration i = elim i.resolved_at [
  | none ↦ (pos 0, false)
  | some resolved_at ↦ (time_sub resolved_at i.started_at, true)
]

unfoldable pub is_open : Incident → Bool
is_open i = not (text_eq i.status status_resolved)

abbrev pub max_incident_title_len : ℕ
max_incident_title_len = 500

-- i.ResolvedAt != nil && i.ResolvedAt.Before(i.StartedAt)
abbrev pub resolved_before_start : Incident → Bool
resolved_before_start i = elim i.resolved_at [
  | none ↦ false
  | some resolved_at ↦ before resolved_at i.started_at
]

-- i.ExternalID != nil && *i.ExternalID == ""
abbrev pub has_empty_external_id : Option Text → Bool
has_empty_external_id none = false
has_empty_external_id (some external_id) = is_empty external_id

unfoldable pub validate_incident : Incident → Option ValidationError
validate_incident i =
    let (v1, title) = require no_issues (bytes "title") i.title in
    let v2 = max_len v1 (bytes "title") title max_incident_title_len in
    let v3 = enum_field v2 (bytes "severity") i.severity all_severities in
    let v4 = enum_field v3 (bytes "status") i.status all_incident_statuses in
    let v5 = enum_field v4 (bytes "source") i.source all_sources in
    let v6 = add_if (i.team_id == uuid_nil) v5 (bytes "team_id") (bytes "is required") in
    let v7 = add_if (is_zero i.started_at) v6 (bytes "started_at") (bytes "is required") in
    let v8 =
      add_if (resolved_before_start i) v7 (bytes "resolved_at")
        (bytes "must not be before started_at") in
    let v9 =
      add_if (has_empty_external_id i.external_id) v8 (bytes "external_id")
        (bytes "must be absent rather than empty") in
    err_of v9
