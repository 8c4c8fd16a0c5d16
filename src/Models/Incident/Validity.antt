-- ===== src/Models/Incident/Validity.antt =====
-- What Validate of an incident accepts.
use flow_cast.Base.{
  -ℤ_parts, true, time_sub, iff_refl, and_then, iff_trans, false, ◌≡◌, ◌≢◌, ◌≤◌, ◌↔◌, Option, none,
  some, [], Text, length, Time, pos, ◌≤ℤ◌, uuid_nil, arith, OneOf,
}
use flow_cast.Strings.{trim_space}
use flow_cast.Models.Issues.Clean.{
  required_max_len-Clean, add_if-Clean, enum_field-Clean, err_of-Clean,
}
use flow_cast.Models.Incident.{
  duration, Incident, all_severities, all_incident_statuses, all_sources, max_incident_title_len,
  resolved_before_start, has_empty_external_id, validate_incident,
}

abbrev pub NotBefore : Time → Option Time → Type 0
NotBefore started none = Unit
NotBefore started (some resolved) = started ≤ℤ resolved

-- An incident as the database is meant to hold it.
pub record IncidentIsValid (i : Incident) : Type 0 where
  pub titled : trim_space i.title ≢ []
  pub title_fits : length (trim_space i.title) ≤ max_incident_title_len
  pub severity : OneOf i.severity all_severities
  pub status : OneOf i.status all_incident_statuses
  pub source : OneOf i.source all_sources
  pub owned : i.team_id ≢ uuid_nil
  pub started : i.started_at ≢ pos 0
  pub ordered : NotBefore i.started_at i.resolved_at
  pub external : i.external_id ≢ some []

ordered_iff :
    (i : Incident) → (resolved_before_start i ≡ false) ↔ NotBefore i.started_at i.resolved_at
ordered_iff i = ground arith

external_iff : (o : Option Text) → (has_empty_external_id o ≡ false) ↔ (o ≢ some [])
external_iff none = ground arith
external_iff (some s) = ground arith

-- Validate of an incident reports no error exactly if the trimmed title is not empty and has at
-- most 500 bytes, severity, status and source are known values, the team and the start are set, the
-- end is absent or not before the start, and the external id is absent or not empty.
pub validate_incident_iff : (i : Incident) → (validate_incident i ≡ none) ↔ IncidentIsValid i
unfolding validate_incident
validate_incident_iff i = iff_trans (err_of-Clean _) (
    iff_trans
      (and_then (add_if-Clean _ _ _ _)
        (and_then (add_if-Clean _ _ _ _)
          (and_then (add_if-Clean _ _ _ _)
            (and_then (add_if-Clean _ _ _ _)
              (and_then (enum_field-Clean _ _ _ _)
                (and_then (enum_field-Clean _ _ _ _)
                  (and_then (enum_field-Clean _ _ _ _) (required_max_len-Clean _ _ _ _) iff_refl)
                  iff_refl)
                iff_refl)
              iff_refl)
            iff_refl)
          (ordered_iff i))
        (external_iff i.external_id))
      (ground arith))

-- An incident that Validate accepts and that is resolved has a duration, and it is not negative.
pub duration-nonneg :
    (i : Incident) (resolved : Time)
    → validate_incident i ≡ none
    → i.resolved_at ≡ some resolved
    → ((duration i).1 ≡ true) × (pos 0 ≤ℤ (duration i).0)
unfolding duration time_sub
duration-nonneg i resolved h r =
    let v = (validate_incident_iff i).0 h in
    let ordered : i.started_at ≤ℤ resolved = rw r at v.ordered in
    ground (arith, -ℤ_parts resolved i.started_at)
