-- ===== src/Repository/Incidents/Delivery.antt =====
-- Incidents that a source system delivers more than once, in the table of
-- backend/internal/repository/incident.go.
use flow_cast.Base.{
  Text, text_eq_refl, Time, Bool-cases, Uuid, ◌≡◌, refl, inl, inr, true, some, List, ◌∷◌, arith, ok,
  err,
}
use flow_cast.Repository.Incidents.{
  scan_incident, first_row, find_by_external_id, new_row, where_rows, is_duplicate, create_incident,
}
use flow_cast.Handlers.Env.{conflict}
use flow_cast.Models.Incident.{Incident}

module _ (i j : Incident) (external_id : Text) (named : i.external_id ≡ some external_id)
    (again_named : j.external_id ≡ some external_id) (same_team : j.team_id ≡ i.team_id) where
  is_duplicate-new_row :
      (id : Uuid) (now : Time) (rows : List Incident)
      → is_duplicate j (new_row id now i ∷ rows) ≡ true
  unfolding is_duplicate
  is_duplicate-new_row id now rows =
      rw (named, again_named) (ground (arith, text_eq_refl external_id))

  find_by_external_id-new_row :
      (id : Uuid) (now : Time) (rows : List Incident)
      → find_by_external_id true j.team_id external_id (new_row id now i ∷ rows)
        ≡ ok (scan_incident (new_row id now i))
  unfolding find_by_external_id where_rows first_row
  find_by_external_id-new_row id now rows = rw named (ground (arith, text_eq_refl external_id))

  redelivered :
      (id again : Uuid) (now later : Time) (rows : List Incident)
      → (create_incident (some (again, later)) j (new_row id now i ∷ rows)
          ≡ (err conflict, new_row id now i ∷ rows))
        × (find_by_external_id true j.team_id external_id (new_row id now i ∷ rows)
            ≡ ok (scan_incident (new_row id now i)))
  unfolding create_incident
  redelivered id again now later rows =
      (rw (is_duplicate-new_row id now rows) refl, find_by_external_id-new_row id now rows)

create_incident-ok :
    (id : Uuid) (now : Time) (i made : Incident) (rows after : List Incident)
    → create_incident (some (id, now)) i rows ≡ (ok made, after)
    → (made ≡ scan_incident (new_row id now i)) × (after ≡ new_row id now i ∷ rows)
unfolding create_incident
create_incident-ok id now i made rows after h = elim (Bool-cases (is_duplicate i rows)) [
  | inl old ↦ absurd (ground arith)
  | inr new ↦ let h' = rw new at h in (cc h', cc h')
]

-- An incident that went in with an external id is found under it by its team, and a second one of the
-- team with that external id is refused as a conflict and changes nothing.
pub create_incident-redelivered :
    (id again : Uuid) (now later : Time) (i j made : Incident) (external_id : Text)
    (rows after : List Incident)
    → i.external_id ≡ some external_id
    → j.external_id ≡ some external_id
    → j.team_id ≡ i.team_id
    → create_incident (some (id, now)) i rows ≡ (ok made, after)
    → (create_incident (some (again, later)) j after ≡ (err conflict, after))
      × (find_by_external_id true j.team_id external_id after ≡ ok made)
create_incident-redelivered id again now later i j made external_id rows after e f t h =
    let (same_row, kept_rows) = create_incident-ok id now i made rows after h in
    rw (same_row, kept_rows) (redelivered i j external_id e f t id again now later rows)
