-- ===== src/Examples/Incidents.antt =====
-- Incidents of two teams in one table, and calls on them.
use flow_cast.Examples.Records.{outage}
use flow_cast.Base.{
  bytes, text_eq, Uuid, ◌≡◌, refl, true, false, none, some, List, [], ◌∷◌, arith, pos, ok, err,
}
use mathlib.Core.List.Perm
use flow_cast.Repository.{list_query, update_plan, IncidentPatch, IncidentFilter}
use flow_cast.Repository.Incidents.{find_by_external_id, new_row, update_incident, create_incident}
use flow_cast.Repository.Incidents.Listing.{list_incidents}
use flow_cast.Repository.Incidents.Calls.{
  calls_of, own, Call, gets, deletes, lists, updates, replies,
}
use flow_cast.Handlers.Env.{not_found, conflict}
use flow_cast.Models.Incident.{Incident}
use flow_cast.Models.Sort.{sort_slice}
use flow_cast.Repository.Incidents.Delivery.{create_incident-redelivered}
use flow_cast.Repository.Incidents.Isolation.{replies-isolated}
use flow_cast.Repository.Incidents.Pages.{page_of, list_incidents_lem}
use flow_cast.Repository.Incidents.Pages.Order.{list_incidents-deterministic}
use flow_cast.Repository.Incidents.Patching.{update_reference, update_incident_lem}
use flow_cast.Strings.{trim_space}

-- Two open incidents of team 2 that start together, and one of team 3.
abbrev first : Incident
first = record outage {
  id = 5;
  external_id = some (bytes "PD-5");
  status = bytes "open";
  resolved_at = none;
}

abbrev second : Incident
second = record first { id = 6; external_id = none; title = bytes "Slow" }

abbrev theirs : Incident
theirs = record first { id = 7; team_id = 3 }

abbrev rows : List Incident
rows = first ∷ second ∷ theirs ∷ []

abbrev wanted_ones : IncidentFilter
wanted_ones = record {
  status = bytes "open" ∷ [];
  severity = [];
  source = [];
  limit = pos 0;
  offset = pos 0;
}

abbrev retitled : IncidentPatch
retitled = record {
  title = some (bytes " API slow ");
  description = none;
  severity = none;
  status = none;
  resolved_at = none;
  clear_resolved_at = false;
}

listed :
    list_incidents true 2 wanted_ones rows
    ≡ ok (record { incidents = second ∷ first ∷ []; total = 2 })
unfolding list_incidents list_query text_eq bytes sort_slice
listed = refl

-- The third page of one incident each has no number.
listed_behind :
    list_incidents true 2 (record wanted_ones { limit = pos 1; offset = pos 2 }) rows
    ≡ ok (record { incidents = []; total = 0 })
unfolding list_incidents list_query text_eq bytes sort_slice
listed_behind = refl

update_incident_lem_example :
    update_incident (some (pos 90)) 2 5 retitled rows ≡ update_reference (pos 90) 2 5 retitled rows
update_incident_lem_example = update_incident_lem (pos 90) 2 5 retitled rows

updated :
    (update_incident (some (pos 90)) 2 5 retitled rows).0
    ≡ ok (record first { title = bytes "API slow"; updated_at = pos 90 })
unfolding update_incident update_plan text_eq bytes trim_space
updated = refl

updated_elsewhere : update_incident (some (pos 90)) 2 7 retitled rows ≡ (err not_found, rows)
unfolding update_incident update_plan text_eq bytes trim_space
updated_elsewhere = refl

-- Team 3 deletes, and tries to delete an incident of team 2, between the calls of team 2.
abbrev calls : List (Uuid × Call)
calls =
    (2, gets true 5)
    ∷ (3, deletes true 7)
    ∷ (2, updates (some (pos 90)) 6 retitled)
    ∷ (3, deletes true 5)
    ∷ (2, lists true wanted_ones)
    ∷ []

replies-isolated_example : replies 2 calls rows ≡ replies 2 (calls_of 2 calls) (own 2 rows)
replies-isolated_example = replies-isolated 2 calls rows

list_incidents_lem_example :
    list_incidents true 2 wanted_ones rows ≡ ok (page_of 2 wanted_ones rows)
list_incidents_lem_example = list_incidents_lem 2 wanted_ones rows

list_incidents-deterministic_example :
    list_incidents true 2 wanted_ones (first ∷ second ∷ [])
    ≡ list_incidents true 2 wanted_ones (second ∷ first ∷ [])
list_incidents-deterministic_example =
    list_incidents-deterministic 2 wanted_ones (first ∷ second ∷ []) (second ∷ first ∷ [])
      (Perm.swap second first []) ((λ e. omega arith, tt), (tt, tt))

went_in :
    create_incident (some (5, pos 20)) first []
    ≡ (ok (new_row 5 (pos 20) first), new_row 5 (pos 20) first ∷ [])
unfolding create_incident
went_in = refl

create_incident-redelivered_example :
    (create_incident (some (8, pos 30)) first (new_row 5 (pos 20) first ∷ [])
      ≡ (err conflict, new_row 5 (pos 20) first ∷ []))
    × (find_by_external_id true 2 (bytes "PD-5") (new_row 5 (pos 20) first ∷ [])
        ≡ ok (new_row 5 (pos 20) first))
create_incident-redelivered_example =
    create_incident-redelivered 5 8 (pos 20) (pos 30) first first (new_row 5 (pos 20) first)
      (bytes "PD-5") [] (new_row 5 (pos 20) first ∷ []) refl refl refl went_in
