-- ===== src/Repository/Incidents/Calls.antt =====
-- The calls on the table of incidents of backend/internal/repository/incident.go, one after another,
-- each for a team.
use flow_cast.Base.{Text, Time, Result, ◌==◌, if◌then◌else◌, Uuid, Bool, Option, List, [], ◌∷◌}
use flow_cast.Repository.{IncidentPatch, IncidentFilter}
use flow_cast.Repository.Incidents.{
  where_rows, get_by_id, find_by_external_id, update_incident, delete_incident, create_incident,
}
use flow_cast.Repository.Incidents.Listing.{IncidentPage, list_incidents}
use flow_cast.Handlers.Env.{StoreError}
use flow_cast.Models.Incident.{Incident}

-- An operation with what the server does.
pub data Call : Type 0 where
  creates : Option (Uuid × Time) → Incident → Call
  gets : Bool → Uuid → Call
  finds : Bool → Text → Call
  lists : Bool → IncidentFilter → Call
  updates : Option Time → Uuid → IncidentPatch → Call
  deletes : Bool → Uuid → Call

pub data Reply : Type 0 where
  one : Result StoreError Incident → Reply
  page : Result StoreError IncidentPage → Reply
  done : Option StoreError → Reply

abbrev row_reply : Result StoreError Incident × List Incident → Reply × List Incident
row_reply (r, rows) = (one r, rows)

abbrev done_reply : Option StoreError × List Incident → Reply × List Incident
done_reply (e, rows) = (done e, rows)

-- A call for a team, on the rows of all teams; a new incident is one of the team.
unfoldable pub call : Uuid → Call → List Incident → Reply × List Incident
call team (creates reply i) rows =
    row_reply (create_incident reply (record i { team_id = team }) rows)
call team (gets answers id) rows = (one (get_by_id answers team id rows), rows)
call team (finds answers external_id) rows =
    (one (find_by_external_id answers team external_id rows), rows)
call team (lists answers filter) rows = (page (list_incidents answers team filter rows), rows)
call team (updates reply id patch) rows = row_reply (update_incident reply team id patch rows)
call team (deletes answers id) rows = done_reply (delete_incident answers team id rows)

-- The replies that a team gets, where the calls of all teams are carried out in turn.
unfoldable pub replies : Uuid → List (Uuid × Call) → List Incident → List Reply
unfolding call
replies team [] rows = []
replies team ((t, c) ∷ cs) rows =
    let rest = replies team cs (call t c rows).1 in
    if t == team then (call t c rows).0 ∷ rest else rest

-- The calls of one team.
unfoldable pub calls_of : Uuid → List (Uuid × Call) → List (Uuid × Call)
calls_of team [] = []
calls_of team ((t, c) ∷ cs) = if t == team then (t, c) ∷ calls_of team cs else calls_of team cs

-- The rows of one team.
unfoldable pub own : Uuid → List Incident → List Incident
unfolding where_rows
own team rows = where_rows (λ i. i.team_id == team) rows
