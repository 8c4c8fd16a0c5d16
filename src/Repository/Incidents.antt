-- ===== src/Repository/Incidents.antt =====
-- The operations of backend/internal/repository/incident.go on the table of incidents, a list of rows.
-- The statements are carried out as PostgreSQL reads them; whether it answers at all, the id and the
-- times of new rows are arguments. A row is read without its embedding, as the code reads it.
pub mod Listing
pub mod Patching
pub mod Rows
pub mod Calls
pub mod Isolation
pub mod Pages
pub mod Delivery
use flow_cast.Base.{
  Text, bytes, text_eq, Time, ltb_ℤ, length, take, drop, Result, ltb, ◌==◌, if◌then◌else◌, Uuid, ℕ,
  Bool, true, false, not, ◌&&◌, ◌||◌, Option, none, some, List, [], ◌∷◌, ◌++◌, map, pos, ok, err,
}
use flow_cast.Repository.{
  Value, texts_value, text_value, int_value, time_value, id_value, Condition, ListQuery, list_query,
  IncidentFilter, IncidentPatch, Assignment, to_placeholder, to_null, UpdatePlan, read_row,
  write_row, update_plan,
}
use flow_cast.Repository.Placeholders.{argument}
use flow_cast.Models.Incident.{Incident}
use flow_cast.Models.Sort.{sort_slice}
use flow_cast.Handlers.Env.{StoreError, not_found, conflict, other_error}
use flow_cast.Strings.{trim_space}

-- SELECT … WHERE
unfoldable pub where_rows : (Incident → Bool) → List Incident → List Incident
where_rows test [] = []
where_rows test (i ∷ is) = if test i then i ∷ where_rows test is else where_rows test is

-- scanIncident reads the columns of incidentColumns.
unfoldable pub scan_incident : Incident → Incident
scan_incident i = record i { embedding = [] }

-- The one row of a query, which the server may not answer.
unfoldable pub first_row : Bool → List Incident → Result StoreError Incident
unfolding scan_incident
first_row false is = err other_error
first_row true [] = err not_found
first_row true (i ∷ is) = ok (scan_incident i)

abbrev pub same_external_id : Option Text → Option Text → Bool
same_external_id none o = false
same_external_id (some a) none = false
same_external_id (some a) (some b) = text_eq a b

abbrev pub has_key : Uuid → Uuid → Incident → Bool
has_key team id i = i.id == id && i.team_id == team

abbrev pub has_external_id : Uuid → Text → Incident → Bool
has_external_id team external_id i =
    i.team_id == team && same_external_id i.external_id (some external_id)

unfoldable pub get_by_id : Bool → Uuid → Uuid → List Incident → Result StoreError Incident
unfolding where_rows first_row
get_by_id answers team id rows = first_row answers (where_rows (has_key team id) rows)

unfoldable pub find_by_external_id : Bool → Uuid → Text → List Incident → Result StoreError Incident
unfolding where_rows first_row
find_by_external_id answers team external_id rows =
    first_row answers (where_rows (has_external_id team external_id) rows)

-- COALESCE($10, '{}'), where the text of no metadata is empty
abbrev pub metadata_or_empty : Text → Text
metadata_or_empty [] = bytes "{}"
metadata_or_empty (b ∷ s) = b ∷ s

abbrev pub new_row : Uuid → Time → Incident → Incident
new_row id now i = record i {
  id = id;
  title = trim_space i.title;
  embedding = [];
  metadata = metadata_or_empty i.metadata;
  created_at = now;
  updated_at = now;
}

-- The unique index on (team_id, external_id), which leaves rows without an external id alone.
unfoldable pub is_duplicate : Incident → List Incident → Bool
is_duplicate i [] = false
is_duplicate i (r ∷ rows) =
    (r.team_id == i.team_id && same_external_id r.external_id i.external_id) || is_duplicate i rows

-- The id and the time of the new row, or none where the server refuses the row; a drawn id is taken to be
-- new.
unfoldable pub create_incident :
    Option (Uuid × Time) → Incident → List Incident → Result StoreError Incident × List Incident
unfolding scan_incident is_duplicate
create_incident none i rows = (err other_error, rows)
create_incident (some (id, now)) i rows =
    if is_duplicate i rows
    then (err conflict, rows)
    else (ok (scan_incident (new_row id now i)), new_row id now i ∷ rows)

-- team_id = $1
abbrev pub is_id : Uuid → Option Value → Bool
is_id team (some (id_value t)) = team == t
is_id team _ = false

-- SET column = value, where a value that is none is NULL
unfoldable pub write_column : Text → Option Value → Incident → Incident
write_column column (some (text_value t)) i =
    if text_eq column (bytes "title")
    then record i { title = t }
    else if text_eq column (bytes "description")
    then record i { description = t }
    else if text_eq column (bytes "severity")
    then record i { severity = t }
    else if text_eq column (bytes "status")
    then record i { status = t }
    else i
write_column column (some (time_value t)) i =
    if text_eq column (bytes "resolved_at") then record i { resolved_at = some t } else i
write_column column none i =
    if text_eq column (bytes "resolved_at") then record i { resolved_at = none } else i
write_column column (some _) i = i

-- A placeholder without an argument is refused before the statement runs.
abbrev pub write_argument : Text → Option Value → Incident → Incident
write_argument column none i = i
write_argument column (some v) i = write_column column (some v) i

unfoldable pub assign_all : List Value → List Assignment → Incident → Incident
unfolding write_column
assign_all args [] i = i
assign_all args (to_placeholder column n ∷ more) i =
    assign_all args more (write_argument column (argument args n) i)
assign_all args (to_null column ∷ more) i = assign_all args more (write_column column none i)

-- UPDATE … WHERE, row by row; the trigger sets updated_at.
unfoldable pub update_rows :
    (Incident → Bool) → (Incident → Incident) → List Incident → List Incident
update_rows test change [] = []
update_rows test change (i ∷ is) = (if test i then change i else i) ∷ update_rows test change is

abbrev pub stamped : Time → Incident → Incident
stamped now i = record i { updated_at = now }

-- A statement that writes: the time it is carried out, or none where the server refuses it.
unfoldable pub run_update :
    Option Time
    → UpdatePlan
    → Uuid
    → Uuid
    → List Incident
    → Result StoreError Incident × List Incident
unfolding get_by_id assign_all update_rows
run_update none plan team id rows = (err other_error, rows)
run_update (some now) read_row team id rows = (get_by_id true team id rows, rows)
run_update (some now) (write_row assignments id_index team_index args) team id rows =
    let test = λ (i : Incident).
      is_id i.id (argument args id_index) && is_id i.team_id (argument args team_index) in
    let change = λ (i : Incident). stamped now (assign_all args assignments i) in
    (first_row true (map change (where_rows test rows)), update_rows test change rows)

unfoldable pub update_incident :
    Option Time
    → Uuid
    → Uuid
    → IncidentPatch
    → List Incident
    → Result StoreError Incident × List Incident
unfolding run_update
update_incident reply team id patch rows = run_update reply (update_plan team id patch) team id rows

-- DELETE … WHERE
abbrev pub is_none_deleted : List Incident → Option StoreError
is_none_deleted [] = some not_found
is_none_deleted (i ∷ is) = none

unfoldable pub delete_incident :
    Bool → Uuid → Uuid → List Incident → Option StoreError × List Incident
unfolding where_rows
delete_incident false team id rows = (some other_error, rows)
delete_incident true team id rows = (
  is_none_deleted (where_rows (has_key team id) rows),
  where_rows (λ i. not (has_key team id i)) rows,
)
