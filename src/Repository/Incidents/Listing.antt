-- ===== src/Repository/Incidents/Listing.antt =====
-- List of backend/internal/repository/incident.go on the table of incidents.
use flow_cast.Base.{
  Text, bytes, text_eq, ltb_ℤ, length, take, drop, Result, ltb, if◌then◌else◌, Uuid, ℕ, Bool, true,
  false, ◌&&◌, ◌||◌, Option, some, List, [], ◌∷◌, ◌++◌, map, pos, ok, err,
}
use flow_cast.Repository.{
  Value, texts_value, int_value, Condition, ListQuery, list_query, IncidentFilter,
}
use flow_cast.Repository.Incidents.{where_rows, scan_incident, is_id}
use flow_cast.Handlers.Env.{StoreError, other_error}
use flow_cast.Models.Incident.{Incident}
use flow_cast.Models.Sort.{sort_slice}
use flow_cast.Repository.Placeholders.{argument}

-- The text column of a condition.
unfoldable pub column_text : Text → Incident → Text
column_text column i =
    if text_eq column (bytes "status")
    then i.status
    else if text_eq column (bytes "severity")
    then i.severity
    else i.source

unfoldable pub is_one_of : Text → List Text → Bool
is_one_of t [] = false
is_one_of t (s ∷ more) = text_eq t s || is_one_of t more

-- column = ANY($n::text[])
abbrev pub meets_value : Text → Option Value → Bool
meets_value t (some (texts_value ts)) = is_one_of t ts
meets_value t _ = false

unfoldable pub meets_all : List Value → List Condition → Incident → Bool
unfolding is_one_of column_text
meets_all args [] i = true
meets_all args (c ∷ cs) i =
    meets_value (column_text c.column i) (argument args c.index) && meets_all args cs i

-- ORDER BY started_at DESC, id DESC
unfoldable pub is_newer : Incident → Incident → Bool
is_newer a b =
    if ltb_ℤ b.started_at a.started_at
    then true
    else if ltb_ℤ a.started_at b.started_at
    then false
    else ltb b.id a.id

abbrev pub to_count : Option Value → ℕ
to_count (some (int_value (pos n))) = n
to_count _ = 0

-- The rows of a page, each with the count of all the rows that match.
unfoldable pub run_list : ListQuery → List Incident → List (Incident × ℕ)
unfolding where_rows meets_all is_newer
run_list q rows =
    let matching =
      where_rows (λ i. is_id i.team_id (argument q.args 1) && meets_all q.args q.conditions i)
        rows in
    map (λ i. (i, length matching))
      (take (to_count (argument q.args q.limit_index))
        (drop (to_count (argument q.args q.offset_index)) (sort_slice is_newer matching)))

pub record IncidentPage : Type 0 where
  pub incidents : List Incident
  pub total : ℕ

-- for rows.Next() { … }
unfoldable pub scan_page : IncidentPage → List (Incident × ℕ) → IncidentPage
unfolding scan_incident
scan_page page [] = page
scan_page page ((i, total) ∷ rows) =
    scan_page (record { incidents = page.incidents ++ scan_incident i ∷ []; total = total }) rows

unfoldable pub list_incidents :
    Bool → Uuid → IncidentFilter → List Incident → Result StoreError IncidentPage
unfolding run_list scan_page
list_incidents answers team filter rows =
    if answers
    then ok
        (scan_page (record { incidents = []; total = 0 }) (run_list (list_query team filter) rows))
    else err other_error
