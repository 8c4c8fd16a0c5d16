-- ===== src/Repository/Incidents/Pages.antt =====
-- List of backend/internal/repository/incident.go, beside a description of the page that a filter asks
-- for.
pub mod Order
use mathlib.Core.Path.{fun_ext}
use mathlib.Core.List.{append_assoc, append-nil}
use flow_cast.Base.{
  before, sym, ◌∙◌, Option, ok, Text, bytes, text_eq, ℤ, length, take, drop, ◌==◌, Uuid, ℕ, ◌≡◌,
  refl, ap, Bool, true, false, ◌&&◌, none, some, List, [], ◌∷◌, ◌++◌, map,
}
use flow_cast.Repository.{Value, id_value, int_value, bounds, narrow, list_query, IncidentFilter}
use flow_cast.Repository.Incidents.{is_id, scan_incident, where_rows}
use flow_cast.Repository.Incidents.Listing.{
  run_list, list_incidents, column_text, is_one_of, meets_all, is_newer, to_count, IncidentPage,
  scan_page,
}
use flow_cast.Models.Incident.{Incident}
use flow_cast.Models.Sort.{sort_slice}
use flow_cast.Repository.Placeholders.{argument}
use flow_cast.Repository.Updates.{list_query-Asks}

-- No value is asked for, or this one.
abbrev pub accepts : Text → List Text → Bool
accepts t [] = true
accepts t (s ∷ ss) = is_one_of t (s ∷ ss)

-- The incidents of the team that the filter asks for.
abbrev pub is_wanted : Uuid → IncidentFilter → Incident → Bool
is_wanted team f i =
    i.team_id == team
    && (accepts i.status f.status && (accepts i.severity f.severity && accepts i.source f.source))

abbrev pub total_of {ℓ} : {A : Type ℓ} → List A → ℕ → ℕ
total_of [] total = 0
total_of (x ∷ xs) total = total

-- The wanted incidents, newest first, from the offset on and up to the limit. Their number comes with
-- the rows, so a page without a row has none.
abbrev pub page_of : Uuid → IncidentFilter → List Incident → IncidentPage
page_of team f rows =
    let wanted_rows = where_rows (is_wanted team f) rows in
    let shown =
      take (to_count (some (int_value (bounds f).0)))
        (drop (to_count (some (int_value (bounds f).1))) (sort_slice is_newer wanted_rows)) in
    record { incidents = map scan_incident shown; total = total_of shown (length wanted_rows) }

and-true : (b : Bool) → b && true ≡ b
and-true true = refl
and-true false = refl

list_query-meets :
    (team : Uuid) (limit offset : ℤ) (a b c : List Text) (i : Incident)
    → let f : IncidentFilter = record {
      status = a;
      severity = b;
      source = c;
      limit = limit;
      offset = offset;
    } in
      meets_all (list_query team f).args (list_query team f).conditions i
      ≡ accepts i.status a && (accepts i.severity b && accepts i.source c)
unfolding list_query narrow meets_all column_text text_eq bytes
list_query-meets team limit offset [] [] [] i = refl
list_query-meets team limit offset [] [] (z ∷ zs) i = and-true _
list_query-meets team limit offset [] (y ∷ ys) [] i = refl
list_query-meets team limit offset [] (y ∷ ys) (z ∷ zs) i =
    ap (λ x. is_one_of i.severity (y ∷ ys) && x) (and-true _)
list_query-meets team limit offset (x ∷ xs) [] [] i = refl
list_query-meets team limit offset (x ∷ xs) [] (z ∷ zs) i =
    ap (λ t. is_one_of i.status (x ∷ xs) && t) (and-true _)
list_query-meets team limit offset (x ∷ xs) (y ∷ ys) [] i = refl
list_query-meets team limit offset (x ∷ xs) (y ∷ ys) (z ∷ zs) i =
    ap (λ t. is_one_of i.status (x ∷ xs) && (is_one_of i.severity (y ∷ ys) && t)) (and-true _)

or_last : List Incident → ℕ → ℕ → ℕ
or_last [] old n = old
or_last (i ∷ is) old n = n

or_last_self : (is : List Incident) (n : ℕ) → or_last is n n ≡ n
unfolding or_last
or_last_self [] n = refl
or_last_self (i ∷ is) n = refl

scan_page_lem :
    (shown : List Incident) (total : ℕ) (is : List Incident) (n : ℕ)
    → scan_page (record { incidents = shown; total = total }) (map (λ i. (i, n)) is)
      ≡ record { incidents = shown ++ map scan_incident is; total = or_last is total n }
unfolding scan_page or_last
scan_page_lem shown total [] n =
    ap (λ x. record { incidents = x; total = total }) (sym (append-nil shown))
scan_page_lem shown total (i ∷ is) n =
    rw
      (
        scan_page_lem (shown ++ scan_incident i ∷ []) n is n,
        or_last_self is n,
        append_assoc shown (scan_incident i ∷ []) (map scan_incident is),
      )
      refl

or_last_zero : (is : List Incident) (n : ℕ) → or_last is 0 n ≡ total_of is n
unfolding or_last
or_last_zero [] n = refl
or_last_zero (i ∷ is) n = refl

scan_page_all :
    (is : List Incident) (n : ℕ)
    → scan_page (record { incidents = []; total = 0 }) (map (λ i. (i, n)) is)
      ≡ record { incidents = map scan_incident is; total = total_of is n }
scan_page_all is n =
    scan_page_lem [] 0 is n
    ∙ ap (λ x. record { incidents = map scan_incident is; total = x }) (or_last_zero is n)

-- Where the server answers, List has the incidents of the team that the filter asks for, newest first,
-- from the offset on and at most as many as the limit, with their number before paging; a page behind
-- the last incident has the number 0.
pub list_incidents_lem :
    (team : Uuid) (f : IncidentFilter) (rows : List Incident)
    → list_incidents true team f rows ≡ ok (page_of team f rows)
unfolding list_incidents run_list
list_incidents_lem team f rows =
    let q = list_query team f in
    let (_, scoped, limited, from) = (list_query-Asks team f).0 in
    let same_test : (λ i. is_id i.team_id (argument q.args 1) && meets_all q.args q.conditions i)
        ≡ is_wanted team f =
      fun_ext (λ i.
        rw (scoped, list_query-meets team f.limit f.offset f.status f.severity f.source i) refl) in
    rw (same_test, limited, from)
      (ap ok (scan_page_all _ (length (where_rows (is_wanted team f) rows))))
