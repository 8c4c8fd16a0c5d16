-- ===== src/Repository.antt =====
-- The queries that backend/internal/repository/incident.go builds. A query is kept as its parts, each
-- with the number of its placeholder, and printed as the code prints it.
pub mod Placeholders
pub mod Users
pub mod Incidents
pub mod Updates
use flow_cast.Base.{
  true, false, bytes, Time, show_nat, ltb_ℤ, leb_ℤ, ℤ, length, if◌then◌else◌, Uuid, ℕ, ◌+◌, ◌-◌,
  Bool, not, Option, none, some, List, [], ◌∷◌, ◌++◌, pos, Text,
}
use flow_cast.Models.Incident.{Severity, IncidentStatus, Source}
use flow_cast.Strings.{trim_space}

-- A bound parameter.
pub data Value : Type 0 where
  id_value : Uuid → Value
  text_value : Text → Value
  texts_value : List Text → Value
  int_value : ℤ → Value
  time_value : Time → Value

abbrev pub default_incident_limit : ℤ
default_incident_limit = pos 25

abbrev pub max_incident_limit : ℤ
max_incident_limit = pos 100

pub record IncidentFilter : Type 0 where
  pub status : List IncidentStatus
  pub severity : List Severity
  pub source : List Source
  pub limit : ℤ
  pub offset : ℤ

unfoldable pub bounds : IncidentFilter → ℤ × ℤ
bounds f = (
  if leb_ℤ f.limit (pos 0)
      then default_incident_limit
      else if ltb_ℤ max_incident_limit f.limit
      then max_incident_limit
      else f.limit,
  if ltb_ℤ f.offset (pos 0) then pos 0 else f.offset,
)

-- A condition on a column, with the number of its placeholder.
pub record Condition : Type 0 where
  pub column : Text
  pub index : ℕ

abbrev pub print_condition : Condition → Text
print_condition c =
    bytes " AND " ++ (c.column ++ (bytes " = ANY($" ++ (show_nat c.index ++ bytes "::text[])")))

pub record Listing : Type 0 where
  pub conditions : List Condition
  pub args : List Value

-- if len(values) > 0 { … }
unfoldable pub narrow : Listing → Text → List Text → Listing
narrow l column [] = l
narrow l column (v ∷ vs) = record {
  conditions = l.conditions ++ record { column = column; index = length l.args + 1 } ∷ [];
  args = l.args ++ texts_value (v ∷ vs) ∷ [];
}

-- The query of List: its conditions beside that on the team, which is $1, the numbers of the limit and
-- the offset, and the arguments.
pub record ListQuery : Type 0 where
  pub conditions : List Condition
  pub limit_index : ℕ
  pub offset_index : ℕ
  pub args : List Value

unfoldable pub list_query : Uuid → IncidentFilter → ListQuery
unfolding bounds narrow
list_query team f =
    let (limit, offset) = bounds f in
    let l0 : Listing = record { conditions = []; args = id_value team ∷ [] } in
    let l1 = narrow l0 (bytes "status") f.status in
    let l2 = narrow l1 (bytes "severity") f.severity in
    let l3 = narrow l2 (bytes "source") f.source in
    let args = l3.args ++ int_value limit ∷ int_value offset ∷ [] in
    record {
      conditions = l3.conditions;
      limit_index = length args - 1;
      offset_index = length args;
      args = args;
    }

pub record IncidentPatch : Type 0 where
  pub title : Option Text
  pub description : Option Text
  pub severity : Option Severity
  pub status : Option IncidentStatus
  pub resolved_at : Option Time
  pub clear_resolved_at : Bool

-- A column that is set to a placeholder, or to NULL.
pub data Assignment : Type 0 where
  to_placeholder : Text → ℕ → Assignment
  to_null : Text → Assignment

abbrev pub print_assignment : Assignment → Text
print_assignment (to_placeholder column n) = column ++ (bytes " = $" ++ show_nat n)
print_assignment (to_null column) = column ++ bytes " = NULL"

pub record Update : Type 0 where
  pub assignments : List Assignment
  pub args : List Value

-- The closure `set`.
unfoldable pub set_column : Update → Text → Value → Update
set_column u column v = record {
  assignments = u.assignments ++ to_placeholder column (length u.args + 1) ∷ [];
  args = u.args ++ v ∷ [];
}

unfoldable pub set_if_given : Update → Text → Option Value → Update
unfolding set_column
set_if_given u column none = u
set_if_given u column (some v) = set_column u column v

unfoldable pub clear_column : Update → Text → Update
clear_column u column = record u { assignments = u.assignments ++ to_null column ∷ [] }

abbrev pub texted : Option Text → Option Value
texted none = none
texted (some t) = some (text_value t)

abbrev pub timed : Option Time → Option Value
timed none = none
timed (some t) = some (time_value t)

abbrev pub trimmed : Option Text → Option Text
trimmed none = none
trimmed (some t) = some (trim_space t)

-- The switch on resolved_at.
unfoldable pub set_resolved : Update → Bool → Option Time → Update
unfolding clear_column set_if_given
set_resolved u true resolved = clear_column u (bytes "resolved_at")
set_resolved u false resolved = set_if_given u (bytes "resolved_at") (timed resolved)

unfoldable pub update_of : IncidentPatch → Update
unfolding set_if_given set_resolved
update_of p =
    let u0 : Update = record { assignments = []; args = [] } in
    let u1 = set_if_given u0 (bytes "title") (texted (trimmed p.title)) in
    let u2 = set_if_given u1 (bytes "description") (texted p.description) in
    let u3 = set_if_given u2 (bytes "severity") (texted p.severity) in
    let u4 = set_if_given u3 (bytes "status") (texted p.status) in
    set_resolved u4 p.clear_resolved_at p.resolved_at

-- What Update does: it reads the row where nothing changes, or writes with the numbers of the id and
-- the team behind those of the assignments.
pub data UpdatePlan : Type 0 where
  read_row : UpdatePlan
  write_row : List Assignment → ℕ → ℕ → List Value → UpdatePlan

abbrev pub plan_of : Uuid → Uuid → List Assignment → List Value → UpdatePlan
plan_of team id [] given = read_row
plan_of team id (a ∷ more) given =
    let args = given ++ id_value id ∷ id_value team ∷ [] in
    write_row (a ∷ more) (length args - 1) (length args) args

unfoldable pub update_plan : Uuid → Uuid → IncidentPatch → UpdatePlan
unfolding update_of
update_plan team id p = plan_of team id (update_of p).assignments (update_of p).args
