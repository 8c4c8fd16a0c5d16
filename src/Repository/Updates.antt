-- ===== src/Repository/Updates.antt =====
-- What the queries of backend/internal/repository/incident.go ask for.
use mathlib.Core.List.{append_assoc}
use flow_cast.Base.{
  ◌≤ℤ◌, ℤ, suc, ◌-◌, pos, bytes, Time, length, length-append, Uuid, ◌+◌, ◌≡◌, refl, sym, ap, subst,
  ◌≢◌, Bool, true, false, Option, none, some, List, [], ◌∷◌, ◌++◌, arith, Text,
}
use flow_cast.Repository.{
  texts_value, int_value, max_incident_limit, IncidentFilter, bounds, Condition, narrow, ListQuery,
  list_query, update_plan, Value, id_value, IncidentPatch, Assignment, to_placeholder, Update,
  set_column, set_if_given, clear_column, texted, timed, trimmed, set_resolved, update_of,
  UpdatePlan, read_row, write_row, plan_of,
}
use flow_cast.Repository.Placeholders.{
  argument, get_elem?-last, SetsAll, SetsAll-append, SetsAll-snoc,
}

abbrev Holds : Update → List (Text × Option Value) → Type 0
Holds u cs = SetsAll u.args u.assignments cs

-- A change of a column, if a value is given.
abbrev pub given : Text → Option Value → List (Text × Option Value)
given column none = []
given column (some v) = (column, some v) ∷ []

append-nil : (cs : List (Text × Option Value)) → cs ++ [] ≡ cs
append-nil [] = refl
append-nil (c ∷ cs) = ap (λ x. c ∷ x) (append-nil cs)

argument-length :
    (xs : List Value) (v : Value) (ys : List Value)
    → argument (xs ++ v ∷ ys) (length xs + 1) ≡ some v
argument-length xs v ys =
    let next : suc (length xs) ≡ length xs + 1 = omega arith in
    subst (λ n. argument (xs ++ v ∷ ys) n ≡ some v) next (get_elem?-last xs v ys)

argument-end :
    (xs : List Value) (v : Value) → argument (xs ++ v ∷ []) (length (xs ++ v ∷ [])) ≡ some v
argument-end xs v =
    subst (λ n. argument (xs ++ v ∷ []) n ≡ some v) (sym (length-append xs (v ∷ [])))
      (argument-length xs v [])

set_if_given-Holds :
    (u : Update) (column : Text) (o : Option Value) (cs : List (Text × Option Value))
    → Holds u cs
    → Holds (set_if_given u column o) (cs ++ given column o)
unfolding set_if_given set_column
set_if_given-Holds u column none cs h = subst (λ x. Holds u x) (sym (append-nil cs)) h
set_if_given-Holds u column (some v) cs h =
    SetsAll-snoc _ u.assignments cs (to_placeholder column (length u.args + 1)) (column, some v)
      (SetsAll-append u.args (v ∷ []) u.assignments cs h) (refl, argument-length u.args v [])

-- What becomes of the end of an incident: it is removed, set, or left.
abbrev pub resolution : Bool → Option Time → List (Text × Option Value)
resolution true resolved = (bytes "resolved_at", none) ∷ []
resolution false resolved = given (bytes "resolved_at") (timed resolved)

set_resolved-Holds :
    (u : Update) (clear : Bool) (resolved : Option Time) (cs : List (Text × Option Value))
    → Holds u cs
    → Holds (set_resolved u clear resolved) (cs ++ resolution clear resolved)
unfolding set_resolved clear_column
set_resolved-Holds u true resolved cs h = SetsAll-snoc u.args u.assignments cs _ _ h refl
set_resolved-Holds u false resolved cs h = set_if_given-Holds u _ (timed resolved) cs h

-- The columns that a patch changes, in order, with their new values.
abbrev pub changes : IncidentPatch → List (Text × Option Value)
changes p =
    ((((given (bytes "title") (texted (trimmed p.title)))
          ++ given (bytes "description") (texted p.description))
        ++ given (bytes "severity") (texted p.severity))
      ++ given (bytes "status") (texted p.status))
    ++ resolution p.clear_resolved_at p.resolved_at

update_of-Holds : (p : IncidentPatch) → Holds (update_of p) (changes p)
unfolding update_of
update_of-Holds p = set_resolved-Holds _ p.clear_resolved_at p.resolved_at _ (
    set_if_given-Holds _ _ (texted p.status) _ (
      set_if_given-Holds _ _ (texted p.severity) _ (
        set_if_given-Holds _ _ (texted p.description) _ (
          set_if_given-Holds (record { assignments = []; args = [] }) _ (texted (trimmed p.title))
            [] tt))))

-- What a plan does, with its placeholders resolved.
abbrev pub Does : Uuid → Uuid → List (Text × Option Value) → UpdatePlan → Type 0
Does team id cs read_row = cs ≡ []
Does team id cs (write_row assignments id_index team_index args) =
    (cs ≢ [])
    × SetsAll args assignments cs
    × (argument args id_index ≡ some (id_value id))
    × (argument args team_index ≡ some (id_value team))

id_number :
    (args : List Value) (id team : Uuid)
    → length args + 1 ≡ length (args ++ id_value id ∷ id_value team ∷ []) - 1
id_number args id team = omega (arith, length-append args (id_value id ∷ id_value team ∷ []))

plan_of-Does :
    (team id : Uuid) (assignments : List Assignment) (args : List Value)
    (cs : List (Text × Option Value))
    → SetsAll args assignments cs
    → Does team id cs (plan_of team id assignments args)
plan_of-Does team id [] args [] h = refl
plan_of-Does team id [] args (c ∷ cs) h = absurd h
plan_of-Does team id (a ∷ more) args [] h = absurd h
plan_of-Does team id (a ∷ more) args (c ∷ cs) h = (
  λ e. cc e,
  SetsAll-append args (id_value id ∷ id_value team ∷ []) (a ∷ more) (c ∷ cs) h,
  subst (λ n. argument (args ++ id_value id ∷ id_value team ∷ []) n ≡ some (id_value id))
      (id_number args id team) (argument-length args (id_value id) (id_value team ∷ [])),
  subst (λ zs. argument zs (length zs) ≡ some (id_value team))
      (append_assoc args (id_value id ∷ []) (id_value team ∷ []))
      (argument-end (args ++ id_value id ∷ []) (id_value team)),
)

-- Update of an incident sets exactly the columns that the patch changes, in order, each with the value
-- of the patch behind its placeholder, the title trimmed, and has the id and the team behind the two
-- placeholders of its condition; it reads the row where the patch changes nothing, and only there.
pub update_plan-Does :
    (team id : Uuid) (p : IncidentPatch) → Does team id (changes p) (update_plan team id p)
unfolding update_plan
update_plan-Does team id p =
    plan_of-Does team id (update_of p).assignments (update_of p).args (changes p)
      (update_of-Holds p)

-- A condition with its placeholder resolved.
abbrev pub resolve : List Value → List Condition → List (Text × Option Value)
resolve args [] = []
resolve args (c ∷ cs) = (c.column, argument args c.index) ∷ resolve args cs

-- The condition that a part of a filter asks for, if it names a value.
abbrev pub wanted : Text → List Text → List (Text × Option Value)
wanted column [] = []
wanted column (v ∷ vs) = (column, some (texts_value (v ∷ vs))) ∷ []

abbrev pub Asks : Uuid → IncidentFilter → ListQuery → Type 0
Asks team f q =
    (resolve q.args q.conditions
      ≡ wanted (bytes "status") f.status
        ++ (wanted (bytes "severity") f.severity ++ wanted (bytes "source") f.source))
    × (argument q.args 1 ≡ some (id_value team))
    × (argument q.args q.limit_index ≡ some (int_value (bounds f).0))
    × (argument q.args q.offset_index ≡ some (int_value (bounds f).1))

list_query-conditions :
    (team : Uuid) (limit offset : ℤ) (a b c : List Text)
    → Asks team
        (record { status = a; severity = b; source = c; limit = limit; offset = offset })
        (list_query team
          (record { status = a; severity = b; source = c; limit = limit; offset = offset }))
unfolding list_query narrow
list_query-conditions team limit offset [] [] [] = (refl, refl, refl, refl)
list_query-conditions team limit offset [] [] (z ∷ zs) = (refl, refl, refl, refl)
list_query-conditions team limit offset [] (y ∷ ys) [] = (refl, refl, refl, refl)
list_query-conditions team limit offset [] (y ∷ ys) (z ∷ zs) = (refl, refl, refl, refl)
list_query-conditions team limit offset (x ∷ xs) [] [] = (refl, refl, refl, refl)
list_query-conditions team limit offset (x ∷ xs) [] (z ∷ zs) = (refl, refl, refl, refl)
list_query-conditions team limit offset (x ∷ xs) (y ∷ ys) [] = (refl, refl, refl, refl)
list_query-conditions team limit offset (x ∷ xs) (y ∷ ys) (z ∷ zs) = (refl, refl, refl, refl)

bounds-fit :
    (f : IncidentFilter)
    → (pos 1 ≤ℤ (bounds f).0) × ((bounds f).0 ≤ℤ max_incident_limit) × (pos 0 ≤ℤ (bounds f).1)
unfolding bounds
bounds-fit f = ground arith

-- The query of List has the team behind its first placeholder, one condition for each part of the
-- filter that names a value, with those values behind the placeholder of the condition, and behind the
-- last two a limit from 1 to 100 and an offset that is not negative.
pub list_query-Asks :
    (team : Uuid) (f : IncidentFilter)
    → Asks team f (list_query team f)
      × ((pos 1 ≤ℤ (bounds f).0) × ((bounds f).0 ≤ℤ max_incident_limit) × (pos 0 ≤ℤ (bounds f).1))
list_query-Asks team f =
    (list_query-conditions team f.limit f.offset f.status f.severity f.source, bounds-fit f)
