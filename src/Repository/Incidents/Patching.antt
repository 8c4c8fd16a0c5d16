-- ===== src/Repository/Incidents/Patching.antt =====
-- Update of an incident in the table of backend/internal/repository/incident.go, beside the change that
-- a patch describes.
use mathlib.Core.Path.{fun_ext}
use flow_cast.Base.{
  Bool-cases, ap, ◌∙◌, inl, inr, Text, bytes, text_eq, Time, Result, if◌then◌else◌, Uuid, ◌≡◌, refl,
  Bool, true, false, not, ◌&&◌, Option, none, some, List, [], ◌∷◌, ◌++◌, map, arith,
}
use flow_cast.Repository.{
  UpdatePlan, read_row, write_row, update_plan, Value, Assignment, to_placeholder, to_null, texted,
  IncidentPatch, trimmed,
}
use flow_cast.Repository.Incidents.{
  run_update, update_incident, where_rows, first_row, has_key, get_by_id, assign_all, update_rows,
  stamped, write_column,
}
use flow_cast.Handlers.Env.{StoreError}
use flow_cast.Models.Incident.{Incident}
use flow_cast.Repository.Placeholders.{SetsAll}
use flow_cast.Repository.Updates.{given, Does, update_plan-Does, resolution, changes}

abbrev pub or_old {ℓ} : {A : Type ℓ} → Option A → A → A
or_old none old = old
or_old (some new) old = new

abbrev pub resolved_by : Bool → Option Time → Option Time → Option Time
resolved_by true resolved old = none
resolved_by false none old = old
resolved_by false (some t) old = some t

-- What a patch makes of an incident.
abbrev pub patched : IncidentPatch → Incident → Incident
patched p i = record i {
  title = or_old (trimmed p.title) i.title;
  description = or_old p.description i.description;
  severity = or_old p.severity i.severity;
  status = or_old p.status i.status;
  resolved_at = resolved_by p.clear_resolved_at p.resolved_at i.resolved_at;
}

abbrev is_none {ℓ} : {A : Type ℓ} → Option A → Bool
is_none none = true
is_none (some a) = false

-- The patch changes nothing.
abbrev pub is_blank : IncidentPatch → Bool
is_blank p =
    is_none p.title
    && (is_none p.description
        && (is_none p.severity
            && (is_none p.status && (not p.clear_resolved_at && is_none p.resolved_at))))

-- Update without statements: the incident of the team is read where the patch is blank, and else
-- replaced by what the patch makes of it.
abbrev pub update_reference :
    Time → Uuid → Uuid → IncidentPatch → List Incident → Result StoreError Incident × List Incident
update_reference now team id p rows = if is_blank p then (get_by_id true team id rows, rows) else (
  first_row true (map (λ i. stamped now (patched p i)) (where_rows (has_key team id) rows)),
  update_rows (has_key team id) (λ i. stamped now (patched p i)) rows,
)

abbrev write_all : List (Text × Option Value) → Incident → Incident
write_all [] i = i
write_all ((column, v) ∷ cs) i = write_all cs (write_column column v i)

write_all-append :
    (as' bs : List (Text × Option Value)) (i : Incident)
    → write_all (as' ++ bs) i ≡ write_all bs (write_all as' i)
write_all-append [] bs i = refl
write_all-append ((column, v) ∷ as') bs i = write_all-append as' bs (write_column column v i)

assign_all-write_all :
    (args : List Value) (as' : List Assignment) (cs : List (Text × Option Value)) (i : Incident)
    → SetsAll args as' cs
    → assign_all args as' i ≡ write_all cs i
unfolding assign_all
assign_all-write_all args [] [] i h = refl
assign_all-write_all args [] (c ∷ cs) i h = absurd h
assign_all-write_all args (a ∷ as') [] i h = absurd h
assign_all-write_all args (to_placeholder column n ∷ as') ((c, some v) ∷ cs) i ((e, f), h) =
    rw (e, f) (assign_all-write_all args as' cs (write_column c (some v) i) h)
assign_all-write_all args (to_placeholder column n ∷ as') ((c, none) ∷ cs) i (e, h) = absurd e
assign_all-write_all args (to_null column ∷ as') ((c, none) ∷ cs) i (e, h) =
    rw e (assign_all-write_all args as' cs (write_column c none i) h)
assign_all-write_all args (to_null column ∷ as') ((c, some v) ∷ cs) i (e, h) = absurd e

write_title :
    (o : Option Text) (i : Incident)
    → write_all (given (bytes "title") (texted o)) i ≡ record i { title = or_old o i.title }
unfolding write_column text_eq bytes
write_title none i = refl
write_title (some t) i = refl

write_description :
    (o : Option Text) (i : Incident)
    → write_all (given (bytes "description") (texted o)) i
      ≡ record i { description = or_old o i.description }
unfolding write_column text_eq bytes
write_description none i = refl
write_description (some t) i = refl

write_severity :
    (o : Option Text) (i : Incident)
    → write_all (given (bytes "severity") (texted o)) i
      ≡ record i { severity = or_old o i.severity }
unfolding write_column text_eq bytes
write_severity none i = refl
write_severity (some t) i = refl

write_status :
    (o : Option Text) (i : Incident)
    → write_all (given (bytes "status") (texted o)) i ≡ record i { status = or_old o i.status }
unfolding write_column text_eq bytes
write_status none i = refl
write_status (some t) i = refl

write_resolution :
    (clear : Bool) (o : Option Time) (i : Incident)
    → write_all (resolution clear o) i
      ≡ record i { resolved_at = resolved_by clear o i.resolved_at }
unfolding write_column text_eq bytes
write_resolution true o i = refl
write_resolution false none i = refl
write_resolution false (some t) i = refl

write_all-changes : (p : IncidentPatch) (i : Incident) → write_all (changes p) i ≡ patched p i
write_all-changes p i = rw (
  write_all-append _ (resolution p.clear_resolved_at p.resolved_at) i,
  write_all-append _ (given (bytes "status") (texted p.status)) i,
  write_all-append _ (given (bytes "severity") (texted p.severity)) i,
  write_all-append _ (given (bytes "description") (texted p.description)) i,
  write_title (trimmed p.title) i,
  write_description p.description,
  write_severity p.severity,
  write_status p.status,
  write_resolution p.clear_resolved_at p.resolved_at,
)

blank_changes : (p : IncidentPatch) → is_blank p ≡ true → changes p ≡ []
blank_changes p h = ground arith

changes_blank : (p : IncidentPatch) → changes p ≡ [] → is_blank p ≡ true
changes_blank p h = ground arith

-- A plan that does certain changes, carried out.
run_update-Does :
    (now : Time) (team id : Uuid) (p : IncidentPatch) (plan : UpdatePlan) (rows : List Incident)
    → Does team id (changes p) plan
    → run_update (some now) plan team id rows ≡ update_reference now team id p rows
unfolding run_update
run_update-Does now team id p read_row rows h = rw (changes_blank p h)
run_update-Does now team id p (write_row assignments id_index team_index args) rows
      (ne, sets, ids, teams) =
    elim (Bool-cases (is_blank p)) [
      | inl blank ↦ absurd (ne (blank_changes p blank))
      | inr more ↦
          let same_change : (λ i. stamped now (assign_all args assignments i))
              ≡ (λ i. stamped now (patched p i)) =
            fun_ext (λ i.
              ap (stamped now) (
                assign_all-write_all args assignments (changes p) i sets
                ∙ write_all-changes p i)) in
          rw (more, ids, teams, same_change)
    ]

-- Where the server carries the statement out, Update of an incident reads the incident of the team
-- where the patch is blank, and else replaces it by what the patch makes of it, with a new time of
-- update, and answers with it; without such an incident it reports that there is none.
pub update_incident_lem :
    (now : Time) (team id : Uuid) (p : IncidentPatch) (rows : List Incident)
    → update_incident (some now) team id p rows ≡ update_reference now team id p rows
unfolding update_incident
update_incident_lem now team id p rows =
    run_update-Does now team id p (update_plan team id p) rows (update_plan-Does team id p)
