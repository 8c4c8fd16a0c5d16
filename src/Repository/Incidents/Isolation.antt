-- ===== src/Repository/Incidents/Isolation.antt =====
-- What the teams see of one another through the incidents of
-- backend/internal/repository/incident.go.
use flow_cast.Base.{
  ==_iff, Bool-cases, sym, ◌∙◌, inl, inr, not, map, Text, Time, ◌==◌, Uuid, ◌≡◌, refl, ap, Bool,
  true, false, ◌&&◌, Option, none, some, List, [], ◌∷◌, arith,
}
use flow_cast.Repository.Incidents.{
  stamped, first_row, has_key, has_external_id, get_by_id, find_by_external_id, is_duplicate,
  create_incident, is_id, update_incident, is_none_deleted, delete_incident,
}
use flow_cast.Repository.Incidents.Listing.{meets_all, run_list, list_incidents}
use flow_cast.Repository.Incidents.Calls.{
  Call, one, page, done, call, replies, calls_of, own, creates, gets, finds, lists, updates,
  deletes,
}
use flow_cast.Models.Incident.{Incident}
use flow_cast.Repository.{Value, id_value, IncidentFilter, list_query, IncidentPatch}
use flow_cast.Repository.Incidents.Patching.{
  patched, is_blank, update_reference, update_incident_lem,
}
use flow_cast.Repository.Incidents.Rows.{
  where_rows-update_rows, update_rows-none, where_rows-within, where_rows_comm,
}
use flow_cast.Repository.Placeholders.{argument}
use flow_cast.Repository.Updates.{list_query-Asks}

is_id-true :
    (t team : Uuid) (v : Option Value) (b : Bool)
    → v ≡ some (id_value team)
    → is_id t v && b ≡ true
    → (t == team) ≡ true
is_id-true t team v b e h = let h' = rw e at h in ground arith

module _ (team : Uuid) where
  get_by_id-own :
      (answers : Bool) (id : Uuid) (rows : List Incident)
      → get_by_id answers team id (own team rows) ≡ get_by_id answers team id rows
  unfolding get_by_id own
  get_by_id-own answers id rows =
      ap (first_row answers)
        (where_rows-within (has_key team id) (λ i. i.team_id == team) rows (λ i h. ground arith))

  find_by_external_id-own :
      (answers : Bool) (external_id : Text) (rows : List Incident)
      → find_by_external_id answers team external_id (own team rows)
        ≡ find_by_external_id answers team external_id rows
  unfolding find_by_external_id own
  find_by_external_id-own answers external_id rows = ap (first_row answers) (
      where_rows-within (has_external_id team external_id) (λ i. i.team_id == team) rows
        (λ i h. ground arith))

  list_incidents-own :
      (answers : Bool) (filter : IncidentFilter) (rows : List Incident)
      → list_incidents answers team filter (own team rows) ≡ list_incidents answers team filter rows
  unfolding list_incidents run_list own
  list_incidents-own answers filter rows =
      let q = list_query team filter in
      let asks : argument q.args 1 ≡ some (id_value team) = (list_query-Asks team filter).0.1 in
      let fewer =
        where_rows-within
          (λ i. is_id i.team_id (argument q.args 1) && meets_all q.args q.conditions i)
          (λ i. i.team_id == team) rows (λ i h. is_id-true i.team_id team _ _ asks h) in
      rw fewer

  is_duplicate-own :
      (i : Incident) (rows : List Incident)
      → i.team_id ≡ team
      → is_duplicate i (own team rows) ≡ is_duplicate i rows
  unfolding is_duplicate own
  is_duplicate-own i [] h = refl
  is_duplicate-own i (r ∷ rows) h = ground (arith, is_duplicate-own i rows h)

  create_incident-own :
      (reply : Option (Uuid × Time)) (i : Incident) (rows : List Incident)
      → i.team_id ≡ team
      → ((create_incident reply i (own team rows)).0 ≡ (create_incident reply i rows).0)
        × ((create_incident reply i (own team rows)).1 ≡ own team (create_incident reply i rows).1)
  unfolding create_incident own
  create_incident-own none i rows h = (refl, refl)
  create_incident-own (some (id, now)) i rows h = ground (arith, is_duplicate-own i rows h)

  update_reference-own :
      (now : Time) (id : Uuid) (p : IncidentPatch) (rows : List Incident)
      → ((update_reference now team id p (own team rows)).0
          ≡ (update_reference now team id p rows).0)
        × ((update_reference now team id p (own team rows)).1
            ≡ own team (update_reference now team id p rows).1)
  unfolding own
  update_reference-own now id p rows = elim (Bool-cases (is_blank p)) [
    | inl blank ↦ rw blank (get_by_id-own true id rows, refl)
    | inr more ↦ rw more (
      ap (λ x. first_row true (map (λ i. stamped now (patched p i)) x))
          (where_rows-within (has_key team id) (λ i. i.team_id == team) rows (λ i h. ground arith)),
      sym (
          where_rows-update_rows (λ i. i.team_id == team) (has_key team id)
            (λ i. stamped now (patched p i)) rows (λ i. refl)),
    )
  ]

  update_incident-own :
      (reply : Option Time) (id : Uuid) (p : IncidentPatch) (rows : List Incident)
      → ((update_incident reply team id p (own team rows)).0
          ≡ (update_incident reply team id p rows).0)
        × ((update_incident reply team id p (own team rows)).1
            ≡ own team (update_incident reply team id p rows).1)
  update_incident-own none id p rows = unfold update_incident in (refl, refl)
  update_incident-own (some now) id p rows =
      rw (update_incident_lem now team id p rows, update_incident_lem now team id p (own team rows))
        (update_reference-own now id p rows)

  delete_incident-own :
      (answers : Bool) (id : Uuid) (rows : List Incident)
      → ((delete_incident answers team id (own team rows)).0
          ≡ (delete_incident answers team id rows).0)
        × ((delete_incident answers team id (own team rows)).1
            ≡ own team (delete_incident answers team id rows).1)
  unfolding delete_incident own
  delete_incident-own false id rows = (refl, refl)
  delete_incident-own true id rows = (
    ap is_none_deleted
        (where_rows-within (has_key team id) (λ i. i.team_id == team) rows (λ i h. ground arith)),
    where_rows_comm _ _ rows,
  )

  -- A call for the team answers and leaves its rows as if there were no others.
  call-own :
      (c : Call) (rows : List Incident)
      → ((call team c (own team rows)).0 ≡ (call team c rows).0)
        × ((call team c (own team rows)).1 ≡ own team (call team c rows).1)
  unfolding call
  call-own (creates reply i) rows =
      let (a, b) = create_incident-own reply (record i { team_id = team }) rows refl in
      (ap one a, b)
  call-own (gets answers id) rows = (ap one (get_by_id-own answers id rows), refl)
  call-own (finds answers external_id) rows =
      (ap one (find_by_external_id-own answers external_id rows), refl)
  call-own (lists answers filter) rows = (ap page (list_incidents-own answers filter rows), refl)
  call-own (updates reply id p) rows =
      let (a, b) = update_incident-own reply id p rows in (ap one a, b)
  call-own (deletes answers id) rows =
      let (a, b) = delete_incident-own answers id rows in (ap done a, b)

module _ (team other : Uuid) (apart : (team == other) ≡ false) where
  keyless : (id : Uuid) (i : Incident) → (i.team_id == other) ≡ true → has_key team id i ≡ false
  keyless id i h = ground arith

  update_reference-other :
      (now : Time) (id : Uuid) (p : IncidentPatch) (rows : List Incident)
      → own other (update_reference now team id p rows).1 ≡ own other rows
  unfolding own
  update_reference-other now id p rows = elim (Bool-cases (is_blank p)) [
    | inl blank ↦ rw blank refl
    | inr more ↦ rw more (
        where_rows-update_rows (λ i. i.team_id == other) (has_key team id)
          (λ i. stamped now (patched p i)) rows (λ i. refl)
        ∙ update_rows-none (λ i. i.team_id == other) (has_key team id)
            (λ i. stamped now (patched p i)) rows (keyless id))
  ]

  update_incident-other :
      (reply : Option Time) (id : Uuid) (p : IncidentPatch) (rows : List Incident)
      → own other (update_incident reply team id p rows).1 ≡ own other rows
  update_incident-other none id p rows = unfold update_incident in refl
  update_incident-other (some now) id p rows =
      rw (update_incident_lem now team id p rows) (update_reference-other now id p rows)

  delete_incident-other :
      (answers : Bool) (id : Uuid) (rows : List Incident)
      → own other (delete_incident answers team id rows).1 ≡ own other rows
  unfolding delete_incident own
  delete_incident-other false id rows = refl
  delete_incident-other true id rows =
      where_rows-within (λ i. i.team_id == other) (λ i. not (has_key team id i)) rows
        (λ i h. ap not (keyless id i h))

  create_incident-other :
      (reply : Option (Uuid × Time)) (i : Incident) (rows : List Incident)
      → i.team_id ≡ team
      → own other (create_incident reply i rows).1 ≡ own other rows
  unfolding create_incident own
  create_incident-other none i rows h = refl
  create_incident-other (some (id, now)) i rows h = elim (Bool-cases (is_duplicate i rows)) [
    | inl old ↦ rw old refl
    | inr new ↦ ground arith
  ]

  -- A call for one team leaves the rows of another.
  call-other : (c : Call) (rows : List Incident) → own other (call team c rows).1 ≡ own other rows
  unfolding call
  call-other (creates reply i) rows =
      create_incident-other reply (record i { team_id = team }) rows refl
  call-other (gets answers id) rows = refl
  call-other (finds answers external_id) rows = refl
  call-other (lists answers filter) rows = refl
  call-other (updates reply id p) rows = update_incident-other reply id p rows
  call-other (deletes answers id) rows = delete_incident-other answers id rows

-- Whatever calls the teams make in whatever order, a team gets the replies that it would get with its
-- calls alone on its rows alone: it learns nothing of the incidents of others, and they change nothing
-- for it.
pub replies-isolated :
    (team : Uuid) (cs : List (Uuid × Call)) (rows : List Incident)
    → replies team cs rows ≡ replies team (calls_of team cs) (own team rows)
unfolding replies calls_of
replies-isolated team [] rows = refl
replies-isolated team ((t, c) ∷ cs) rows = elim (Bool-cases (t == team)) [
  | inl mine ↦
      let same_team : t ≡ team = (==_iff t team).0 mine in
      let ih = replies-isolated team cs (call t c rows).1 in
      let (answer, left) = call-own team c rows in
      rw (mine, ih, same_team, answer, left, (==_iff team team).1 refl) refl
  | inr theirs ↦ rw theirs (
      replies-isolated team cs (call t c rows).1
      ∙ ap (replies team (calls_of team cs)) (call-other t team theirs c rows))
]
