-- ===== src/Migrations/Progress.antt =====
-- How far a run of the migrations gets.
use flow_cast.Base.{
  Duration, Result, Bool-cases, Option-cases, ◌≡◌, refl, inl, inr, Option, none, some, List, [],
  ◌∷◌, ◌++◌, ok, err,
}
use flow_cast.Migrations.{
  Server, Migration, MigrationError, find_row, Faults, Db, Session, commit, insert_row,
  apply_migration,
}

module _ (server : Server) where
  -- A connection without an open transaction.
  abbrev pub at_rest : Db server → Session server
  at_rest db = record { committed = db; working = none }

  -- The database after a file: its SQL has run and its row is there.
  pub record Applied (db : Db server) (m : Migration) (db' : Db server) : Type 0 where
    pub ran : server.run_sql db.schema m.sql ≡ some db'.schema
    pub new : find_row m.version db.rows ≡ none
    pub recorded : db'.rows ≡ db.rows ++ (m.version, m.checksum) ∷ []

  -- Every end of one file: nothing of it is there, or all.
  pub data FileEnds (db : Db server) (m : Migration)
      : Result MigrationError Duration × Session server → Type 0 where
    undone : (e : MigrationError) → FileEnds db m (err e, at_rest db)
    kept :
        (took : Duration) (db' : Db server)
        → Applied db m db'
        → FileEnds db m (ok took, at_rest db')

  commit-FileEnds :
      (w : Faults) (db : Db server) (open_copy : Option (Db server)) (m : Migration)
      (db' : Db server)
      → Applied db m db'
      → FileEnds db m (commit server w (record { committed = db; working = open_copy }) m db')
  commit-FileEnds w db open_copy m db' a = elim (Bool-cases w.commit_fails) [
    | inl fails ↦ rw (fails, commit) (undone _)
    | inr good ↦ rw (good, commit) (kept w.took db' a)
  ]

  insert_row-FileEnds :
      (w : Faults) (db : Db server) (open_copy : Option (Db server)) (m : Migration)
      (schema : server.Schema)
      → server.run_sql db.schema m.sql ≡ some schema
      → FileEnds db m (
          insert_row server w
            (record { committed = db; working = open_copy })
            m
            (record { schema = schema; rows = db.rows }))
  insert_row-FileEnds w db open_copy m schema ran =
      elim (Option-cases (find_row m.version db.rows)) [
        | inr (checksum, there) ↦ rw (insert_row, there) (undone _)
        | inl new ↦ elim (Bool-cases w.insert_fails) [
          | inl fails ↦ rw (insert_row, new, fails) (undone _)
          | inr good ↦
              rw (insert_row, new, good)
                (commit-FileEnds w db open_copy m
                  (record { schema = schema; rows = db.rows ++ (m.version, m.checksum) ∷ [] })
                  (record { ran = ran; new = new; recorded = refl }))
        ]
      ]

  pub apply_migration-FileEnds :
      (w : Faults) (db : Db server) (m : Migration)
      → FileEnds db m (apply_migration server w (at_rest db) m)
  unfolding apply_migration
  apply_migration-FileEnds w db m = elim (Bool-cases w.begin_fails) [
    | inl fails ↦ rw (apply_migration, fails) (undone _)
    | inr good ↦ elim (Option-cases (server.run_sql db.schema m.sql)) [
      | inl bad ↦ rw (apply_migration, good, bad) (undone _)
      | inr (schema, ran) ↦
          rw (apply_migration, good, ran) (insert_row-FileEnds w db (some db) m schema ran)
    ]
  ]

  -- The databases that follow by applying whole files, in the order of the list.
  pub data Advances : Db server → List Migration → Db server → Type 0 where
    still : {db : Db server} → Advances db [] db
    skipped :
        {db db' : Db server} (m : Migration) {ms : List Migration}
        → Advances db ms db'
        → Advances db (m ∷ ms) db'
    advanced :
        {db db1 db' : Db server} (m : Migration) {ms : List Migration}
        → Applied db m db1
        → Advances db1 ms db'
        → Advances db (m ∷ ms) db'

  pub nothing_done : (db : Db server) (ms : List Migration) → Advances db ms db
  nothing_done db [] = still
  nothing_done db (m ∷ ms) = skipped m (nothing_done db ms)
