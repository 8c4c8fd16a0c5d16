-- ===== src/Migrations.antt =====
-- backend/internal/db/migrate.go. PostgreSQL and the file system are parameters; what a transaction is,
-- the model says itself: commands change a working copy, which a commit keeps and a rollback drops.
pub mod Files
pub mod Progress
pub mod Resume
pub mod Runs
use flow_cast.Base.{
  text_eq, Duration, before, Result, if◌then◌else◌, Bool, Option, none, some, List, [], ◌∷◌, ◌++◌,
  ok, err, Text,
}

pub record Migration : Type 0 where
  pub version : Text
  pub filename : Text
  pub checksum : Text
  pub sql : Text

pub record AppliedMigration : Type 0 where
  pub version : Text
  pub filename : Text
  pub took : Duration

-- The errors of the file, each with the file it names.
pub data MigrationError : Type 0 where
  listing locking ensuring_table reading_applied : MigrationError
  misnamed duplicate reading_file : Text → MigrationError
  starting applying recording committing checksum_mismatch : Text → MigrationError

-- A row of schema_migrations: the version, which is its key, and the checksum.
abbrev pub Row : Type 0
Row = Text × Text

abbrev pub find_row : Text → List Row → Option Text
find_row version [] = none
find_row version ((v, checksum) ∷ rows) =
    if text_eq v version then some checksum else find_row version rows

-- The SQL of a file on everything but schema_migrations; none where a statement of it fails.
pub record Server : Type 1 where
  pub Schema : Type 0
  pub run_sql : Schema → Text → Option Schema

-- What goes wrong on the way, apart from the SQL itself, and how long the SQL takes.
pub record Faults : Type 0 where
  pub begin_fails : Bool
  pub insert_fails : Bool
  pub commit_fails : Bool
  pub took : Duration

module _ (server : Server) where
  pub record Db : Type 0 where
    pub schema : server.Schema
    pub rows : List Row

  -- A connection: what is committed, and the working copy of an open transaction.
  pub record Session : Type 0 where
    pub committed : Db
    pub working : Option Db

  abbrev pub rollback : Session → Session
  rollback s = record s { working = none }

  -- From the inserted row on.
  abbrev pub commit : Faults → Session → Migration → Db → Result MigrationError Duration × Session
  commit w s m db =
      if w.commit_fails
      then (err (committing m.filename), rollback s)
      else (ok w.took, record { committed = db; working = none })

  -- The row of a migration goes in unless its version is there.
  abbrev pub insert_row :
      Faults → Session → Migration → Db → Result MigrationError Duration × Session
  insert_row w s m db = elim (find_row m.version db.rows) [
    | some _ ↦ (err (recording m.filename), rollback s)
    | none ↦
        if w.insert_fails
        then (err (recording m.filename), rollback s)
        else commit w s m (record db { rows = db.rows ++ (m.version, m.checksum) ∷ [] })
  ]

  unfoldable pub apply_migration :
      Faults → Session → Migration → Result MigrationError Duration × Session
  apply_migration w s m =
      if w.begin_fails
      then (err (starting m.filename), s)
      else let s1 = record s { working = some s.committed } in
        elim (server.run_sql s.committed.schema m.sql) [
          | none ↦ (err (applying m.filename), rollback s1)
          | some schema ↦ insert_row w s1 m (record { schema = schema; rows = s.committed.rows })
        ]

  abbrev pub Report : Type 0
  Report = Result MigrationError (List AppliedMigration) × Session

  -- An error ends the loop.
  abbrev pub settle :
      (Duration → Session → Report) → Result MigrationError Duration × Session → Report
  settle next (err e, s) = (err e, s)
  settle next (ok took, s) = next took s

  -- The loop over the files; `recorded` was read before it, and `faults` is by version.
  unfoldable pub apply_all :
      (Text → Faults) → List Row → List AppliedMigration → Session → List Migration → Report
  unfolding apply_migration
  apply_all faults recorded applied s [] = (ok applied, s)
  apply_all faults recorded applied s (m ∷ ms) =
      let skip = apply_all faults recorded applied s ms in
      elim (find_row m.version recorded) [
        | some checksum ↦
            if text_eq checksum m.checksum then skip else (err (checksum_mismatch m.filename), s)
        | none ↦
            settle
              (λ took s'.
                apply_all faults recorded
                  (applied
                    ++ record { version = m.version; filename = m.filename; took = took } ∷ [])
                  s' ms)
              (apply_migration (faults m.version) s m)
      ]
