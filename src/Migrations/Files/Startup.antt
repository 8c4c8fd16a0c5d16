-- ===== src/Migrations/Files/Startup.antt =====
-- Migrate, which every start of the service calls.
use flow_cast.Base.{
  All, Bool-cases, ◌≡◌, refl, sym, ap, ◌∙◌, subst, inl, inr, true, some, List, [], ok, Text,
}
use flow_cast.Migrations.{
  Migration, AppliedMigration, MigrationError, locking, ensuring_table, reading_applied, find_row,
  Server, Faults, Db, Session, Report,
}
use flow_cast.Migrations.Files.{FileSystem, load_migrations, Readiness, migrate_files, migrate}
use flow_cast.Migrations.Progress.{at_rest, nothing_done}
use flow_cast.Migrations.Resume.{IsRecorded, RunEnds, stopped, finished}
use flow_cast.Migrations.Runs.{apply_all-RunEnds, apply_all-nothing}

module _ (server : Server) (fs : FileSystem) where
  migrate_files-RunEnds :
      (faults : Text → Faults) (ready : Readiness) (db : Db server) (ms : List Migration)
      → RunEnds server db ms (migrate_files server fs faults ready (at_rest server db) ms)
  unfolding migrate_files
  migrate_files-RunEnds faults ready db ms =
      let early = λ (e : MigrationError). stopped e db (nothing_done server db ms) in
      elim (Bool-cases ready.locks) [
        | inr unlocked ↦ rw (migrate_files, unlocked) (early locking)
        | inl locked ↦ elim (Bool-cases ready.ensures_table) [
          | inr no_table ↦ rw (migrate_files, locked, no_table) (early ensuring_table)
          | inl table ↦ elim (Bool-cases ready.reads_applied) [
            | inr unread ↦ rw (migrate_files, locked, table, unread) (early reading_applied)
            | inl read ↦
                rw (migrate_files, locked, table, read)
                  (apply_all-RunEnds server faults db.rows [] db ms (λ v c h. h))
          ]
        ]
      ]

  migrate-files :
      (faults : Text → Faults) (ready : Readiness) (s : Session server) (ms : List Migration)
      → load_migrations fs ≡ ok ms
      → migrate server fs faults ready s ≡ migrate_files server fs faults ready s ms
  unfolding migrate
  migrate-files faults ready s ms h = rw (migrate, h)

  -- A run that returned no error has every file recorded.
  finished_run :
      (db : Db server) (ms : List Migration) (r : Report server) (done : List AppliedMigration)
      → RunEnds server db ms r
      → r.0 ≡ ok done
      → (db' : Db server) × (r.1 ≡ at_rest server db') × All (IsRecorded server db') ms
  finished_run db ms _ done (stopped e db' a) h = cc h
  finished_run db ms _ done (finished as_done db' a all) h = (db', refl, all)

-- Whatever fails on the way, Migrate ends without an open transaction, on a database to which whole
-- files have been applied, each with its row and each only where its version had none, in the order of
-- the files; and where it returns no error, every file is recorded with its checksum.
pub migrate-RunEnds :
    (server : Server) (fs : FileSystem) (faults : Text → Faults) (ready : Readiness)
    (db : Db server) (ms : List Migration)
    → load_migrations fs ≡ ok ms
    → RunEnds server db ms (migrate server fs faults ready (at_rest server db))
migrate-RunEnds server fs faults ready db ms h =
    subst (λ r. RunEnds server db ms r)
      (sym (migrate-files server fs faults ready (at_rest server db) ms h))
      (migrate_files-RunEnds server fs faults ready db ms)

-- After a run of Migrate that returned no error, a run on the same files in which the lock, the table
-- and the recorded versions can be had applies nothing, changes nothing and returns no error.
pub migrate-resume :
    (server : Server) (fs : FileSystem) (faults later : Text → Faults) (ready again : Readiness)
    (db : Db server) (ms : List Migration) (done : List AppliedMigration)
    → load_migrations fs ≡ ok ms
    → (migrate server fs faults ready (at_rest server db)).0 ≡ ok done
    → again ≡ record { locks = true; ensures_table = true; reads_applied = true }
    → migrate server fs later again (migrate server fs faults ready (at_rest server db)).1
      ≡ (ok [], (migrate server fs faults ready (at_rest server db)).1)
unfolding migrate_files
migrate-resume server fs faults later ready again db ms done h success can =
    let s' = (migrate server fs faults ready (at_rest server db)).1 in
    let (db', rests, all) =
      finished_run server fs db ms _ done (migrate-RunEnds server fs faults ready db ms h)
        success in
    let rows_recorded : All (λ m. find_row m.version s'.committed.rows ≡ some m.checksum) ms =
      subst
        (λ (s : Session server).
          All (λ m. find_row m.version s.committed.rows ≡ some m.checksum) ms)
        (sym rests) all in
    migrate-files server fs later again s' ms h
    ∙ (ap (λ x. migrate_files server fs later x s' ms) can
        ∙ apply_all-nothing server later s'.committed.rows [] s' ms rows_recorded)
