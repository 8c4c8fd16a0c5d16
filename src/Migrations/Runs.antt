-- ===== src/Migrations/Runs.antt =====
-- The loop over the migration files.
use flow_cast.Base.{
  text_eq, text_eq_iff, text_eq_refl, Duration, All, Result, Bool-cases, Option-cases, ◌≡◌, refl,
  ap, ◌∙◌, inl, inr, none, some, List, [], ◌∷◌, ok, Text,
}
use flow_cast.Migrations.{
  Row, Faults, Server, Migration, AppliedMigration, MigrationError, checksum_mismatch, find_row, Db,
  Session, apply_migration, apply_all,
}
use flow_cast.Migrations.Progress.{
  at_rest, Applied, FileEnds, undone, kept, apply_migration-FileEnds, still, nothing_done,
}
use flow_cast.Migrations.Resume.{
  Applied-find, RunEnds, stopped, finished, Keeps, after_skip, after_applied,
}

module _ (server : Server) (faults : Text → Faults) (recorded : List Row) where
  by_file :
      (applied : List AppliedMigration) (db : Db server) (m : Migration) (ms : List Migration)
      (r : Result MigrationError Duration × Session server)
      → find_row m.version recorded ≡ none
      → apply_migration server (faults m.version) (at_rest server db) m ≡ r
      → FileEnds server db m r
      → ((done : List AppliedMigration) (db1 : Db server)
          → Applied server db m db1
          → RunEnds server db1 ms (apply_all server faults recorded done (at_rest server db1) ms))
      → RunEnds server db
          (m ∷ ms)
          (apply_all server faults recorded applied (at_rest server db) (m ∷ ms))
  unfolding apply_all
  by_file applied db m ms _ new e (undone problem) next =
      rw (apply_all, new, e) (stopped problem db (nothing_done server db (m ∷ ms)))
  by_file applied db m ms _ new e (kept took db1 a) next =
      rw (apply_all, new, e) (after_applied server db db1 m ms _ a (next _ db1 a))

  pub apply_all-RunEnds :
      (applied : List AppliedMigration) (db : Db server) (ms : List Migration)
      → Keeps server recorded db
      → RunEnds server db ms (apply_all server faults recorded applied (at_rest server db) ms)
  unfolding apply_all
  apply_all-RunEnds applied db [] k = finished applied db still tt
  apply_all-RunEnds applied db (m ∷ ms) k = elim (Option-cases (find_row m.version recorded)) [
    | inl new ↦
        by_file applied db m ms _ new refl (apply_migration-FileEnds server (faults m.version) db m)
          (λ done db1 a.
            apply_all-RunEnds done db1 ms (λ v c h. Applied-find server db db1 m v c a (k v c h)))
    | inr (checksum, there) ↦ elim (Bool-cases (text_eq checksum m.checksum)) [
      | inr edited ↦
          rw (apply_all, there, edited)
            (stopped (checksum_mismatch m.filename) db (nothing_done server db (m ∷ ms)))
      | inl same_sum ↦
          rw (apply_all, there, same_sum)
            (after_skip server db m ms _
              (k m.version checksum there ∙ ap some ((text_eq_iff checksum m.checksum).0 same_sum))
              (apply_all-RunEnds applied db ms k))
    ]
  ]

  -- With every file recorded, nothing is done.
  pub apply_all-nothing :
      (applied : List AppliedMigration) (s : Session server) (ms : List Migration)
      → All (λ m. find_row m.version recorded ≡ some m.checksum) ms
      → apply_all server faults recorded applied s ms ≡ (ok applied, s)
  unfolding apply_all
  apply_all-nothing applied s [] h = refl
  apply_all-nothing applied s (m ∷ ms) (h, hs) =
      rw (apply_all, h, text_eq_refl m.checksum) (apply_all-nothing applied s ms hs)
