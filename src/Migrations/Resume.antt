-- ===== src/Migrations/Resume.antt =====
-- What a run of the migrations leaves, and what the next one does.
use flow_cast.Base.{
  text_eq, text_eq_refl, All, Bool-cases, ◌≡◌, sym, subst, inl, inr, none, some, List, [], ◌∷◌,
  ◌++◌, ok, err, Text,
}
use flow_cast.Migrations.{
  Server, Migration, AppliedMigration, MigrationError, Row, find_row, Db, Report,
}
use flow_cast.Migrations.Progress.{at_rest, Applied, Advances, still, skipped, advanced}

find_row-append :
    (v c : Text) (rows more : List Row)
    → find_row v rows ≡ some c
    → find_row v (rows ++ more) ≡ some c
find_row-append v c [] more h = cc h
find_row-append v c ((u, d) ∷ rows) more h = elim (Bool-cases (text_eq u v)) [
  | inl e ↦ rw (find_row, e) (rw (find_row, e) at h)
  | inr e ↦ rw (find_row, e) (find_row-append v c rows more (rw (find_row, e) at h))
]

find_row-new :
    (v c : Text) (rows : List Row)
    → find_row v rows ≡ none
    → find_row v (rows ++ (v, c) ∷ []) ≡ some c
find_row-new v c [] h = rw (text_eq_refl v)
find_row-new v c ((u, d) ∷ rows) h = elim (Bool-cases (text_eq u v)) [
  | inl e ↦ cc (rw (find_row, e) at h)
  | inr e ↦ rw (find_row, e) (find_row-new v c rows (rw (find_row, e) at h))
]

module _ (server : Server) where
  abbrev pub IsRecorded : Db server → Migration → Type 0
  IsRecorded db m = find_row m.version db.rows ≡ some m.checksum

  pub Applied-find :
      (db db' : Db server) (m : Migration) (v c : Text)
      → Applied server db m db'
      → find_row v db.rows ≡ some c
      → find_row v db'.rows ≡ some c
  Applied-find db db' m v c a h =
      subst (λ rows. find_row v rows ≡ some c) (sym a.recorded) (find_row-append v c db.rows _ h)

  Advances-find :
      (v c : Text) {db : Db server} {ms : List Migration} {db' : Db server}
      → Advances server db ms db'
      → find_row v db.rows ≡ some c
      → find_row v db'.rows ≡ some c
  Advances-find v c still h = h
  Advances-find v c (skipped m rest) h = Advances-find v c rest h
  Advances-find v c {db} (advanced {db1 = db1} m a rest) h =
      Advances-find v c rest (Applied-find db db1 m v c a h)

  -- Every end of a run.
  pub data RunEnds (db : Db server) (ms : List Migration) : Report server → Type 0 where
    stopped :
        (e : MigrationError) (db' : Db server)
        → Advances server db ms db'
        → RunEnds db ms (err e, at_rest server db')
    finished :
        (done : List AppliedMigration) (db' : Db server)
        → Advances server db ms db'
        → All (IsRecorded db') ms
        → RunEnds db ms (ok done, at_rest server db')

  -- The rows of the database hold what was read before the loop.
  abbrev pub Keeps : List Row → Db server → Type 0
  Keeps recorded db = (v c : Text) → find_row v recorded ≡ some c → find_row v db.rows ≡ some c

  pub after_skip :
      (db : Db server) (m : Migration) (ms : List Migration) (r : Report server)
      → IsRecorded db m
      → RunEnds db ms r
      → RunEnds db (m ∷ ms) r
  after_skip db m ms _ k (stopped e db' a) = stopped e db' (skipped m a)
  after_skip db m ms _ k (finished done db' a all) =
      finished done db' (skipped m a) (Advances-find m.version m.checksum a k, all)

  pub after_applied :
      (db db1 : Db server) (m : Migration) (ms : List Migration) (r : Report server)
      → Applied server db m db1
      → RunEnds db1 ms r
      → RunEnds db (m ∷ ms) r
  after_applied db db1 m ms _ k (stopped e db' a) = stopped e db' (advanced m k a)
  after_applied db db1 m ms _ k (finished done db' a all) =
      let here : IsRecorded db1 m =
        subst (λ rows. find_row m.version rows ≡ some m.checksum) (sym k.recorded)
          (find_row-new m.version m.checksum db.rows k.new) in
      finished done db' (advanced m k a) (Advances-find m.version m.checksum a here, all)
