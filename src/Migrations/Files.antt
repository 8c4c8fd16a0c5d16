-- ===== src/Migrations/Files.antt =====
-- loadMigrations and Migrate of backend/internal/db/migrate.go. The pattern of the file names is
-- written out; the hash and the file system are parameters.
pub mod Startup
use flow_cast.Base.{
  bytes, text_eq, text_ltb, before, Result, ◌==◌, if◌then◌else◌, ℕ, Bool, false, not, ◌&&◌, ◌||◌,
  Option, none, some, List, [], ◌∷◌, ◌++◌, ok, err, Text,
}
use flow_cast.Migrations.{
  Faults, Server, Migration, MigrationError, listing, locking, ensuring_table, reading_applied,
  misnamed, duplicate, reading_file, Session, Report, apply_all,
}
use flow_cast.Models.Enum.{valid_enum}
use flow_cast.Models.Sort.{sort_slice}
use flow_cast.Strings.{in_range}

pub record FileSystem : Type 0 where
  pub glob : Option (List Text)
  pub read_file : Text → Option Text
  pub checksum_of : Text → Text

abbrev pub is_digit : ℕ → Bool
is_digit b = in_range b'0' b'9' b

abbrev pub is_name_byte : ℕ → Bool
is_name_byte b = in_range b'a' b'z' b || in_range b'0' b'9' b || b == b'_'

-- [a-z0-9_]*\.sql$
unfoldable pub name_then_sql : Text → Bool
name_then_sql [] = false
name_then_sql (b ∷ s) =
    let rest = name_then_sql s in if is_name_byte b then rest else text_eq (b ∷ s) (bytes ".sql")

-- [a-z0-9_]+\.sql$
abbrev pub stem_then_sql : Text → Bool
stem_then_sql [] = false
stem_then_sql (b ∷ s) = is_name_byte b && name_then_sql s

-- migrationFilePattern.FindStringSubmatch(name): the first group, if the name matches.
unfoldable pub match_name : Text → Option Text
unfolding name_then_sql
match_name (a ∷ b ∷ c ∷ d ∷ u ∷ s) =
    if is_digit a && is_digit b && is_digit c && is_digit d && u == b'_' && stem_then_sql s
    then some (a ∷ b ∷ c ∷ d ∷ [])
    else none
match_name _ = none

-- The loop over the sorted names, with the versions seen so far.
module _ (fs : FileSystem) where
  unfoldable pub load_files :
      List Text → List Migration → List Text → Result MigrationError (List Migration)
  unfolding match_name
  load_files seen migrations [] = ok migrations
  load_files seen migrations (name ∷ names) = elim (match_name name) [
    | none ↦ err (misnamed name)
    | some version ↦
        if valid_enum version seen then err (duplicate name) else elim (fs.read_file name) [
          | none ↦ err (reading_file name)
          | some content ↦
              load_files (version ∷ seen)
                (migrations
                  ++ record {
                    version = version;
                    filename = name;
                    checksum = fs.checksum_of content;
                    sql = content;
                  }
                    ∷ [])
                names
        ]
  ]

  unfoldable pub load_migrations : Result MigrationError (List Migration)
  unfolding load_files
  load_migrations = elim fs.glob [
    | none ↦ err listing
    | some entries ↦ load_files [] [] (sort_slice text_ltb entries)
  ]

-- Whether the steps before the loop go through: the connection with its lock, the table, the query of
-- the applied versions. The lock is released at every end.
pub record Readiness : Type 0 where
  pub locks : Bool
  pub ensures_table : Bool
  pub reads_applied : Bool

module _ (server : Server) (fs : FileSystem) (faults : Text → Faults) where
  unfoldable pub migrate_files : Readiness → Session server → List Migration → Report server
  migrate_files ready s available =
      if not ready.locks
      then (err locking, s)
      else if not ready.ensures_table
      then (err ensuring_table, s)
      else if not ready.reads_applied
      then (err reading_applied, s)
      else apply_all server faults s.committed.rows [] s available

  unfoldable pub migrate : Readiness → Session server → Report server
  unfolding migrate_files
  migrate ready s = elim (load_migrations fs) [
    | err e ↦ (err e, s)
    | ok available ↦ migrate_files ready s available
  ]
