-- ===== src/Examples/Data.antt =====
-- Two migrations on a small server, and queries on incidents.
use flow_cast.Base.{
  bytes, text_eq, text_ltb, ◌≡◌, refl, true, false, some, List, [], ◌∷◌, pos, ok, Text,
}
use flow_cast.Migrations.{
  Migration, AppliedMigration, Server, Faults, Db, Session, apply_migration, apply_all,
}
use flow_cast.Migrations.Files.{
  FileSystem, name_then_sql, match_name, load_files, load_migrations, Readiness, migrate_files,
  migrate,
}
use flow_cast.Migrations.Files.Startup.{migrate-RunEnds, migrate-resume}
use flow_cast.Migrations.Progress.{at_rest}
use flow_cast.Migrations.Resume.{RunEnds}
use flow_cast.Models.Enum.{valid_enum}
use flow_cast.Models.Sort.{insert, sort_slice}

-- The schema is the list of the files that ran.
abbrev pub example_server : Server
example_server = record { Schema = List Text; run_sql = λ schema sql. some (sql ∷ schema) }

abbrev first_file : Text
first_file = bytes "0001_init.sql"

abbrev second_file : Text
second_file = bytes "0002_users.sql"

abbrev pub example_files : FileSystem
example_files = record {
  glob = some (second_file ∷ first_file ∷ []);
  read_file = λ name. some name;
  checksum_of = λ content. content;
}

abbrev file : Text → Text → Migration
file version name = record { version = version; filename = name; checksum = name; sql = name }

abbrev two_files : List Migration
two_files = file (bytes "0001") first_file ∷ file (bytes "0002") second_file ∷ []

loads_files : load_migrations example_files ≡ ok two_files
unfolding load_migrations load_files match_name name_then_sql sort_slice insert text_ltb bytes
    text_eq valid_enum
loads_files = refl

abbrev pub calm : Text → Faults
calm version = record {
  begin_fails = false;
  insert_fails = false;
  commit_fails = false;
  took = pos 1;
}

abbrev pub ready : Readiness
ready = record { locks = true; ensures_table = true; reads_applied = true }

abbrev pub empty_db : Db example_server
empty_db = record { schema = []; rows = [] }

migrate-RunEnds_example :
    RunEnds example_server empty_db two_files
      (migrate example_server example_files calm ready (at_rest example_server empty_db))
migrate-RunEnds_example =
    migrate-RunEnds example_server example_files calm ready empty_db two_files loads_files

abbrev pub both_applied : List AppliedMigration
both_applied =
    record { version = bytes "0001"; filename = first_file; took = pos 1 }
    ∷ record { version = bytes "0002"; filename = second_file; took = pos 1 }
    ∷ []

pub runs_both :
    (migrate example_server example_files calm ready (at_rest example_server empty_db)).0
    ≡ ok both_applied
unfolding migrate migrate_files apply_all apply_migration load_migrations load_files match_name
    name_then_sql sort_slice insert text_ltb bytes text_eq valid_enum
runs_both = refl

abbrev after_both : Session example_server
after_both = (migrate example_server example_files calm ready (at_rest example_server empty_db)).1

migrate-resume_example :
    migrate example_server example_files calm ready after_both ≡ (ok [], after_both)
migrate-resume_example =
    migrate-resume example_server example_files calm calm ready ready empty_db two_files
      both_applied loads_files runs_both refl
