-- ===== src/Examples/Tables.antt =====
-- Tables of teams and users, and registrations in them.
use flow_cast.Handlers.Registration.Laws.{FindsCreated}
use flow_cast.Base.{
  none, bytes, text_eq, length, ◌+◌, true, some, pos, ok, err, Text, Bool-cases, ℕ, ◌≡◌, refl, inl,
  inr, List, [], ◌∷◌, map, arith,
}
use flow_cast.Repository.Users.{
  user_repository, committed, Replies, has_team, has_user, normalize_email, row_by_email,
  insert_both, create_team_with_owner, Letters, Tables,
}
use mathlib.Core.List.{map-append}
use flow_cast.Strings.{trim_space, range}
use flow_cast.Strings.Lower.{
  encode_rune, lower_ascii, is_ascii, to_lower_rune, lower_runes, lower_text,
}
use flow_cast.Examples.World.{env, password, registration, handler, draws_at, request_with, ana}
use flow_cast.Handlers.Env.{Env, conflict}
use flow_cast.Models.Identity.{Team, User}
use flow_cast.Repository.Users.Keeps.{
  user_repository-FindsCreated, IsConsistent, create_team_with_owner-IsConsistent,
}
use flow_cast.Repository.Users.Laws.{CreationEnds, create_team_with_owner-CreationEnds}
use flow_cast.Api.Decode.{decode_json}
use flow_cast.Examples.Accounts.{hashes_password}
use flow_cast.Handlers.Cookies.{respond_with_session}
use flow_cast.Handlers.Login.{team_of, login}
use flow_cast.Handlers.Login.Uniform.{Decodes}
use flow_cast.Handlers.Registration.{new_user, create_account}
use flow_cast.Http.{status_ok, status_created}
use flow_cast.Repository.Users.Accounts.{Signup, after_signups, on_tables, login-after_signups}

lower_ascii-lower_ascii : (b : ℕ) → lower_ascii (lower_ascii b) ≡ lower_ascii b
unfolding lower_ascii
lower_ascii-lower_ascii b = ground arith

map-lower_ascii : (s : Text) → map lower_ascii (map lower_ascii s) ≡ map lower_ascii s
map-lower_ascii [] = refl
map-lower_ascii (b ∷ s) = ground (arith, lower_ascii-lower_ascii b, map-lower_ascii s)

encode-lower :
    (r : ℕ)
    → map lower_ascii (encode_rune (to_lower_rune (λ x. x) r))
      ≡ encode_rune (to_lower_rune (λ x. x) r)
unfolding encode_rune lower_ascii
encode-lower r = ground arith

lower_runes-lower :
    (rs : List (ℕ × ℕ)) → map lower_ascii (lower_runes (λ x. x) rs) ≡ lower_runes (λ x. x) rs
unfolding lower_runes
lower_runes-lower [] = refl
lower_runes-lower ((i, r) ∷ rs) = rw (map-append, encode-lower r, lower_runes-lower rs)

lower_text-lower : (t : Text) → map lower_ascii (lower_text (λ x. x) t) ≡ lower_text (λ x. x) t
unfolding lower_text
lower_text-lower t = elim (Bool-cases (is_ascii t)) [
  | inl plain ↦ rw plain (map-lower_ascii t)
  | inr wide ↦ rw wide (lower_runes-lower (range t))
]

-- lower() in the C locale.
abbrev letters : Letters
letters = record {
  lower_rune = λ r. r;
  sql_lower = map lower_ascii;
  sql_lower-lower_text = lower_text-lower;
}

-- A server that numbers its rows.
abbrev numbering : Tables → Replies
numbering t = record {
  begins = true;
  team_row = some (length t.teams + 1, pos 5);
  user_row = some (length t.users + 1, pos 5);
  commit = committed;
}

abbrev no_rows : Tables
no_rows = record { teams = []; users = [] }

-- The owner of a first registration, and the tables with her.
abbrev first_owner : User
first_owner = record ana { id = 1; team_id = 1; email = bytes "ana@example.com" }

abbrev first_team : Team
first_team = record { id = 1; name = bytes "Ops"; created_at = pos 5; updated_at = pos 5 }

abbrev one_row : Tables
one_row = record { teams = first_team ∷ []; users = first_owner ∷ [] }

one_row-IsConsistent : IsConsistent letters one_row
one_row-IsConsistent = record {
  emails = (tt, tt);
  user_ids = (tt, tt);
  team_ids = (tt, tt);
  owners = ((first_team, inl refl, refl), tt);
}

-- Ana again, in other letters.
abbrev shouting : User
shouting = record ana { email = bytes " Ana@Example.COM" }

registered_twice :
    create_team_with_owner letters (numbering one_row) one_row (bytes "Dev") shouting
    ≡ (err conflict, one_row)
unfolding create_team_with_owner row_by_email has_user has_team insert_both text_eq bytes
    normalize_email lower_text lower_ascii trim_space
registered_twice = refl

create_team_with_owner-CreationEnds_example :
    CreationEnds letters
      (numbering one_row)
      one_row
      (bytes "Dev")
      shouting
      (create_team_with_owner letters (numbering one_row) one_row (bytes "Dev") shouting).0
      (create_team_with_owner letters (numbering one_row) one_row (bytes "Dev") shouting).1
create_team_with_owner-CreationEnds_example =
    create_team_with_owner-CreationEnds letters (numbering one_row) one_row (bytes "Dev") shouting

create_team_with_owner-IsConsistent_example :
    IsConsistent letters
      (create_team_with_owner letters (numbering one_row) one_row (bytes "Dev") shouting).1
create_team_with_owner-IsConsistent_example =
    create_team_with_owner-IsConsistent letters (numbering one_row) one_row (bytes "Dev") shouting
      one_row-IsConsistent

user_repository-FindsCreated_example : FindsCreated (user_repository letters numbering)
user_repository-FindsCreated_example = user_repository-FindsCreated letters numbering

-- The account of a registration with its hash, in the tables that were empty before.
abbrev made : User
made = record first_owner {
  password_hash = 5 ∷ password;
  name = registration.name;
  created_at = pos 5;
  updated_at = pos 5;
}

abbrev made_team : Team
made_team = record { id = 1; name = registration.team_name; created_at = pos 5; updated_at = pos 5 }

abbrev signed_up : Tables
signed_up = record { teams = made_team ∷ []; users = made ∷ [] }

makes_account :
    create_team_with_owner letters
      (numbering no_rows)
      no_rows
      registration.team_name
      (new_user registration (5 ∷ password))
    ≡ (ok (made_team, made), signed_up)
unfolding create_team_with_owner row_by_email has_user has_team insert_both text_eq bytes
    normalize_email lower_text lower_ascii trim_space
makes_account = refl

-- Somebody tries the same address, and a stranger registers.
abbrev others : List Signup
others =
    record { replies = numbering signed_up; team_name = bytes "Dev"; user = shouting }
    ∷ record {
      replies = numbering signed_up;
      team_name = bytes "Web";
      user = record ana { email = bytes "ben@example.com" };
    }
    ∷ []

-- The login types the address in capitals, behind a blank.
abbrev typing_env : Env
typing_env = record env {
  decode_login = λ t. ok (record { email = bytes " Ana@Example.COM"; password = password });
}

same_address :
    normalize_email letters (bytes " Ana@Example.COM") ≡ normalize_email letters registration.email
unfolding text_eq bytes normalize_email lower_text lower_ascii trim_space
same_address = refl

typed_credentials :
    Decodes
      (on_tables typing_env letters numbering)
      handler
      (request_with none)
      (record { email = bytes " Ana@Example.COM"; password = password })
unfolding decode_json bytes text_eq
typed_credentials = refl

no_rows-IsConsistent : IsConsistent letters no_rows
no_rows-IsConsistent = record { emails = tt; user_ids = tt; team_ids = tt; owners = tt }

login-after_signups_example :
    (create_account
        (on_tables typing_env letters numbering)
        handler
        (draws_at 1 1)
        no_rows
        (request_with none)
        registration
      ≡ (
        respond_with_session
            (on_tables typing_env letters numbering)
            handler
            (draws_at 1 1)
            (request_with none)
            status_created
            made
            made_team,
        signed_up,
      ))
    × ((login
          (on_tables typing_env letters numbering)
          handler
          (draws_at 2 5)
          (after_signups letters others signed_up)
          (request_with none)).actions
        ≡ respond_with_session
            (on_tables typing_env letters numbering)
            handler
            (draws_at 2 5)
            (request_with none)
            status_ok
            made
            (team_of made))
login-after_signups_example =
    login-after_signups letters numbering typing_env handler (draws_at 1 1) (draws_at 2 5) no_rows
      signed_up (request_with none) (request_with none) registration (5 ∷ password)
      (bytes " Ana@Example.COM") made_team made others no_rows-IsConsistent hashes_password
      makes_account same_address typed_credentials
