-- ===== src/Repository/Users.antt =====
-- backend/internal/repository/user.go: users and teams in PostgreSQL. The tables are lists of rows, on
-- which the statements of the file are carried out; what the server decides by itself (whether a
-- statement goes through, new ids and times) is an argument. The indexes are those of
-- backend/migrations/0002_identity.sql.
pub mod Rows
pub mod Laws
pub mod Keeps
pub mod Accounts
use flow_cast.Base.{
  take, Text, Time, Result, err, ok, Uuid, ◌==◌, if◌then◌else◌, text_eq, Bool, true, false, ◌||◌,
  ◌≡◌, ℕ, Option, none, some, List, [], ◌∷◌,
}
use flow_cast.Handlers.Env.{StoreError, not_found, conflict, other_error, UserStore}
use flow_cast.Models.Identity.{Team, User}
use flow_cast.Strings.{trim_space}
use flow_cast.Strings.Lower.{lower_text}

-- unicode.ToLower beyond ASCII, and the lower() of PostgreSQL, which leaves a text in lower case as it
-- is.
pub record Letters : Type 0 where
  pub lower_rune : ℕ → ℕ
  pub sql_lower : Text → Text
  pub sql_lower-lower_text :
      (t : Text) → sql_lower (lower_text lower_rune t) ≡ lower_text lower_rune t

pub record Tables : Type 0 where
  pub teams : List Team
  pub users : List User

-- How a COMMIT ends; where the reply is lost, the caller gets an error though the rows are there.
pub data CommitReply : Type 0 where
  committed rolled_back reply_lost : CommitReply

-- What the server does with the statements of a registration: the id and the time of a new row, or
-- none where it refuses the statement.
pub record Replies : Type 0 where
  pub begins : Bool
  pub team_row : Option (Uuid × Time)
  pub user_row : Option (Uuid × Time)
  pub commit : CommitReply

pub data InsertError : Type 0 where
  unique_violation refused_row : InsertError

unfoldable pub is_unique_violation : InsertError → Bool
is_unique_violation unique_violation = true
is_unique_violation refused_row = false

unfoldable pub has_team : Uuid → List Team → Bool
has_team id [] = false
has_team id (t ∷ ts) = t.id == id || has_team id ts

unfoldable pub has_user : Uuid → List User → Bool
has_user id [] = false
has_user id (u ∷ us) = u.id == id || has_user id us

abbrev pub is_some : Option User → Bool
is_some none = false
is_some (some u) = true

-- INSERT INTO teams
unfoldable pub insert_team : Tables → Text → Option (Uuid × Time) → Option (Team × Tables)
insert_team t name none = none
insert_team t name (some (id, now)) =
    let team : Team = record { id = id; name = name; created_at = now; updated_at = now } in
    if has_team id t.teams then none else some (team, record t { teams = team ∷ t.teams })

abbrev pub insert_error : InsertError → StoreError
insert_error e = if is_unique_violation e then conflict else other_error

-- COMMIT; without it the deferred ROLLBACK leaves the tables as they were.
unfoldable pub commit_rows :
    CommitReply → Tables → (Team × User) × Tables → Result StoreError (Team × User) × Tables
commit_rows committed before (rows, after) = (ok rows, after)
commit_rows rolled_back before (rows, after) = (err other_error, before)
commit_rows reply_lost before (rows, after) = (err other_error, after)

abbrev pub row_or_error {ℓ} : {A : Type ℓ} → Bool → Option A → Result StoreError A
row_or_error false row = err other_error
row_or_error true none = err not_found
row_or_error true (some row) = ok row

unfoldable pub row_by_id : Uuid → List User → Option User
row_by_id id [] = none
row_by_id id (u ∷ us) = if u.id == id then some u else row_by_id id us

unfoldable pub find_by_id : Bool → Tables → Uuid → Result StoreError User
unfolding row_by_id
find_by_id answers t id = row_or_error answers (row_by_id id t.users)

unfoldable pub team_by_id : Uuid → List Team → Option Team
team_by_id id [] = none
team_by_id id (t ∷ ts) = if t.id == id then some t else team_by_id id ts

unfoldable pub find_team_by_id : Bool → Tables → Uuid → Result StoreError Team
unfolding team_by_id
find_team_by_id answers t id = row_or_error answers (team_by_id id t.teams)

-- The way out of the transaction, by an error or by COMMIT.
unfoldable pub end_transaction :
    CommitReply
    → Tables
    → Result StoreError ((Team × User) × Tables)
    → Result StoreError (Team × User) × Tables
unfolding commit_rows
end_transaction reply before (err e) = (err e, before)
end_transaction reply before (ok done) = commit_rows reply before done

module _ (l : Letters) where
  unfoldable pub normalize_email : Text → Text
  normalize_email email = lower_text l.lower_rune (trim_space email)

  -- WHERE lower(email) = $1
  unfoldable pub row_by_email : Text → List User → Option User
  row_by_email email [] = none
  row_by_email email (u ∷ us) =
      if text_eq (l.sql_lower u.email) email then some u else row_by_email email us

  -- INSERT INTO users, with the unique indexes on lower(email) and on the id
  unfoldable pub insert_user :
      Tables → Uuid → Text → Text → Text → Option (Uuid × Time) → Result InsertError (User × Tables)
  insert_user t team_id email password_hash name none = err refused_row
  insert_user t team_id email password_hash name (some (id, now)) =
      let user : User = record {
        id = id;
        team_id = team_id;
        email = email;
        password_hash = password_hash;
        name = name;
        created_at = now;
        updated_at = now;
      } in
      if is_some (row_by_email (l.sql_lower email) t.users) || has_user id t.users
      then err unique_violation
      else ok (user, record t { users = user ∷ t.users })

  -- The statements between BEGIN and COMMIT, on the tables as the transaction sees them.
  unfoldable pub insert_both :
      Replies → Tables → Text → User → Result StoreError ((Team × User) × Tables)
  unfolding insert_team insert_user normalize_email is_unique_violation
  insert_both r t team_name user = elim (insert_team t (trim_space team_name) r.team_row) [
    | none ↦ err other_error
    | some (team, t1) ↦
        elim (insert_user t1 team.id (normalize_email user.email) user.password_hash
          (trim_space user.name) r.user_row) [
            | err e ↦ err (insert_error e)
            | ok (made, t2) ↦ ok ((team, made), t2)
          ]
  ]

  unfoldable pub create_team_with_owner :
      Replies → Tables → Text → User → Result StoreError (Team × User) × Tables
  unfolding insert_both end_transaction
  create_team_with_owner r t team_name user =
      if r.begins
      then end_transaction r.commit t (insert_both r t team_name user)
      else (err other_error, t)

  unfoldable pub find_by_email : Bool → Tables → Text → Result StoreError User
  unfolding row_by_email normalize_email
  find_by_email answers t email =
      row_or_error answers (row_by_email (normalize_email email) t.users)

-- A server that answers every query, and does with a registration what the tables make it do.
abbrev pub created_rows :
    Result StoreError (Team × User) × Tables → Result StoreError (Team × User × Tables)
created_rows (err e, t) = err e
created_rows (ok (team, user), t) = ok (team, user, t)

-- The repository as the store that the handlers take.
abbrev pub user_repository : Letters → (Tables → Replies) → UserStore
user_repository l server = record {
  Users = Tables;
  create_team_with_owner =
      λ t team_name user. created_rows (create_team_with_owner l (server t) t team_name user);
  find_by_email = find_by_email l true;
  find_by_id = find_by_id true;
}
