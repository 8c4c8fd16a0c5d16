-- ===== src/Repository/Users/Laws.antt =====
-- How a registration in the tables of backend/internal/repository/user.go ends, and what the tables
-- keep.
use flow_cast.Base.{
  if◌then◌else◌, Bool, true, false, Bool-cases, sym, ap, ◌∙◌, Text, Time, All, OneOf, Result, Uuid,
  ◌≡◌, refl, ◌≢◌, ◌⊎◌, inl, inr, Option, none, some, ◌∷◌, ok, err,
}
use flow_cast.Repository.Users.{
  rolled_back, commit_rows, end_transaction, CommitReply, committed, is_unique_violation,
  insert_team, insert_both, create_team_with_owner, refused_row, insert_error, Tables, reply_lost,
  Replies, InsertError, unique_violation, normalize_email, insert_user, Letters, row_by_email,
  has_user, has_team,
}
use flow_cast.Handlers.Env.{StoreError, conflict, other_error}
use flow_cast.Models.Identity.{Team, User}
use flow_cast.Strings.{trim_space}
use flow_cast.Repository.Users.Rows.{
  has_team-false, row_by_email-none, row_by_email-some, has_user-false, has_user-true,
}

-- The two rows of a registration, and the tables that have them besides the old ones.
pub record Adds (l : Letters) (t : Tables) (name : Text) (user : User) (team : Team) (made : User)
    (after : Tables) : Type 0 where
  pub rows : after ≡ record { teams = team ∷ t.teams; users = made ∷ t.users }
  pub owner : made.team_id ≡ team.id
  pub team_name : team.name ≡ trim_space name
  pub email : made.email ≡ normalize_email l user.email
  pub password_hash : made.password_hash ≡ user.password_hash
  pub user_name : made.name ≡ trim_space user.name
  pub fresh_email : All (λ u. l.sql_lower u.email ≢ normalize_email l user.email) t.users
  pub fresh_user : All (λ u. u.id ≢ made.id) t.users
  pub fresh_team : All (λ u. u.id ≢ team.id) t.teams

-- An address, or an id that the server drew, that a row has already.
abbrev pub IsTaken : Letters → Replies → Tables → User → Type 0
IsTaken l r t user =
    (u : User) × OneOf u t.users
    × ((l.sql_lower u.email ≡ normalize_email l user.email)
        ⊎ ((now : Time) × (r.user_row ≡ some (u.id, now))))

pub data CreationEnds (l : Letters) (r : Replies) (t : Tables) (name : Text) (user : User)
    (result : Result StoreError (Team × User)) (after : Tables) : Type 0 where
  both_made :
      (team : Team) (made : User)
      → result ≡ ok (team, made)
      → Adds l t name user team made after
      → CreationEnds l r t name user result after
  conflicting :
      result ≡ err conflict
      → after ≡ t
      → IsTaken l r t user
      → CreationEnds l r t name user result after
  failing : result ≡ err other_error → after ≡ t → CreationEnds l r t name user result after
  unheard :
      (team : Team) (made : User)
      → result ≡ err other_error
      → r.commit ≡ reply_lost
      → Adds l t name user team made after
      → CreationEnds l r t name user result after

module _ (l : Letters) where
  normal : (email : Text) → l.sql_lower (normalize_email l email) ≡ normalize_email l email
  unfolding normalize_email
  normal email = l.sql_lower-lower_text (trim_space email)

  -- What the two insertions do: both rows, or an error with its cause.
  abbrev Inserts :
      Replies → Tables → Text → User → Result StoreError ((Team × User) × Tables) → Type 0
  Inserts r t name user (ok ((team, made), after)) = Adds l t name user team made after
  Inserts r t name user (err e) = (e ≡ other_error) ⊎ ((e ≡ conflict) × IsTaken l r t user)

  abbrev InsertsUser :
      Replies → Tables → Uuid → Text → Text → Text → Result InsertError (User × Tables) → Type 0
  InsertsUser r t team_id email password_hash name (err refused_row) = Unit
  InsertsUser r t team_id email password_hash name (err unique_violation) =
      (u : User) × OneOf u t.users
      × ((l.sql_lower u.email ≡ l.sql_lower email)
          ⊎ ((now : Time) × (r.user_row ≡ some (u.id, now))))
  InsertsUser r t team_id email password_hash name (ok (made, after)) =
      (after ≡ record t { users = made ∷ t.users })
      × (made.team_id ≡ team_id)
      × (made.email ≡ email)
      × All (λ u. l.sql_lower u.email ≢ l.sql_lower email) t.users
      × All (λ u. u.id ≢ made.id) t.users
      × (made.password_hash ≡ password_hash)
      × (made.name ≡ name)

  Option-cases : (o : Option User) → (o ≡ none) ⊎ ((u : User) × (o ≡ some u))
  Option-cases none = inl refl
  Option-cases (some u) = inr (u, refl)

  insert_user-InsertsUser :
      (r : Replies) (t : Tables) (team_id : Uuid) (email password_hash name : Text)
      (row : Option (Uuid × Time))
      → r.user_row ≡ row
      → InsertsUser r t team_id email password_hash name
          (insert_user l t team_id email password_hash name row)
  unfolding insert_user
  insert_user-InsertsUser r t team_id email password_hash name none e = tt
  insert_user-InsertsUser r t team_id email password_hash name (some (id, now)) e =
      elim (Option-cases (row_by_email l (l.sql_lower email) t.users)) [
        | inr (u, known) ↦
            let (there, same_email) = row_by_email-some l (l.sql_lower email) t.users u known in
            rw known (u, there, inl same_email)
        | inl unknown ↦ elim (Bool-cases (has_user id t.users)) [
          | inl used ↦
              let (u, there, same_id) = has_user-true id t.users used in
              rw (unknown, used) (u, there, inr (now, e ∙ ap (λ x. some (x, now)) (sym same_id)))
          | inr unused ↦
              rw (unknown, unused)
                (
                  refl,
                  refl,
                  refl,
                  row_by_email-none l (l.sql_lower email) t.users unknown,
                  has_user-false id t.users unused,
                  refl,
                  refl,
                )
        ]
      ]

  -- The insertion of the team, and then that of the user.
  with_team :
      (r : Replies) (t : Tables) (name : Text) (user : User) (team : Team)
      → All (λ u. u.id ≢ team.id) t.teams
      → team.name ≡ trim_space name
      → (inserted : Result InsertError (User × Tables))
      → InsertsUser r
          (record t { teams = team ∷ t.teams })
          team.id
          (normalize_email l user.email)
          user.password_hash
          (trim_space user.name)
          inserted
      → Inserts r t name user
          (elim inserted [ err e ↦ err (insert_error e) | ok (made, t2) ↦ ok ((team, made), t2) ])
  unfolding is_unique_violation
  with_team r t name user team fresh named (err refused_row) h = inl refl
  with_team r t name user team fresh named (err unique_violation) (u, there, why) =
      inr (refl, (u, there, rw (normal user.email) at why))
  with_team r t name user team fresh named (ok (made, after)) (e, o, m, fe, fu, p, n) = record {
    rows = e;
    owner = o;
    team_name = named;
    email = m;
    password_hash = p;
    user_name = n;
    fresh_email = rw (normal user.email) at fe;
    fresh_user = fu;
    fresh_team = fresh;
  }

  insert_both-Inserts :
      (r : Replies) (t : Tables) (name : Text) (user : User) (row : Option (Uuid × Time))
      → Inserts r t name user (insert_both l (record r { team_row = row }) t name user)
  unfolding insert_both insert_team
  insert_both-Inserts r t name user none = inl refl
  insert_both-Inserts r t name user (some (id, now)) = elim (Bool-cases (has_team id t.teams)) [
    | inl used ↦ rw (used, Inserts) (inl refl)
    | inr unused ↦
        let team : Team = record {
          id = id;
          name = trim_space name;
          created_at = now;
          updated_at = now;
        } in
        rw (unused, Inserts)
          (with_team r t name user team (has_team-false id t.teams unused) refl _ (
            insert_user-InsertsUser r (record t { teams = team ∷ t.teams }) id
              (normalize_email l user.email) user.password_hash (trim_space user.name) r.user_row
              refl))
  ]

  abbrev Ends : Replies → Tables → Text → User → Result StoreError (Team × User) × Tables → Type 0
  Ends r t name user (result, after) = CreationEnds l r t name user result after

  commit_rows-Ends :
      (r : Replies) (reply : CommitReply) (t : Tables) (name : Text) (user : User)
      (done : (Team × User) × Tables)
      → r.commit ≡ reply
      → Adds l t name user done.0.0 done.0.1 done.1
      → Ends r t name user (commit_rows reply t done)
  unfolding commit_rows
  commit_rows-Ends r committed t name user ((team, made), after) e a = both_made team made refl a
  commit_rows-Ends r rolled_back t name user done e a = failing refl refl
  commit_rows-Ends r reply_lost t name user ((team, made), after) e a = unheard team made refl e a

  end_transaction-Ends :
      (r : Replies) (t : Tables) (name : Text) (user : User)
      (inserts : Result StoreError ((Team × User) × Tables))
      → Inserts r t name user inserts
      → Ends r t name user (end_transaction r.commit t inserts)
  unfolding end_transaction
  end_transaction-Ends r t name user (err e) (inl why) = failing (ap err why) refl
  end_transaction-Ends r t name user (err e) (inr (why, taken)) =
      conflicting (ap err why) refl taken
  end_transaction-Ends r t name user (ok done) a =
      commit_rows-Ends r r.commit t name user done refl a

  if_begun :
      (r : Replies) (begins : Bool) (t : Tables) (name : Text) (user : User)
      (done : Result StoreError (Team × User) × Tables)
      → Ends r t name user done
      → Ends r t name user (if begins then done else (err other_error, t))
  if_begun r true t name user done h = h
  if_begun r false t name user done h = failing refl refl

  -- A registration adds the team and its owner together, and answers with them; or it reports a
  -- conflict or another error and adds neither; only where the reply of the COMMIT is lost does it
  -- report an error with both rows added.
  pub create_team_with_owner-CreationEnds :
      (r : Replies) (t : Tables) (name : Text) (user : User)
      → let done = create_team_with_owner l r t name user in
        CreationEnds l r t name user done.0 done.1
  unfolding create_team_with_owner
  create_team_with_owner-CreationEnds r t name user = if_begun r r.begins t name user _ (
      end_transaction-Ends r t name user (insert_both l r t name user)
        (insert_both-Inserts r t name user r.team_row))
