-- ===== src/Repository/Users/Keeps.antt =====
-- What registrations keep of the tables of backend/internal/repository/user.go, and what the lookups
-- find in them.
use flow_cast.Base.{
  DistinctBy, err, Text, All, OneOf, Result, Uuid, ◌≡◌, refl, sym, ap, ◌∙◌, subst, ◌≢◌, ◌↔◌, inl,
  inr, true, some, List, [], ◌∷◌, arith, ok,
}
use flow_cast.Repository.Users.{
  row_or_error, created_rows, Tables, Replies, normalize_email, create_team_with_owner,
  find_by_email, user_repository, Letters, row_by_email,
}
use flow_cast.Handlers.Env.{StoreError}
use flow_cast.Handlers.Registration.Laws.{FindsCreated}
use flow_cast.Models.Identity.{Team, User}
use flow_cast.Repository.Users.Laws.{
  Adds, CreationEnds, both_made, conflicting, failing, unheard, create_team_with_owner-CreationEnds,
}
use flow_cast.Repository.Users.Rows.{
  row_by_email-some, row_by_email-head, row_by_email-tail, OneOf-All, All-map,
}
use flow_cast.Strings.{trim_space}

abbrev pub HasTeam : List Team → Uuid → Type 0
HasTeam ts id = (t : Team) × OneOf t ts × (t.id ≡ id)

-- The unique indexes hold, and each user belongs to a team that is there.
pub record IsConsistent (l : Letters) (t : Tables) : Type 0 where
  pub emails : DistinctBy (λ (u : User). l.sql_lower u.email) t.users
  pub user_ids : DistinctBy (λ (u : User). u.id) t.users
  pub team_ids : DistinctBy (λ (x : Team). x.id) t.teams
  pub owners : All (λ (u : User). HasTeam t.teams u.team_id) t.users

module _ (l : Letters) where
  made_email :
      {t : Tables} {name : Text} {user : User} {team : Team} {made : User} {after : Tables}
      → Adds l t name user team made after
      → l.sql_lower made.email ≡ normalize_email l user.email
  unfolding normalize_email
  made_email {user} a = ap l.sql_lower a.email ∙ l.sql_lower-lower_text (trim_space user.email)

  Adds-IsConsistent :
      {t : Tables} {name : Text} {user : User} {team : Team} {made : User} {after : Tables}
      → IsConsistent l t
      → Adds l t name user team made after
      → IsConsistent l after
  Adds-IsConsistent {t} {team} {made} c a = subst (IsConsistent l) (sym a.rows) (record {
    emails = (
      subst (λ e. All (λ (u : User). l.sql_lower u.email ≢ e) t.users) (sym (made_email a))
          a.fresh_email,
      c.emails,
    );
    user_ids = (a.fresh_user, c.user_ids);
    team_ids = (a.fresh_team, c.team_ids);
    owners = (
      (team, inl refl, sym a.owner),
      All-map (λ (u : User). HasTeam t.teams u.team_id) _ (λ u h. (h.0, inr h.1, h.2)) t.users
          c.owners,
    );
  })

  CreationEnds-IsConsistent :
      {r : Replies} {t : Tables} {name : Text} {user : User}
      {result : Result StoreError (Team × User)} {after : Tables}
      → IsConsistent l t
      → CreationEnds l r t name user result after
      → IsConsistent l after
  CreationEnds-IsConsistent c (both_made team made e a) = Adds-IsConsistent c a
  CreationEnds-IsConsistent c (conflicting e kept_rows why) =
      subst (IsConsistent l) (sym kept_rows) c
  CreationEnds-IsConsistent c (failing e kept_rows) = subst (IsConsistent l) (sym kept_rows) c
  CreationEnds-IsConsistent c (unheard team made e lost a) = Adds-IsConsistent c a

  -- A registration, however it ends, keeps the addresses of the users different in lower case, the ids
  -- of users and of teams different, and each user in a team that is there.
  pub create_team_with_owner-IsConsistent :
      (r : Replies) (t : Tables) (name : Text) (user : User)
      → IsConsistent l t
      → IsConsistent l (create_team_with_owner l r t name user).1
  create_team_with_owner-IsConsistent r t name user c =
      CreationEnds-IsConsistent c (create_team_with_owner-CreationEnds l r t name user)

  row_by_email-member :
      (email : Text) (us : List User) (v : User)
      → DistinctBy (λ (u : User). l.sql_lower u.email) us
      → OneOf v us
      → l.sql_lower v.email ≡ email
      → row_by_email l email us ≡ some v
  row_by_email-member email [] v d m e = absurd m
  row_by_email-member email (u ∷ us) v d (inl same_user) e =
      row_by_email-head l email u us (ap (λ (x : User). l.sql_lower x.email) (sym same_user) ∙ e)
      ∙ ap some (sym same_user)
  row_by_email-member email (u ∷ us) v (apart, d) (inr m) e =
      row_by_email-tail l email u us (λ h.
        OneOf-All (λ (x : User). l.sql_lower x.email ≢ l.sql_lower u.email) v us m apart
          (e ∙ sym h))
      ∙ row_by_email-member email us v d m e

  -- FindByEmail answers with a user exactly where that user is in the table and its address in lower
  -- case is the normal form of the one asked for.
  pub find_by_email_iff :
      (t : Tables) (email : Text) (u : User)
      → IsConsistent l t
      → (find_by_email l true t email ≡ ok u)
        ↔ (OneOf u t.users × (l.sql_lower u.email ≡ normalize_email l email))
  unfolding find_by_email
  find_by_email_iff t email u c = (
    λ h. row_by_email-some l (normalize_email l email) t.users u (ground arith),
    λ h. rw (row_by_email-member (normalize_email l email) t.users u c.emails h.0 h.1),
  )

  Adds-find_by_email :
      {t : Tables} {name : Text} {user : User} {team : Team} {made : User} {after : Tables}
      → Adds l t name user team made after
      → find_by_email l true after user.email ≡ ok made
  unfolding find_by_email
  Adds-find_by_email {t} {user} {team} {made} a =
      subst (λ x. find_by_email l true x user.email ≡ ok made) (sym a.rows)
        (ap (row_or_error true)
          (row_by_email-head l (normalize_email l user.email) made t.users (made_email a)))

  pub ends-finds :
      {r : Replies} {t : Tables} {name : Text} {user : User}
      {result : Result StoreError (Team × User)} {after : Tables} (team : Team) (made : User)
      → CreationEnds l r t name user result after
      → result ≡ ok (team, made)
      → (find_by_email l true after user.email ≡ ok made)
        × (made.password_hash ≡ user.password_hash)
  ends-finds {user} {after} team made (both_made team' made' e a) h =
      let same_user : made' ≡ made = cc in
      subst
        (λ x.
          (find_by_email l true after user.email ≡ ok x) × (x.password_hash ≡ user.password_hash))
        same_user (Adds-find_by_email a, a.password_hash)
  ends-finds team made (conflicting e kept_rows why) h = cc
  ends-finds team made (failing e kept_rows) h = cc
  ends-finds team made (unheard team' made' e lost a) h = cc

created_rows-ok :
    (x : Result StoreError (Team × User) × Tables) (team : Team) (made : User) (after : Tables)
    → created_rows x ≡ ok (team, made, after)
    → (x.0 ≡ ok (team, made)) × (x.1 ≡ after)
created_rows-ok (err e, t) team made after h = cc
created_rows-ok (ok (team', made'), t) team made after h = (cc, cc)

-- As the store of the handlers the repository finds each user that it has created under the address of
-- the registration, as the one that was made and with its password hash.
pub user_repository-FindsCreated :
    (l : Letters) (server : Tables → Replies) → FindsCreated (user_repository l server)
user_repository-FindsCreated l server db db' name user made team h =
    let (answered, after) =
      created_rows-ok (create_team_with_owner l (server db) db name user) team made db' h in
    let (found_again, same_hash) =
      ends-finds l team made (create_team_with_owner-CreationEnds l (server db) db name user)
        answered in
    (
      made,
      subst (λ x. find_by_email l true x user.email ≡ ok made) after found_again,
      same_hash,
      refl,
    )
