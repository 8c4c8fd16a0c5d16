-- ===== src/Repository/Users/Accounts.antt =====
-- Accounts in the tables of backend/internal/repository/user.go, through the handlers of
-- backend/internal/handlers/auth.go, while other registrations go on.
use flow_cast.Base.{
  ap, none, Text, OneOf, Result, ◌≡◌, sym, ◌∙◌, subst, inr, true, List, [], ◌∷◌, ok,
}
use flow_cast.Handlers.Env.{Env, AuthHandler, Draws, RegisterRequest, StoreError}
use flow_cast.Auth.Password.{verify, hash}
use flow_cast.Handlers.Cookies.{respond_with_session}
use flow_cast.Handlers.Login.{team_of, login}
use flow_cast.Handlers.Login.Uniform.{login-good, Decodes}
use flow_cast.Handlers.Registration.{create_account, new_user}
use flow_cast.Http.{status_created, Request, status_ok}
use flow_cast.Models.Identity.{Team, User}
use flow_cast.Repository.Users.{
  created_rows, Letters, Tables, Replies, normalize_email, create_team_with_owner, find_by_email,
  user_repository,
}
use flow_cast.Repository.Users.Keeps.{
  ends-finds, IsConsistent, create_team_with_owner-IsConsistent, find_by_email_iff,
}
use flow_cast.Repository.Users.Laws.{
  CreationEnds, both_made, conflicting, failing, unheard, create_team_with_owner-CreationEnds,
}
use flow_cast.Auth.Password.Laws.{hash-verify}
use flow_cast.Handlers.Registration.Laws.{create_account-made}

-- A registration as the repository gets it, with what the server does with it.
pub record Signup : Type 0 where
  pub replies : Replies
  pub team_name : Text
  pub user : User

-- The tables after registrations, however each of them ends.
unfoldable pub after_signups : Letters → List Signup → Tables → Tables
after_signups l [] t = t
after_signups l (s ∷ more) t =
    after_signups l more (create_team_with_owner l s.replies t s.team_name s.user).1

-- The handlers on the tables.
abbrev pub on_tables : Env → Letters → (Tables → Replies) → Env
on_tables env l server = record env { users = user_repository l server }

module _ (l : Letters) where
  CreationEnds-keeps :
      {r : Replies} {t : Tables} {name : Text} {user : User}
      {result : Result StoreError (Team × User)} {after : Tables} (u : User)
      → OneOf u t.users
      → CreationEnds l r t name user result after
      → OneOf u after.users
  CreationEnds-keeps u m (both_made team made e a) =
      subst (λ (x : Tables). OneOf u x.users) (sym a.rows) (inr m)
  CreationEnds-keeps u m (conflicting e kept_rows why) =
      subst (λ (x : Tables). OneOf u x.users) (sym kept_rows) m
  CreationEnds-keeps u m (failing e kept_rows) =
      subst (λ (x : Tables). OneOf u x.users) (sym kept_rows) m
  CreationEnds-keeps u m (unheard team made e lost a) =
      subst (λ (x : Tables). OneOf u x.users) (sym a.rows) (inr m)

  after_signups-keeps :
      (signups : List Signup) (t : Tables) (u : User)
      → IsConsistent l t
      → OneOf u t.users
      → IsConsistent l (after_signups l signups t) × OneOf u (after_signups l signups t).users
  unfolding after_signups
  after_signups-keeps [] t u c m = (c, m)
  after_signups-keeps (s ∷ more) t u c m =
      after_signups-keeps more (create_team_with_owner l s.replies t s.team_name s.user).1 u
        (create_team_with_owner-IsConsistent l s.replies t s.team_name s.user c)
        (CreationEnds-keeps u m
          (create_team_with_owner-CreationEnds l s.replies t s.team_name s.user))

  -- Whoever is found by an address is found by it, in any letters and between blanks, after any
  -- further registrations.
  find_by_email-after_signups :
      (signups : List Signup) (t : Tables) (u : User) (email typed : Text)
      → IsConsistent l t
      → find_by_email l true t email ≡ ok u
      → normalize_email l typed ≡ normalize_email l email
      → find_by_email l true (after_signups l signups t) typed ≡ ok u
  find_by_email-after_signups signups t u email typed c known same_address =
      let (m, e) = (find_by_email_iff l t email u c).0 known in
      let (c', m') = after_signups-keeps signups t u c m in
      (find_by_email_iff l (after_signups l signups t) typed u c').1 (m', e ∙ sym same_address)

  -- A registration that goes through in consistent tables is answered with a session of the user that
  -- was made, and later its address, in any letters and between blanks, and its password log that user
  -- in, whatever registrations come between and however they end.
  pub login-after_signups :
      (server : Tables → Replies) (env : Env) (h : AuthHandler) (d d' : Draws) (t t' : Tables)
      (r r' : Request) (req : RegisterRequest) (hashed typed : Text) (team : Team) (made : User)
      (signups : List Signup)
      → IsConsistent l t
      → hash env.bcrypt d.salt h.hasher req.password ≡ ok hashed
      → create_team_with_owner l (server t) t req.team_name (new_user req hashed)
        ≡ (ok (team, made), t')
      → normalize_email l typed ≡ normalize_email l req.email
      → Decodes (on_tables env l server) h r' (record { email = typed; password = req.password })
      → (create_account (on_tables env l server) h d t r req
          ≡ (respond_with_session (on_tables env l server) h d r status_created made team, t'))
        × ((login (on_tables env l server) h d' (after_signups l signups t') r').actions
            ≡ respond_with_session (on_tables env l server) h d' r' status_ok made (team_of made))
  login-after_signups server env h d d' t t' r r' req hashed typed team made signups c hashes making
        same_address decodes =
      let (known, same_hash) =
        ends-finds l team made
          (create_team_with_owner-CreationEnds l (server t) t req.team_name (new_user req hashed))
          (ap (λ x. x.0) making) in
      let consistent : IsConsistent l t' = subst (IsConsistent l) (ap (λ x. x.1) making) (
        create_team_with_owner-IsConsistent l (server t) t req.team_name (new_user req hashed) c) in
      let known_after : find_by_email l true t' req.email ≡ ok made =
        subst (λ x. find_by_email l true x req.email ≡ ok made) (ap (λ x. x.1) making) known in
      let good : verify env.bcrypt made.password_hash req.password ≡ none =
        subst (λ x. verify env.bcrypt x req.password ≡ none) (sym same_hash)
          ((hash-verify env.bcrypt d.salt h.hasher req.password).0 hashed hashes) in
      let stored : created_rows
            (create_team_with_owner l (server t) t req.team_name (new_user req hashed))
          ≡ ok (team, made, t') =
        ap created_rows making in
      (
        create_account-made (on_tables env l server) h d t t' r req hashed team made hashes stored,
        login-good (on_tables env l server) h d' (after_signups l signups t') r'
            (record { email = typed; password = req.password }) made decodes
            (find_by_email-after_signups signups t' made req.email typed consistent known_after
              same_address)
            good,
      )
