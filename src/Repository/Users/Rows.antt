-- ===== src/Repository/Users/Rows.antt =====
-- The lookups on the rows of backend/internal/repository/user.go.
use flow_cast.Base.{
  Text, text_eq, text_eq_iff, All, OneOf, ◌==◌, Bool-cases, Uuid, ◌≡◌, refl, sym, subst, ◌≢◌, inl,
  inr, true, false, none, some, List, [], ◌∷◌, arith,
}
use flow_cast.Repository.Users.{Letters, row_by_email, has_user, has_team}
use flow_cast.Models.Identity.{Team, User}

module _ (l : Letters) where
  pub row_by_email-none :
      (email : Text) (us : List User)
      → row_by_email l email us ≡ none
      → All (λ u. l.sql_lower u.email ≢ email) us
  unfolding row_by_email
  row_by_email-none email [] h = tt
  row_by_email-none email (u ∷ us) h = elim (Bool-cases (text_eq (l.sql_lower u.email) email)) [
    | inl e ↦ absurd (ground arith)
    | inr ne ↦ (
      λ e. ground (arith, text_eq_iff (l.sql_lower u.email) email),
      row_by_email-none email us (ground arith),
    )
  ]

  pub row_by_email-some :
      (email : Text) (us : List User) (v : User)
      → row_by_email l email us ≡ some v
      → OneOf v us × (l.sql_lower v.email ≡ email)
  unfolding row_by_email
  row_by_email-some email [] v h = cc h
  row_by_email-some email (u ∷ us) v h = elim (Bool-cases (text_eq (l.sql_lower u.email) email)) [
    | inl e ↦
        let here : u ≡ v = ground arith in
        (inl (sym here), rw (← here) ((text_eq_iff (l.sql_lower u.email) email).0 e))
    | inr ne ↦
        let (there, same_email) = row_by_email-some email us v (ground arith) in
        (inr there, same_email)
  ]

  pub row_by_email-head :
      (email : Text) (u : User) (us : List User)
      → l.sql_lower u.email ≡ email
      → row_by_email l email (u ∷ us) ≡ some u
  unfolding row_by_email
  row_by_email-head email u us e = ground (arith, text_eq_iff (l.sql_lower u.email) email)

  pub row_by_email-tail :
      (email : Text) (u : User) (us : List User)
      → l.sql_lower u.email ≢ email
      → row_by_email l email (u ∷ us) ≡ row_by_email l email us
  unfolding row_by_email
  row_by_email-tail email u us e = ground (arith, text_eq_iff (l.sql_lower u.email) email)

pub has_user-false : (id : Uuid) (us : List User) → has_user id us ≡ false → All (λ u. u.id ≢ id) us
unfolding has_user
has_user-false id [] h = tt
has_user-false id (u ∷ us) h = (λ e. ground arith, has_user-false id us (ground arith))

pub has_user-true :
    (id : Uuid) (us : List User) → has_user id us ≡ true → (u : User) × OneOf u us × (u.id ≡ id)
unfolding has_user
has_user-true id [] h = cc h
has_user-true id (u ∷ us) h = elim (Bool-cases (u.id == id)) [
  | inl e ↦ (u, inl refl, ground arith)
  | inr ne ↦ let (v, there, e) = has_user-true id us (ground arith) in (v, inr there, e)
]

pub has_team-false : (id : Uuid) (ts : List Team) → has_team id ts ≡ false → All (λ t. t.id ≢ id) ts
unfolding has_team
has_team-false id [] h = tt
has_team-false id (t ∷ ts) h = (λ e. ground arith, has_team-false id ts (ground arith))

pub OneOf-All : {A : Type 0} (P : A → Type 0) (x : A) (xs : List A) → OneOf x xs → All P xs → P x
OneOf-All P x [] m h = absurd m
OneOf-All P x (y ∷ ys) (inl e) (p, h) = subst P (sym e) p
OneOf-All P x (y ∷ ys) (inr m) (p, h) = OneOf-All P x ys m h

pub All-map :
    {A : Type 0} (P Q : A → Type 0) (f : (x : A) → P x → Q x) (xs : List A) → All P xs → All Q xs
All-map P Q f [] h = tt
All-map P Q f (x ∷ xs) (p, h) = (f x p, All-map P Q f xs h)
