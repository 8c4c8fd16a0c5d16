-- ===== src/Repository/Incidents/Rows.antt =====
-- The rows that a statement on the incidents of backend/internal/repository/incident.go reads and
-- changes.
use flow_cast.Base.{Bool-cases, ◌≡◌, refl, inl, inr, Bool, true, false, List, [], ◌∷◌, arith}
use flow_cast.Repository.Incidents.{where_rows, update_rows}
use flow_cast.Models.Incident.{Incident}

pub where_rows-within :
    (f g : Incident → Bool) (rows : List Incident)
    → ((i : Incident) → f i ≡ true → g i ≡ true)
    → where_rows f (where_rows g rows) ≡ where_rows f rows
unfolding where_rows
where_rows-within f g [] h = refl
where_rows-within f g (i ∷ is) h = elim (Bool-cases (g i)) [
  | inl inside ↦ ground (arith, where_rows-within f g is h)
  | inr outside ↦ ground (arith, h i, where_rows-within f g is h)
]

pub where_rows_comm :
    (f g : Incident → Bool) (rows : List Incident)
    → where_rows f (where_rows g rows) ≡ where_rows g (where_rows f rows)
unfolding where_rows
where_rows_comm f g [] = refl
where_rows_comm f g (i ∷ is) = ground (arith, where_rows_comm f g is)

-- Rows that a change leaves where they are do not tell the rows behind a test.
pub where_rows-update_rows :
    (f test : Incident → Bool) (change : Incident → Incident) (rows : List Incident)
    → ((i : Incident) → f (change i) ≡ f i)
    → where_rows f (update_rows test change rows) ≡ update_rows test change (where_rows f rows)
unfolding where_rows update_rows
where_rows-update_rows f test change [] h = refl
where_rows-update_rows f test change (i ∷ is) h =
    ground (arith, h i, where_rows-update_rows f test change is h)

-- A change that meets none of the rows.
pub update_rows-none :
    (f test : Incident → Bool) (change : Incident → Incident) (rows : List Incident)
    → ((i : Incident) → f i ≡ true → test i ≡ false)
    → update_rows test change (where_rows f rows) ≡ where_rows f rows
unfolding where_rows update_rows
update_rows-none f test change [] h = refl
update_rows-none f test change (i ∷ is) h = ground (arith, h i, update_rows-none f test change is h)
