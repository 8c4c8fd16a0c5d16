-- ===== src/Repository/Incidents/Pages/Order.antt =====
-- The order of the pages of List in backend/internal/repository/incident.go.
use mathlib.Core.Logic.{∥∥₁_elim}
use native.Mathlib.Nat.{ℕ_set}
use flow_cast.Base.{
  take, drop, Uuid, ℕ, sym, true, some, map, ok, length, All, DistinctBy, if◌then◌else◌, Bool-cases,
  suc, ◌≡◌, refl, ap, ◌∙◌, ◌≢◌, inl, inr, Bool, List, [], ◌∷◌, arith,
}
use flow_cast.Repository.Incidents.{scan_incident, where_rows}
use flow_cast.Repository.Incidents.Listing.{to_count, IncidentPage, list_incidents, is_newer}
use mathlib.Core.List.{Perm, Permᴰ}
use mathlib.Core.List.Perm
use flow_cast.Models.Incident.{Incident}
use flow_cast.Models.Sort.Laws.{sort_slice-eq_of_perm, IsOrder, Apart, AllApart}
use flow_cast.Models.Sort.{sort_slice}
use flow_cast.Repository.{int_value, IncidentFilter, bounds}
use flow_cast.Repository.Incidents.Pages.{is_wanted, total_of, page_of, list_incidents_lem}

is_newer-IsOrder : IsOrder is_newer
unfolding is_newer
is_newer-IsOrder = record { asym = λ a b h. ground arith; split = λ a b c h. ground arith }

is_newer-Apart : (a b : Incident) → b.id ≢ a.id → Apart is_newer a b
unfolding is_newer
is_newer-Apart a b h = ground arith

Apart-All :
    (a : Incident) (is : List Incident) → All (λ b. b.id ≢ a.id) is → All (Apart is_newer a) is
Apart-All a [] h = tt
Apart-All a (b ∷ is) (h, hs) = (is_newer-Apart a b h, Apart-All a is hs)

All-where_rows :
    (P : Incident → Type 0) (f : Incident → Bool) (is : List Incident)
    → All P is
    → All P (where_rows f is)
unfolding where_rows
All-where_rows P f [] h = tt
All-where_rows P f (i ∷ is) (p, h) = elim (Bool-cases (f i)) [
  | inl kept_row ↦ rw kept_row (p, All-where_rows P f is h)
  | inr dropped ↦ rw dropped (All-where_rows P f is h)
]

AllApart-where_rows :
    (f : Incident → Bool) (is : List Incident)
    → DistinctBy (λ (i : Incident). i.id) is
    → AllApart is_newer (where_rows f is)
unfolding where_rows
AllApart-where_rows f [] h = tt
AllApart-where_rows f (i ∷ is) (h, hs) = elim (Bool-cases (f i)) [
  | inl kept_row ↦
      rw kept_row
        (All-where_rows (Apart is_newer i) f is (Apart-All i is h), AllApart-where_rows f is hs)
  | inr dropped ↦ rw dropped (AllApart-where_rows f is hs)
]

head_row : (Incident → Bool) → Incident → List Incident → List Incident
head_row f i is = if f i then i ∷ is else is

head_row-perm :
    (f : Incident → Bool) (i : Incident) (xs ys : List Incident)
    → Perm xs ys
    → Perm (head_row f i xs) (head_row f i ys)
unfolding head_row
head_row-perm f i xs ys p = elim (Bool-cases (f i)) [
  | inl kept_row ↦ rw kept_row (Perm.cons i p)
  | inr dropped ↦ rw dropped p
]

head_row-swap :
    (f : Incident → Bool) (i j : Incident) (xs : List Incident)
    → Perm (head_row f i (head_row f j xs)) (head_row f j (head_row f i xs))
unfolding head_row
head_row-swap f i j xs = elim (Bool-cases (f i)) [
  | inl kept_i ↦ elim (Bool-cases (f j)) [
    | inl kept_j ↦ rw (kept_i, kept_j) (Perm.swap _ _ _)
    | inr dropped ↦ rw (kept_i, dropped) (Perm.refl _)
  ]
  | inr dropped ↦ rw dropped (Perm.refl _)
]

where_rows-permᴰ :
    (f : Incident → Bool) {xs ys : List Incident}
    → Permᴰ xs ys
    → Perm (where_rows f xs) (where_rows f ys)
unfolding where_rows head_row
where_rows-permᴰ f Permᴰ.nil = Perm.refl _
where_rows-permᴰ f (Permᴰ.cons {a} {l₁ = xs} {l₂ = ys} e p) =
    rw (← e) (head_row-perm f a (where_rows f xs) (where_rows f ys) (where_rows-permᴰ f p))
where_rows-permᴰ f (Permᴰ.swap {a} {b} {l} e g) =
    rw (← e, ← g) (head_row-swap f a b (where_rows f l))
where_rows-permᴰ f (Permᴰ.trans p q) = Perm.trans (where_rows-permᴰ f p) (where_rows-permᴰ f q)

length-permᴰ : {xs ys : List Incident} → Permᴰ xs ys → length xs ≡ length ys
length-permᴰ Permᴰ.nil = refl
length-permᴰ (Permᴰ.cons e p) = ap suc (length-permᴰ p)
length-permᴰ (Permᴰ.swap e f) = refl
length-permᴰ (Permᴰ.trans p q) = length-permᴰ p ∙ length-permᴰ q

where_rows-perm :
    (f : Incident → Bool) {xs ys : List Incident}
    → Perm xs ys
    → Perm (where_rows f xs) (where_rows f ys)
where_rows-perm f p = ∥∥₁_elim p (hlevel) (λ q. where_rows-permᴰ f q)

length-perm : {xs ys : List Incident} → Perm xs ys → length xs ≡ length ys
length-perm p = ∥∥₁_elim p (ℕ_set _ _) (λ q. length-permᴰ q)

Incident-set : IsSet Incident
Incident-set = hlevel

page_with : Uuid → IncidentFilter → List Incident → ℕ → IncidentPage
page_with team f sorted n =
    let shown =
      take (to_count (some (int_value (bounds f).0)))
        (drop (to_count (some (int_value (bounds f).1))) sorted) in
    record { incidents = map scan_incident shown; total = total_of shown n }

page_of-perm :
    (team : Uuid) (f : IncidentFilter) (xs ys : List Incident)
    → Perm xs ys
    → DistinctBy (λ (i : Incident). i.id) xs
    → page_of team f xs ≡ page_of team f ys
unfolding page_with
page_of-perm team f xs ys p h =
    let fewer = where_rows-perm (is_wanted team f) p in
    ap (λ s. page_with team f s (length (where_rows (is_wanted team f) xs)))
      (sort_slice-eq_of_perm is_newer-IsOrder Incident-set _ _ fewer
        (AllApart-where_rows (is_wanted team f) xs h))
    ∙ ap (page_with team f (sort_slice is_newer (where_rows (is_wanted team f) ys)))
        (length-perm fewer)

-- The order in which the table keeps its rows does not show: where ids are distinct, List has the same
-- page for any order of the rows, also where incidents share a start time.
pub list_incidents-deterministic :
    (team : Uuid) (f : IncidentFilter) (xs ys : List Incident)
    → Perm xs ys
    → DistinctBy (λ (i : Incident). i.id) xs
    → list_incidents true team f xs ≡ list_incidents true team f ys
list_incidents-deterministic team f xs ys p h =
    list_incidents_lem team f xs
    ∙ ap ok (page_of-perm team f xs ys p h)
    ∙ sym (list_incidents_lem team f ys)
