-- ===== src/Handlers/Health/Slots.antt =====
-- The slots of the results in backend/internal/handlers/health.go.
use flow_cast.Base.{
  length, get_elem?, OneOf, Option-cases, ℕ, zero, suc, ◌+◌, ◌<◌, ◌≡◌, refl, sym, ap, ◌∙◌, ◌≢◌, inl,
  inr, none, some, List, [], ◌∷◌, ◌++◌, map, arith,
}
use flow_cast.Handlers.Health.{ProbeRun, empty_results, set_slot, finish_check, run_check}
use flow_cast.Api.Payload.{CheckResult}

unfoldable pub indexes : ℕ → List ProbeRun → List ℕ
indexes i [] = []
indexes i (c ∷ cs) = i ∷ indexes (suc i) cs

pub set_slot_self :
    (rs : List CheckResult) (i : ℕ) (v : CheckResult)
    → i < length rs
    → get_elem? (set_slot rs i v) i ≡ some v
unfolding set_slot
set_slot_self [] i v h = absurd (omega arith)
set_slot_self (r ∷ rs) zero v h = refl
set_slot_self (r ∷ rs) (suc i) v h = set_slot_self rs i v (omega arith)

pub set_slot-ne :
    (rs : List CheckResult) (i j : ℕ) (v : CheckResult)
    → i ≢ j
    → get_elem? (set_slot rs i v) j ≡ get_elem? rs j
unfolding set_slot
set_slot-ne [] i j v h = refl
set_slot-ne (r ∷ rs) zero zero v h = absurd (h refl)
set_slot-ne (r ∷ rs) zero (suc j) v h = refl
set_slot-ne (r ∷ rs) (suc i) zero v h = refl
set_slot-ne (r ∷ rs) (suc i) (suc j) v h = set_slot-ne rs i j v (λ e. h (ap suc e))

pub length-set_slot :
    (rs : List CheckResult) (i : ℕ) (v : CheckResult) → length (set_slot rs i v) ≡ length rs
unfolding set_slot
length-set_slot [] i v = refl
length-set_slot (r ∷ rs) zero v = refl
length-set_slot (r ∷ rs) (suc i) v = ap suc (length-set_slot rs i v)

pub get_elem?-lt :
    (cs : List ProbeRun) (i : ℕ) (c : ProbeRun) → get_elem? cs i ≡ some c → i < length cs
get_elem?-lt [] i c h = cc h
get_elem?-lt (d ∷ cs) zero c h = omega arith
get_elem?-lt (d ∷ cs) (suc i) c h = omega (arith, get_elem?-lt cs i c h)

pub OneOf-split :
    (j i : ℕ) (ahead behind : List ℕ)
    → i ≢ j
    → OneOf j (ahead ++ i ∷ behind)
    → OneOf j (ahead ++ behind)
OneOf-split j i [] behind ne (inl e) = absurd (ne (sym e))
OneOf-split j i [] behind ne (inr m) = m
OneOf-split j i (k ∷ ahead) behind ne (inl e) = inl e
OneOf-split j i (k ∷ ahead) behind ne (inr m) = inr (OneOf-split j i ahead behind ne m)

pub OneOf-indexes :
    (i j k : ℕ) (cs : List ProbeRun) (c : ProbeRun)
    → get_elem? cs j ≡ some c
    → k ≡ i + j
    → OneOf k (indexes i cs)
unfolding indexes
OneOf-indexes i j k [] c h e = cc h
OneOf-indexes i zero k (d ∷ cs) c h e = inl (omega arith)
OneOf-indexes i (suc j) k (d ∷ cs) c h e = inr (OneOf-indexes (suc i) j k cs c h (omega arith))

pub length-empty_results : (cs : List ProbeRun) → length (empty_results cs) ≡ length cs
unfolding empty_results
length-empty_results [] = refl
length-empty_results (c ∷ cs) = ap suc (length-empty_results cs)

pub finish_check-none :
    (checks : List ProbeRun) (i : ℕ) (rs : List CheckResult)
    → get_elem? checks i ≡ none
    → finish_check checks i rs ≡ rs
unfolding finish_check
finish_check-none checks i rs e = rw (e, finish_check) refl

pub finish_check-some :
    (checks : List ProbeRun) (i : ℕ) (rs : List CheckResult) (c : ProbeRun)
    → get_elem? checks i ≡ some c
    → finish_check checks i rs ≡ set_slot rs i (run_check c)
unfolding finish_check
finish_check-some checks i rs c e = rw (e, finish_check) refl

pub length-finish_check :
    (checks : List ProbeRun) (i : ℕ) (rs : List CheckResult)
    → length (finish_check checks i rs) ≡ length rs
length-finish_check checks i rs = elim (Option-cases (get_elem? checks i)) [
  | inl e ↦ ap length (finish_check-none checks i rs e)
  | inr (c, e) ↦ ap length (finish_check-some checks i rs c e) ∙ length-set_slot rs i (run_check c)
]

pub finish_check_self :
    (checks : List ProbeRun) (i : ℕ) (rs : List CheckResult) (c : ProbeRun)
    → length rs ≡ length checks
    → get_elem? checks i ≡ some c
    → get_elem? (finish_check checks i rs) i ≡ some (run_check c)
finish_check_self checks i rs c n h =
    ap (λ x. get_elem? x i) (finish_check-some checks i rs c h)
    ∙ set_slot_self rs i (run_check c) (omega (arith, get_elem?-lt checks i c h))

pub finish_check-ne :
    (checks : List ProbeRun) (i j : ℕ) (rs : List CheckResult)
    → i ≢ j
    → get_elem? (finish_check checks i rs) j ≡ get_elem? rs j
finish_check-ne checks i j rs h = elim (Option-cases (get_elem? checks i)) [
  | inl e ↦ ap (λ x. get_elem? x j) (finish_check-none checks i rs e)
  | inr (c, e) ↦
      ap (λ x. get_elem? x j) (finish_check-some checks i rs c e)
      ∙ set_slot-ne rs i j (run_check c) h
]

pub map_of_slots :
    (checks : List ProbeRun) (rs : List CheckResult)
    → length rs ≡ length checks
    → ((j : ℕ) (c : ProbeRun) → get_elem? checks j ≡ some c → get_elem? rs j ≡ some (run_check c))
    → rs ≡ map run_check checks
map_of_slots [] [] n h = refl
map_of_slots [] (r ∷ rs) n h = absurd (omega arith)
map_of_slots (c ∷ cs) [] n h = absurd (omega arith)
map_of_slots (c ∷ cs) (r ∷ rs) n h =
    let this : r ≡ run_check c = cc (h 0 c refl) in
    let rest = map_of_slots cs rs (omega arith) (λ j d e. h (suc j) d e) in cc
