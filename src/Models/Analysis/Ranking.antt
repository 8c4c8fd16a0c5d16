-- ===== src/Models/Analysis/Ranking.antt =====
-- Top beside SortHypotheses, of backend/internal/models/analysis.go.
use flow_cast.Base.{
  length-append, Bool-cases, ◌+◌, sym, ap, ◌∙◌, subst, inl, inr, Option, none, arith, length,
  get_elem?, if◌then◌else◌, ℕ, ◌≡◌, refl, some, List, [], ◌∷◌, ◌++◌,
}
use mathlib.Core.List.{head?, append_assoc}
use flow_cast.Models.Sort.{insert, sort_slice}
use flow_cast.Models.Analysis.{
  IncidentAnalysis, RootCauseHypothesis, hypothesis_at, is_better, best_from, top, rank_less,
  sort_hypotheses,
}

-- The loop on the hypotheses themselves in place of their indices.
keep_best : RootCauseHypothesis → List RootCauseHypothesis → RootCauseHypothesis
keep_best b [] = b
keep_best b (h ∷ hs) = keep_best (if rank_less h b then h else b) hs

get_elem?-middle :
    (before : List RootCauseHypothesis) (h : RootCauseHypothesis) (hs : List RootCauseHypothesis)
    → get_elem? (before ++ h ∷ hs) (length before) ≡ some h
get_elem?-middle [] h hs = refl
get_elem?-middle (b ∷ before) h hs = get_elem?-middle before h hs

is_better-some :
    (all : List RootCauseHypothesis) (best : ℕ) (b x : RootCauseHypothesis)
    → get_elem? all best ≡ some b
    → is_better all (some best) x ≡ rank_less x b
is_better-some all best b x h = rw (h, is_better)

-- What the loop leaves: an index at which the best hypothesis stands.
abbrev Points : List RootCauseHypothesis → Option ℕ → RootCauseHypothesis → Type 0
Points all o b = (j : ℕ) × (o ≡ some j) × (get_elem? all j ≡ some b)

best_from-keep_best :
    (all : List RootCauseHypothesis) (best : ℕ) (b : RootCauseHypothesis) (i : ℕ)
    (before hs : List RootCauseHypothesis)
    → all ≡ before ++ hs
    → i ≡ length before
    → get_elem? all best ≡ some b
    → Points all (best_from all (some best) i hs) (keep_best b hs)
unfolding best_from keep_best
best_from-keep_best all best b i before [] e at h = (best, refl, h)
best_from-keep_best all best b i before (x ∷ hs) e at h =
    let e' : all ≡ (before ++ x ∷ []) ++ hs = e ∙ sym (append_assoc before (x ∷ []) hs) in
    let at' : i + 1 ≡ length (before ++ x ∷ []) = omega (arith, length-append before (x ∷ [])) in
    let here : get_elem? all i ≡ some x = rw (e, at) (get_elem?-middle before x hs) in
    let test = is_better-some all best b x h in
    elim (Bool-cases (rank_less x b)) [
      | inl lt ↦
          subst
            (λ c.
              Points all (best_from all (if c then some i else some best) (i + 1) hs)
                (keep_best (if rank_less x b then x else b) hs))
            (sym (test ∙ lt))
            (rw lt (best_from-keep_best all i x (i + 1) (before ++ x ∷ []) hs e' at' here))
      | inr ge ↦
          subst
            (λ c.
              Points all (best_from all (if c then some i else some best) (i + 1) hs)
                (keep_best (if rank_less x b then x else b) hs))
            (sym (test ∙ ge))
            (rw ge (best_from-keep_best all best b (i + 1) (before ++ x ∷ []) hs e' at' h))
    ]

-- The least hypothesis, folded from the right as the sort does.
least : RootCauseHypothesis → List RootCauseHypothesis → RootCauseHypothesis
least x [] = x
least x (y ∷ ys) = if rank_less (least y ys) x then least y ys else x

head-insert :
    (x m : RootCauseHypothesis) (ys : List RootCauseHypothesis)
    → head? ys ≡ some m
    → head? (insert rank_less x ys) ≡ some (if rank_less m x then m else x)
unfolding insert
head-insert x m [] h = cc
head-insert x m (y ∷ ys) h = ground arith

head-sort_slice :
    (x : RootCauseHypothesis) (xs : List RootCauseHypothesis)
    → head? (sort_slice rank_less (x ∷ xs)) ≡ some (least x xs)
unfolding sort_slice least insert
head-sort_slice x [] = refl
head-sort_slice x (y ∷ ys) = head-insert x (least y ys) _ (head-sort_slice y ys)

least-better :
    (x y : RootCauseHypothesis) (ys : List RootCauseHypothesis)
    → least (if rank_less y x then y else x) ys ≡ least x (y ∷ ys)
unfolding least
least-better x y [] = ground arith
least-better x y (z ∷ zs) = ground arith

keep_best-least :
    (x : RootCauseHypothesis) (xs : List RootCauseHypothesis) → keep_best x xs ≡ least x xs
unfolding keep_best
keep_best-least x [] = unfold least in refl
keep_best-least x (y ∷ ys) =
    keep_best-least (if rank_less y x then y else x) ys ∙ least-better x y ys

top-cons :
    (a : IncidentAnalysis) (x : RootCauseHypothesis) (xs : List RootCauseHypothesis)
    → a.hypotheses ≡ x ∷ xs
    → top a ≡ some (keep_best x xs)
unfolding top
top-cons a x xs e =
    let (j, found, at) = best_from-keep_best (x ∷ xs) 0 x 1 (x ∷ []) xs refl refl refl in
    let pick = λ (hs : List RootCauseHypothesis). hypothesis_at hs (best_from hs none 0 hs) in
    ap pick e ∙ (ap (hypothesis_at (x ∷ xs)) found ∙ at)

top-head :
    (a : IncidentAnalysis) (hs : List RootCauseHypothesis)
    → a.hypotheses ≡ hs
    → top a ≡ head? (sort_slice rank_less hs)
unfolding top sort_slice
top-head a [] e = ap (λ hs. hypothesis_at hs (best_from hs none 0 hs)) e
top-head a (x ∷ xs) e =
    top-cons a x xs e ∙ (ap some (keep_best-least x xs) ∙ sym (head-sort_slice x xs))

-- Top of an analysis is the first hypothesis of SortHypotheses, which is none exactly where the
-- analysis has no hypotheses.
pub top-sort_hypotheses : (a : IncidentAnalysis) → top a ≡ head? (sort_hypotheses a).hypotheses
unfolding sort_hypotheses
top-sort_hypotheses a = top-head a a.hypotheses refl
