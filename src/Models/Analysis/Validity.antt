-- ===== src/Models/Analysis/Validity.antt =====
-- What Validate of an analysis and of a hypothesis accepts.
use flow_cast.Base.{
  Text, bytes, float_zero, float_one, float_ltb, Float32, ◌≤ℤ◌, eq_ℤ_iff, ℤ, length, All, iff_trans,
  and_then, iff_refl, Uuid, uuid_nil, ◌^◌, ◌≤◌, ◌≡◌, ◌≢◌, ◌↔◌, false, ◌||◌, none, List, [], ◌∷◌,
  arith, pos, negsuc, nan, minus_infinity, infinity, finite,
}
use flow_cast.Strings.{trim_space}
use flow_cast.Models.Issues.{Validator}
use flow_cast.Models.Issues.Clean.{Clean, add-not-Clean, add_if-Clean, require-Clean, err_of-Clean}
use flow_cast.Models.Analysis.{
  IncidentAnalysis, RootCauseHypothesis, max_hypotheses, contains_rank, validate_confidence,
  check_ranks, check_evidence, validate_analysis, validate_hypothesis,
}

-- What the test for a probability lets through: a number from 0 to 1, and NaN, with which every
-- comparison is false.
abbrev pub IsConfidence : Float32 → Type 0
IsConfidence nan = Unit
IsConfidence minus_infinity = ⊥
IsConfidence infinity = ⊥
IsConfidence (finite a) = (pos 0 ≤ℤ a) × (a ≤ℤ pos (2 ^ 149))

range_iff :
    (value : Float32)
    → ((float_ltb value float_zero || float_ltb float_one value) ≡ false) ↔ IsConfidence value
unfolding float_ltb float_zero float_one
range_iff nan = ground arith
range_iff minus_infinity = ground arith
range_iff infinity = ground arith
range_iff (finite (pos n)) = ground arith
range_iff (finite (negsuc n)) = ground arith

pub validate_confidence-Clean :
    (v : Validator) (field : Text) (value : Float32)
    → Clean (validate_confidence v field value) ↔ (Clean v × IsConfidence value)
unfolding validate_confidence
validate_confidence-Clean v field value = and_then (add_if-Clean _ _ _ _) iff_refl (range_iff value)

abbrev pub Fresh : ℤ → List ℤ → Type 0
Fresh rank [] = Unit
Fresh rank (r ∷ rs) = (rank ≢ r) × Fresh rank rs

-- Each rank differs from those before it.
abbrev pub RanksDistinct : List ℤ → List RootCauseHypothesis → Type 0
RanksDistinct seen [] = Unit
RanksDistinct seen (h ∷ hs) = Fresh h.rank seen × RanksDistinct (h.rank ∷ seen) hs

contains_rank_iff : (rank : ℤ) (seen : List ℤ) → (contains_rank rank seen ≡ false) ↔ Fresh rank seen
contains_rank_iff rank [] = ground arith
contains_rank_iff rank (r ∷ rs) = ground (arith, contains_rank_iff rank rs, eq_ℤ_iff rank r)

check_ranks-Clean :
    (v : Validator) (seen : List ℤ) (hs : List RootCauseHypothesis)
    → Clean (check_ranks v seen hs) ↔ (Clean v × RanksDistinct seen hs)
unfolding check_ranks
check_ranks-Clean v seen [] = ground arith
check_ranks-Clean v seen (h ∷ hs) = ground (
  arith,
  check_ranks-Clean v (h.rank ∷ seen) hs,
  contains_rank_iff h.rank seen,
  add-not-Clean v (bytes "hypotheses") (bytes "ranks must be distinct"),
)

check_evidence-Clean :
    (v : Validator) (ids : List Uuid)
    → Clean (check_evidence v ids) ↔ (Clean v × All (λ id. id ≢ uuid_nil) ids)
unfolding check_evidence
check_evidence-Clean v [] = ground arith
check_evidence-Clean v (id ∷ ids) = ground (
  arith,
  check_evidence-Clean v ids,
  add-not-Clean v (bytes "evidence_event_ids") (bytes "must not contain an empty id"),
)

pub record AnalysisIsValid (a : IncidentAnalysis) : Type 0 where
  pub predicted : trim_space a.predicted_root_cause ≢ []
  pub model : trim_space a.model ≢ []
  pub prompt_version : trim_space a.prompt_version ≢ []
  pub owned : a.incident_id ≢ uuid_nil
  pub confidence : IsConfidence a.confidence
  pub few : length a.hypotheses ≤ max_hypotheses
  pub ranks : RanksDistinct [] a.hypotheses

-- Validate of an analysis reports no error exactly if cause, model and prompt version are not blank,
-- the incident is set, the confidence is a number from 0 to 1 or NaN, and there are at most 3
-- hypotheses, each of a rank that no hypothesis before it has.
pub validate_analysis_iff :
    (a : IncidentAnalysis) → (validate_analysis a ≡ none) ↔ AnalysisIsValid a
unfolding validate_analysis
validate_analysis_iff a = iff_trans (err_of-Clean _) (
    iff_trans
      (and_then (check_ranks-Clean _ _ _)
        (and_then (add_if-Clean _ _ _ _)
          (and_then (validate_confidence-Clean _ _ _)
            (and_then (add_if-Clean _ _ _ _)
              (and_then (require-Clean _ _ _)
                (and_then (require-Clean _ _ _) (require-Clean _ _ _) iff_refl) iff_refl)
              iff_refl)
            iff_refl)
          iff_refl)
        iff_refl)
      (ground arith))

pub record HypothesisIsValid (h : RootCauseHypothesis) : Type 0 where
  pub cause : trim_space h.cause ≢ []
  pub confidence : IsConfidence h.confidence
  pub at_least : pos 1 ≤ℤ h.rank
  pub at_most : h.rank ≤ℤ pos max_hypotheses
  pub evidence : All (λ id. id ≢ uuid_nil) h.evidence_event_ids

-- Validate of a hypothesis reports no error exactly if its cause is not blank, its confidence is a
-- number from 0 to 1 or NaN, its rank is 1, 2 or 3, and it cites no empty event id.
pub validate_hypothesis_iff :
    (h : RootCauseHypothesis) → (validate_hypothesis h ≡ none) ↔ HypothesisIsValid h
unfolding validate_hypothesis
validate_hypothesis_iff h = iff_trans (err_of-Clean _) (
    iff_trans
      (and_then (check_evidence-Clean _ _)
        (and_then (add_if-Clean _ _ _ _)
          (and_then (validate_confidence-Clean _ _ _) (require-Clean _ _ _) iff_refl) iff_refl)
        iff_refl)
      (ground arith))
