-- ===== src/Models/Analysis.antt =====
-- backend/internal/models/analysis.go.
pub mod Validity
pub mod Ranking
use flow_cast.Base.{
  Text, bytes, Time, before, float_zero, float_one, float_ltb, Float32, ltb_ℤ, eq_ℤ, ℤ, length,
  get_elem?, ltb, ◌==◌, if◌then◌else◌, Uuid, uuid_nil, ℕ, ◌+◌, ◌<◌, Bool, true, false, not, ◌||◌,
  Option, none, some, List, [], ◌∷◌, pos,
}
use flow_cast.Models.Sort.{sort_slice}
use flow_cast.Models.Issues.{
  ValidationError, Validator, no_issues, add, add_if, require, max_len, enum_field, err_of,
}

abbrev pub max_hypotheses : ℕ
max_hypotheses = 3

pub record RootCauseHypothesis : Type 0 where
  pub id : Uuid
  pub analysis_id : Uuid
  pub rank : ℤ
  pub cause : Text
  pub confidence : Float32
  pub evidence_event_ids : List Uuid
  pub created_at : Time

pub record IncidentAnalysis : Type 0 where
  pub id : Uuid
  pub incident_id : Uuid
  pub predicted_root_cause : Text
  pub confidence : Float32
  pub reasoning_summary : Text
  pub model : Text
  pub prompt_version : Text
  pub created_at : Time
  pub hypotheses : List RootCauseHypothesis

-- best == -1 || h.Rank < a.Hypotheses[best].Rank, where -1 is none. An index out of range would
-- panic; it does not occur.
abbrev pub is_better : List RootCauseHypothesis → Option ℕ → RootCauseHypothesis → Bool
is_better all none h = true
is_better all (some best) h = elim (get_elem? all best) [
  | none ↦ false
  | some b ↦ ltb_ℤ h.rank b.rank
]

-- The loop of Top, at index `i`.
pub best_from : List RootCauseHypothesis → Option ℕ → ℕ → List RootCauseHypothesis → Option ℕ
best_from all best i [] = best
best_from all best i (h ∷ hs) =
    best_from all (if is_better all best h then some i else best) (i + 1) hs

-- a.Hypotheses[best], true
abbrev pub hypothesis_at : List RootCauseHypothesis → Option ℕ → Option RootCauseHypothesis
hypothesis_at hs none = none
hypothesis_at hs (some best) = get_elem? hs best

-- Top; its second result is whether there is one.
unfoldable pub top : IncidentAnalysis → Option RootCauseHypothesis
unfolding best_from
top a = hypothesis_at a.hypotheses (best_from a.hypotheses none 0 a.hypotheses)

abbrev pub rank_less : RootCauseHypothesis → RootCauseHypothesis → Bool
rank_less x y = ltb_ℤ x.rank y.rank

unfoldable pub sort_hypotheses : IncidentAnalysis → IncidentAnalysis
sort_hypotheses a = record a { hypotheses = sort_slice rank_less a.hypotheses }

unfoldable pub validate_confidence : Validator → Text → Float32 → Validator
unfolding add_if
validate_confidence v field value =
    add_if (float_ltb value float_zero || float_ltb float_one value) v field
      (bytes "must be between 0 and 1")

abbrev pub contains_rank : ℤ → List ℤ → Bool
contains_rank rank [] = false
contains_rank rank (r ∷ rs) = if eq_ℤ rank r then true else contains_rank rank rs

-- The loop over the ranks, which ends at the first one that was seen before.
unfoldable pub check_ranks : Validator → List ℤ → List RootCauseHypothesis → Validator
unfolding add
check_ranks v seen_ranks [] = v
check_ranks v seen_ranks (h ∷ hs) =
    if contains_rank h.rank seen_ranks
    then add v (bytes "hypotheses") (bytes "ranks must be distinct")
    else check_ranks v (h.rank ∷ seen_ranks) hs

unfoldable pub validate_analysis : IncidentAnalysis → Option ValidationError
validate_analysis a =
    let (v1, _) = require no_issues (bytes "predicted_root_cause") a.predicted_root_cause in
    let (v2, _) = require v1 (bytes "model") a.model in
    let (v3, _) = require v2 (bytes "prompt_version") a.prompt_version in
    let v4 = add_if (a.incident_id == uuid_nil) v3 (bytes "incident_id") (bytes "is required") in
    let v5 = validate_confidence v4 (bytes "confidence") a.confidence in
    let v6 =
      add_if (ltb max_hypotheses (length a.hypotheses)) v5 (bytes "hypotheses")
        (bytes "must contain at most 3 entries") in
    err_of (check_ranks v6 [] a.hypotheses)

-- The loop over the evidence, which ends at the first empty id.
unfoldable pub check_evidence : Validator → List Uuid → Validator
unfolding add
check_evidence v [] = v
check_evidence v (id ∷ ids) =
    if id == uuid_nil
    then add v (bytes "evidence_event_ids") (bytes "must not contain an empty id")
    else check_evidence v ids

unfoldable pub validate_hypothesis : RootCauseHypothesis → Option ValidationError
validate_hypothesis h =
    let (v1, _) = require no_issues (bytes "cause") h.cause in
    let v2 = validate_confidence v1 (bytes "confidence") h.confidence in
    let v3 =
      add_if (ltb_ℤ h.rank (pos 1) || ltb_ℤ (pos max_hypotheses) h.rank) v2 (bytes "rank")
        (bytes "must be between 1 and 3") in
    err_of (check_evidence v3 h.evidence_event_ids)
