-- ===== src/Models/Simulation/Validity.antt =====
-- What Validate of a scenario, a run and an evaluation result accepts.
use flow_cast.Base.{
  bytes, refl, ◌++◌, Text, Time, Float32, ◌≤ℤ◌, ltb_ℤ-false_iff, length, OneOf, iff_trans, and_then,
  iff_refl, uuid_nil, ◌≤◌, ◌≡◌, ◌≢◌, ◌↔◌, Option, none, some, List, [], ◌∷◌, arith, pos,
}
use flow_cast.Strings.{trim_space}
use flow_cast.Models.Issues.{ValidationError, Validator, add, FieldIssue}
use flow_cast.Models.Issues.Clean.{
  err_of-issues, Clean, add-not-Clean, add_if-Clean, require-Clean, required_max_len-Clean,
  enum_field-Clean, err_of-Clean,
}
use flow_cast.Models.Analysis.Validity.{IsConfidence, validate_confidence-Clean}
use flow_cast.Models.Event.Validity.{RankIsPositive, rank_iff}
use flow_cast.Models.Simulation.{
  ScenarioConfig, SimulationScenario, SimulationRun, EvaluationResult, all_fault_actions,
  all_run_statuses, max_scenario_name_len, add_prefixed, add_config_issues, validate_config,
  validate_scenario, check_completed, validate_run, check_metric, validate_evaluation,
}

pub record ConfigIsValid (c : ScenarioConfig) : Type 0 where
  pub target : trim_space c.target ≢ []
  pub fault : OneOf c.fault all_fault_actions

pub validate_config_iff : (c : ScenarioConfig) → (validate_config c ≡ none) ↔ ConfigIsValid c
unfolding validate_config
validate_config_iff c =
    iff_trans (err_of-Clean _) (
      iff_trans (and_then (enum_field-Clean _ _ _ _) (require-Clean _ _ _) iff_refl) (ground arith))

-- The repeated issues stay.
add_prefixed-not-Clean :
    (v : Validator) (issues : List FieldIssue) → ¬ Clean v → ¬ Clean (add_prefixed v issues)
unfolding add_prefixed
add_prefixed-not-Clean v [] h = h
add_prefixed-not-Clean v (issue ∷ issues) h =
    add_prefixed-not-Clean (add v (bytes "scenario_config." ++ issue.field) issue.message) issues
      (add-not-Clean v _ _)

add_prefixed-nonempty :
    (v : Validator) (issues : List FieldIssue) → issues ≢ [] → ¬ Clean (add_prefixed v issues)
unfolding add_prefixed
add_prefixed-nonempty v [] h = absurd (h refl)
add_prefixed-nonempty v (issue ∷ issues) h = add_prefixed-not-Clean _ issues (add-not-Clean v _ _)

add_config_issues-Clean :
    (v : Validator) (o : Option ValidationError)
    → ((e : ValidationError) → o ≡ some e → e.issues ≢ [])
    → Clean (add_config_issues v o) ↔ (Clean v × (o ≡ none))
add_config_issues-Clean v none h = (λ c. (c, refl), λ p. p.0)
add_config_issues-Clean v (some e) h =
    (λ c. absurd (add_prefixed-nonempty v e.issues (h e refl) c), λ p. cc p.1)

config-issues :
    (c : ScenarioConfig) (e : ValidationError) → validate_config c ≡ some e → e.issues ≢ []
unfolding validate_config
config-issues c e h = err_of-issues _ e h

pub record ScenarioIsValid (s : SimulationScenario) : Type 0 where
  pub named : trim_space s.name ≢ []
  pub name_fits : length (trim_space s.name) ≤ max_scenario_name_len
  pub category : trim_space s.category ≢ []
  pub root_cause : trim_space s.root_cause ≢ []
  pub target : trim_space s.config.target ≢ []
  pub fault : OneOf s.config.fault all_fault_actions

-- Validate of a scenario reports no error exactly if its trimmed name is not empty and has at most
-- 200 bytes, its category, its root cause and the target of its configuration are not blank, and
-- the fault of the configuration is on the list of fault actions.
pub validate_scenario_iff :
    (s : SimulationScenario) → (validate_scenario s ≡ none) ↔ ScenarioIsValid s
unfolding validate_scenario
validate_scenario_iff s = iff_trans (err_of-Clean _) (
    iff_trans
      (and_then (add_config_issues-Clean _ _ (config-issues s.config))
        (and_then (require-Clean _ _ _)
          (and_then (require-Clean _ _ _) (required_max_len-Clean _ _ _ _) iff_refl) iff_refl)
        (validate_config_iff s.config))
      (ground arith))

-- The order of the times of a run.
abbrev pub CompletedInOrder : Option Time → Option Time → Type 0
CompletedInOrder none started_at = Unit
CompletedInOrder (some completed_at) none = ⊥
CompletedInOrder (some completed_at) (some started_at) = started_at ≤ℤ completed_at

check_completed-Clean :
    (v : Validator) (completed_at started_at : Option Time)
    → Clean (check_completed v completed_at started_at)
      ↔ (Clean v × CompletedInOrder completed_at started_at)
unfolding check_completed
check_completed-Clean v none started_at = ground arith
check_completed-Clean v (some c) none = (λ h. absurd (add-not-Clean v _ _ h), λ h. absurd h.1)
check_completed-Clean v (some c) (some s) =
    and_then (add_if-Clean _ _ _ _) iff_refl (ltb_ℤ-false_iff c s)

pub record RunIsValid (r : SimulationRun) : Type 0 where
  pub status : OneOf r.status all_run_statuses
  pub scenario : r.scenario_id ≢ uuid_nil
  pub owned : r.team_id ≢ uuid_nil
  pub ordered : CompletedInOrder r.completed_at r.started_at

-- Validate of a run reports no error exactly if its status is a known one, scenario and team are
-- set, and it has no end, or a start and an end that is not before it.
pub validate_run_iff : (r : SimulationRun) → (validate_run r ≡ none) ↔ RunIsValid r
unfolding validate_run
validate_run_iff r = iff_trans (err_of-Clean _) (
    iff_trans
      (and_then (check_completed-Clean _ _ _)
        (and_then (add_if-Clean _ _ _ _)
          (and_then (add_if-Clean _ _ _ _) (enum_field-Clean _ _ _ _) iff_refl) iff_refl)
        iff_refl)
      (ground arith))

abbrev pub MetricIsConfidence : Option Float32 → Type 0
MetricIsConfidence none = Unit
MetricIsConfidence (some value) = IsConfidence value

check_metric-Clean :
    (v : Validator) (field : Text) (metric : Option Float32)
    → Clean (check_metric v field metric) ↔ (Clean v × MetricIsConfidence metric)
unfolding check_metric
check_metric-Clean v field none = ground arith
check_metric-Clean v field (some value) = validate_confidence-Clean v field value

pub record EvaluationIsValid (e : EvaluationResult) : Type 0 where
  pub run : e.simulation_run_id ≢ uuid_nil
  pub rank : RankIsPositive e.root_cause_rank
  pub latency : pos 0 ≤ℤ e.diagnosis_latency_ms
  pub precision : MetricIsConfidence e.causal_precision
  pub recall : MetricIsConfidence e.causal_recall
  pub accuracy : MetricIsConfidence e.noise_accuracy

-- Validate of an evaluation result reports no error exactly if the run is set, the rank is absent or
-- at least 1, the latency is not negative, and each of the three metrics is absent, NaN or a number
-- from 0 to 1.
pub validate_evaluation_iff :
    (e : EvaluationResult) → (validate_evaluation e ≡ none) ↔ EvaluationIsValid e
unfolding validate_evaluation
validate_evaluation_iff e = iff_trans (err_of-Clean _) (
    iff_trans
      (and_then (check_metric-Clean _ _ _)
        (and_then (check_metric-Clean _ _ _)
          (and_then (check_metric-Clean _ _ _)
            (and_then (add_if-Clean _ _ _ _)
              (and_then (add_if-Clean _ _ _ _) (add_if-Clean _ _ _ _) (rank_iff e.root_cause_rank))
              (ltb_ℤ-false_iff e.diagnosis_latency_ms (pos 0)))
            iff_refl)
          iff_refl)
        iff_refl)
      (ground arith))
