-- ===== src/Models/Simulation.antt =====
-- backend/internal/models/simulation.go. A float64 that the package never reads is kept as its bits.
pub mod Validity
use flow_cast.Base.{
  Text, bytes, text_eq, Time, before, Float32, ltb_ℤ, ℤ, Result, ◌==◌, Uuid, uuid_nil, ℕ, Bool, not,
  ◌||◌, Option, none, some, List, [], ◌∷◌, ◌++◌, pos, err,
}
use flow_cast.Models.Enum.{valid_enum, parse_enum, InvalidEnumError}
use flow_cast.Models.Analysis.{validate_confidence}
use flow_cast.Models.Event.{rank_below_one}
use flow_cast.Models.Issues.{
  FieldIssue, ValidationError, Validator, no_issues, add, add_if, require, max_len, enum_field,
  err_of,
}

abbrev pub FaultAction : Type 0
FaultAction = Text

abbrev pub all_fault_actions : List FaultAction
all_fault_actions =
    bytes "ADD_LATENCY"
    ∷ bytes "RETURN_ERRORS"
    ∷ bytes "STOP_DEPENDENCY"
    ∷ bytes "EXHAUST_DB_POOL"
    ∷ bytes "SLOW_WORKER"
    ∷ bytes "BAD_DEPLOYMENT"
    ∷ []

pub fault_valid : FaultAction → Bool
fault_valid f = valid_enum f all_fault_actions

pub parse_fault_action : Text → Result InvalidEnumError FaultAction
parse_fault_action raw = parse_enum raw (bytes "fault action") all_fault_actions

-- The parameters are kept as their JSON text.
pub record ScenarioConfig : Type 0 where
  pub target : Text
  pub fault : FaultAction
  pub parameters : Text

unfoldable pub validate_config : ScenarioConfig → Option ValidationError
validate_config c =
    let (v1, _) = require no_issues (bytes "target") c.target in
    err_of (enum_field v1 (bytes "fault") c.fault all_fault_actions)

pub record SimulationScenario : Type 0 where
  pub id : Uuid
  pub name : Text
  pub category : Text
  pub description : Text
  pub root_cause : Text
  pub config : ScenarioConfig
  pub created_at : Time

abbrev pub RunStatus : Type 0
RunStatus = Text

abbrev pub run_completed : RunStatus
run_completed = bytes "completed"

abbrev pub run_failed : RunStatus
run_failed = bytes "failed"

abbrev pub all_run_statuses : List RunStatus
all_run_statuses =
    bytes "pending" ∷ bytes "running" ∷ bytes "analyzing" ∷ run_completed ∷ run_failed ∷ []

pub run_status_valid : RunStatus → Bool
run_status_valid s = valid_enum s all_run_statuses

pub parse_run_status : Text → Result InvalidEnumError RunStatus
parse_run_status raw = parse_enum raw (bytes "run status") all_run_statuses

unfoldable pub terminal : RunStatus → Bool
terminal s = text_eq s run_completed || text_eq s run_failed

pub record GroundTruth : Type 0 where
  pub root_cause : Text
  pub causal_event_ids : List Uuid
  pub noise_event_ids : List Uuid
  pub noise_level : ℕ

pub record SimulationRun : Type 0 where
  pub id : Uuid
  pub scenario_id : Uuid
  pub team_id : Uuid
  pub incident_id : Option Uuid
  pub status : RunStatus
  pub started_at : Option Time
  pub completed_at : Option Time
  pub ground_truth : GroundTruth
  pub created_at : Time

pub record EvaluationResult : Type 0 where
  pub id : Uuid
  pub simulation_run_id : Uuid
  pub root_cause_correct : Bool
  pub root_cause_rank : Option ℤ
  pub causal_precision : Option Float32
  pub causal_recall : Option Float32
  pub noise_accuracy : Option Float32
  pub diagnosis_latency_ms : ℤ
  pub created_at : Time

abbrev pub max_scenario_name_len : ℕ
max_scenario_name_len = 200

-- The loop that repeats the issues of the configuration under a prefix.
unfoldable pub add_prefixed : Validator → List FieldIssue → Validator
unfolding add
add_prefixed v [] = v
add_prefixed v (issue ∷ issues) =
    add_prefixed (add v (bytes "scenario_config." ++ issue.field) issue.message) issues

-- errors.As(err, &configErr) holds of every error of the configuration.
abbrev pub add_config_issues : Validator → Option ValidationError → Validator
add_config_issues v none = v
add_config_issues v (some config_err) = add_prefixed v config_err.issues

unfoldable pub validate_scenario : SimulationScenario → Option ValidationError
unfolding validate_config add_prefixed
validate_scenario s =
    let (v1, name) = require no_issues (bytes "name") s.name in
    let v2 = max_len v1 (bytes "name") name max_scenario_name_len in
    let (v3, _) = require v2 (bytes "category") s.category in
    let (v4, _) = require v3 (bytes "root_cause") s.root_cause in
    err_of (add_config_issues v4 (validate_config s.config))

-- The checks on the end of a run, which may have no start.
unfoldable pub check_completed : Validator → Option Time → Option Time → Validator
unfolding add add_if
check_completed v none started_at = v
check_completed v (some completed_at) none =
    add v (bytes "completed_at") (bytes "cannot be set before started_at")
check_completed v (some completed_at) (some started_at) =
    add_if (before completed_at started_at) v (bytes "completed_at")
      (bytes "must not be before started_at")

unfoldable pub validate_run : SimulationRun → Option ValidationError
validate_run r =
    let v1 = enum_field no_issues (bytes "status") r.status all_run_statuses in
    let v2 = add_if (r.scenario_id == uuid_nil) v1 (bytes "scenario_id") (bytes "is required") in
    let v3 = add_if (r.team_id == uuid_nil) v2 (bytes "team_id") (bytes "is required") in
    err_of (check_completed v3 r.completed_at r.started_at)

-- One round of the loop over the metrics.
unfoldable pub check_metric : Validator → Text → Option Float32 → Validator
unfolding validate_confidence
check_metric v field none = v
check_metric v field (some value) = validate_confidence v field value

unfoldable pub validate_evaluation : EvaluationResult → Option ValidationError
validate_evaluation e =
    let v1 =
      add_if (e.simulation_run_id == uuid_nil) no_issues (bytes "simulation_run_id")
        (bytes "is required") in
    let v2 =
      add_if (rank_below_one e.root_cause_rank) v1 (bytes "root_cause_rank")
        (bytes "must be positive when set") in
    let v3 =
      add_if (ltb_ℤ e.diagnosis_latency_ms (pos 0)) v2 (bytes "diagnosis_latency_ms")
        (bytes "must not be negative") in
    let v4 = check_metric v3 (bytes "causal_precision") e.causal_precision in
    let v5 = check_metric v4 (bytes "causal_recall") e.causal_recall in
    err_of (check_metric v5 (bytes "noise_accuracy") e.noise_accuracy)
