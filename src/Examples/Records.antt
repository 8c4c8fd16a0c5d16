-- ===== src/Examples/Records.antt =====
-- The records of the models at concrete values.
use flow_cast.Base.{length, ◌≤◌, ◌≢◌, ◌∷◌, negsuc, nan, bytes, ◌≡◌, ◌↔◌, true, none, some, [], pos}
use flow_cast.Models.Email.{valid_email}
use flow_cast.Models.Email.Shape.{IsAddress}
use flow_cast.Models.Incident.{validate_incident, Incident}
use flow_cast.Models.Analysis.{
  RootCauseHypothesis, IncidentAnalysis, validate_analysis, validate_hypothesis,
}
use flow_cast.Models.Analysis.Validity.{AnalysisIsValid, HypothesisIsValid}
use flow_cast.Models.Event.{Event, validate_event}
use flow_cast.Models.Event.Validity.{EventIsValid}
use flow_cast.Models.Identity.{
  Team, User, Integration, max_team_name_len, validate_team, validate_user, validate_integration,
}
use flow_cast.Models.Identity.Validity.{UserIsValid, IntegrationIsValid}
use flow_cast.Models.Incident.Validity.{IncidentIsValid}
use flow_cast.Models.Postmortem.{Postmortem, validate_postmortem}
use flow_cast.Models.Postmortem.Validity.{PostmortemIsValid}
use flow_cast.Models.Simulation.{
  SimulationScenario, SimulationRun, EvaluationResult, validate_scenario, validate_run,
  validate_evaluation,
}
use flow_cast.Models.Simulation.Validity.{ScenarioIsValid, RunIsValid, EvaluationIsValid}
use flow_cast.Models.Validity.{validators_iff}
use flow_cast.Strings.{trim_space}

abbrev pub outage : Incident
outage = record {
  id = 1;
  team_id = 2;
  external_id = none;
  title = bytes "API down";
  description = [];
  severity = bytes "P1";
  status = bytes "resolved";
  source = bytes "pagerduty";
  started_at = pos 10;
  resolved_at = some (pos 70);
  embedding = [];
  metadata = [];
  created_at = pos 10;
  updated_at = pos 70;
}

abbrev ops : Team
ops = record { id = 2; name = bytes "Ops"; created_at = pos 1; updated_at = pos 1 }

abbrev owner : User
owner = record {
  id = 3;
  team_id = 2;
  email = bytes "ana@example.com";
  password_hash = bytes "hash";
  name = bytes "Ana";
  created_at = pos 1;
  updated_at = pos 1;
}

abbrev pager : Integration
pager = record {
  id = 4;
  team_id = 2;
  provider = bytes "pagerduty";
  webhook_secret = bytes "0123456789abcdef";
  config = [];
  enabled = true;
  created_at = pos 1;
  updated_at = pos 1;
}

abbrev deploy : Event
deploy = record {
  id = 5;
  incident_id = 1;
  source = bytes "github";
  event_type = bytes "deploy";
  title = bytes "Release";
  description = [];
  service = bytes "api";
  occurred_at = pos 9;
  raw_payload = [];
  classification = bytes "root_cause";
  causal_rank = some (pos 1);
  created_at = pos 9;
}

abbrev first_guess : RootCauseHypothesis
first_guess = record {
  id = 6;
  analysis_id = 7;
  rank = pos 1;
  cause = bytes "Bad release";
  confidence = nan;
  evidence_event_ids = 5 ∷ [];
  created_at = pos 20;
}

abbrev diagnosis : IncidentAnalysis
diagnosis = record {
  id = 7;
  incident_id = 1;
  predicted_root_cause = bytes "Bad release";
  confidence = nan;
  reasoning_summary = [];
  model = bytes "mock";
  prompt_version = bytes "1";
  created_at = pos 20;
  hypotheses = first_guess ∷ first_guess ∷ [];
}

abbrev scenario : SimulationScenario
scenario = record {
  id = 8;
  name = bytes "Lost cache";
  category = bytes "cache";
  description = [];
  root_cause = bytes "Cache stopped";
  config = record { target = bytes "redis"; fault = bytes "stop"; parameters = [] };
  created_at = pos 1;
}

abbrev drill : SimulationRun
drill = record {
  id = 9;
  scenario_id = 8;
  team_id = 2;
  incident_id = none;
  status = bytes "completed";
  started_at = some (pos 30);
  completed_at = some (pos 20);
  ground_truth = record {
    root_cause = bytes "Cache stopped";
    causal_event_ids = [];
    noise_event_ids = [];
    noise_level = 0;
  };
  created_at = pos 1;
}

abbrev score : EvaluationResult
score = record {
  id = 10;
  simulation_run_id = 9;
  root_cause_correct = true;
  root_cause_rank = some (pos 1);
  causal_precision = some nan;
  causal_recall = none;
  noise_accuracy = none;
  diagnosis_latency_ms = negsuc 0;
  created_at = pos 40;
}

abbrev summary : Postmortem
summary = record {
  id = 11;
  incident_id = 1;
  executive_summary = bytes "A release took the API down.";
  impact = [];
  root_cause = [];
  timeline_md = [];
  contributing_factors = [];
  action_items = record { description = bytes "Roll back sooner"; owner = [] } ∷ [];
  uncertainties = [];
  generated_at = pos 50;
  updated_at = pos 50;
}

validators_iff_example :
    ((validate_team ops ≡ none)
      ↔ ((trim_space ops.name ≢ []) × (length (trim_space ops.name) ≤ max_team_name_len)))
    × ((validate_user owner ≡ none) ↔ UserIsValid owner)
    × ((validate_integration pager ≡ none) ↔ IntegrationIsValid pager)
    × ((validate_incident outage ≡ none) ↔ IncidentIsValid outage)
    × ((validate_event deploy ≡ none) ↔ EventIsValid deploy)
    × ((validate_analysis diagnosis ≡ none) ↔ AnalysisIsValid diagnosis)
    × ((validate_hypothesis first_guess ≡ none) ↔ HypothesisIsValid first_guess)
    × ((validate_scenario scenario ≡ none) ↔ ScenarioIsValid scenario)
    × ((validate_run drill ≡ none) ↔ RunIsValid drill)
    × ((validate_evaluation score ≡ none) ↔ EvaluationIsValid score)
    × ((validate_postmortem summary ≡ none) ↔ PostmortemIsValid summary)
    × ((valid_email (bytes "ana@example.com") ≡ true) ↔ IsAddress (bytes "ana@example.com"))
validators_iff_example =
    validators_iff ops owner pager outage deploy diagnosis first_guess scenario drill score summary
      (bytes "ana@example.com")
