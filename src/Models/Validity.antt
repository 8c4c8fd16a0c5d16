-- ===== src/Models/Validity.antt =====
-- The validators of backend/internal/models, side by side.
use flow_cast.Base.{length, ◌≤◌, ◌≡◌, ◌≢◌, ◌↔◌, true, none, [], Text}
use flow_cast.Models.Analysis.{
  RootCauseHypothesis, IncidentAnalysis, validate_analysis, validate_hypothesis,
}
use flow_cast.Models.Analysis.Validity.{
  AnalysisIsValid, validate_analysis_iff, HypothesisIsValid, validate_hypothesis_iff,
}
use flow_cast.Models.Email.{valid_email}
use flow_cast.Models.Email.Shape.{IsAddress, valid_email_iff}
use flow_cast.Models.Event.{Event, validate_event}
use flow_cast.Models.Event.Validity.{EventIsValid, validate_event_iff}
use flow_cast.Models.Identity.{
  Team, User, Integration, max_team_name_len, validate_team, validate_user, validate_integration,
}
use flow_cast.Models.Identity.Validity.{
  validate_team_iff, UserIsValid, validate_user_iff, IntegrationIsValid, validate_integration_iff,
}
use flow_cast.Models.Incident.{Incident, validate_incident}
use flow_cast.Models.Incident.Validity.{IncidentIsValid, validate_incident_iff}
use flow_cast.Models.Postmortem.{Postmortem, validate_postmortem}
use flow_cast.Models.Postmortem.Validity.{PostmortemIsValid, validate_postmortem_iff}
use flow_cast.Models.Simulation.{
  SimulationScenario, SimulationRun, EvaluationResult, validate_scenario, validate_run,
  validate_evaluation,
}
use flow_cast.Models.Simulation.Validity.{
  ScenarioIsValid, validate_scenario_iff, RunIsValid, validate_run_iff, EvaluationIsValid,
  validate_evaluation_iff,
}
use flow_cast.Strings.{trim_space}

-- Each validator of the models reports no error exactly for the values that are valid as its record of
-- conditions says: teams, users, integrations, incidents, events, analyses with their hypotheses,
-- scenarios, runs, evaluation results and postmortems. An address of a user has the form local@host.top,
-- where local and domain hold no '@', top holds no dot, and local, host and top are not empty.
pub validators_iff :
    (t : Team) (u : User) (i : Integration) (o : Incident) (e : Event) (a : IncidentAnalysis)
    (h : RootCauseHypothesis) (s : SimulationScenario) (r : SimulationRun) (v : EvaluationResult)
    (p : Postmortem) (x : Text)
    → ((validate_team t ≡ none)
        ↔ ((trim_space t.name ≢ []) × (length (trim_space t.name) ≤ max_team_name_len)))
      × ((validate_user u ≡ none) ↔ UserIsValid u)
      × ((validate_integration i ≡ none) ↔ IntegrationIsValid i)
      × ((validate_incident o ≡ none) ↔ IncidentIsValid o)
      × ((validate_event e ≡ none) ↔ EventIsValid e)
      × ((validate_analysis a ≡ none) ↔ AnalysisIsValid a)
      × ((validate_hypothesis h ≡ none) ↔ HypothesisIsValid h)
      × ((validate_scenario s ≡ none) ↔ ScenarioIsValid s)
      × ((validate_run r ≡ none) ↔ RunIsValid r)
      × ((validate_evaluation v ≡ none) ↔ EvaluationIsValid v)
      × ((validate_postmortem p ≡ none) ↔ PostmortemIsValid p)
      × ((valid_email x ≡ true) ↔ IsAddress x)
validators_iff t u i o e a h s r v p x = (
  validate_team_iff t,
  validate_user_iff u,
  validate_integration_iff i,
  validate_incident_iff o,
  validate_event_iff e,
  validate_analysis_iff a,
  validate_hypothesis_iff h,
  validate_scenario_iff s,
  validate_run_iff r,
  validate_evaluation_iff v,
  validate_postmortem_iff p,
  valid_email_iff x,
)
