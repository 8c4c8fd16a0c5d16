-- ===== src/Handlers/Health.antt =====
-- backend/internal/handlers/health.go. What a probe does and when is an argument; the probes run as
-- goroutines, each of which writes its own slot of the results when it ends.
pub mod Slots
pub mod Goroutines
pub mod Report
use flow_cast.Base.{
  ◌-ℤ◌, Text, bytes, text_eq, Time, Duration, time_sub, leb_ℤ, ℤ, get_elem?, if◌then◌else◌, ℕ, zero,
  suc, ◌+◌, ◌/◌, Option, none, some, List, [], ◌∷◌, pos, negsuc,
}
use flow_cast.Api.Payload.{health_payload, CheckResult, HealthResponse, Payload}
use flow_cast.Http.{status_ok, status_unavailable, Action, Request}
use flow_cast.Api.Respond.{write_json}

abbrev pub default_health_timeout : Duration
default_health_timeout = pos 2000000000

-- The timeout of the handler that Health makes.
unfoldable pub health_timeout : Duration → Duration
health_timeout timeout = if leb_ℤ timeout (pos 0) then default_health_timeout else timeout

abbrev pub health_ok : Text
health_ok = bytes "ok"

abbrev pub health_degraded : Text
health_degraded = bytes "degraded"

abbrev pub health_unavailable : Text
health_unavailable = bytes "unavailable"

-- How the probe of a check ends.
pub data ProbeEnd : Type 0 where
  probe_ok probe_failed probe_panicked : ProbeEnd

-- A check by its name, with the run of its probe in a request.
pub record ProbeRun : Type 0 where
  pub name : Text
  pub started : Time
  pub stopped : Time
  pub outcome : ProbeEnd

-- d.Milliseconds(), cut toward zero
unfoldable pub milliseconds : Duration → ℤ
milliseconds (pos d) = pos (d / 1000000)
milliseconds (negsuc d) = pos 0 -ℤ pos ((d + 1) / 1000000)

unfoldable pub run_check : ProbeRun → CheckResult
unfolding milliseconds
run_check c =
    let latency = milliseconds (time_sub c.stopped c.started) in
    elim c.outcome [
      | probe_panicked ↦ record { status = health_unavailable; latency_ms = latency }
      | probe_failed ↦ record { status = health_unavailable; latency_ms = latency }
      | probe_ok ↦ record { status = health_ok; latency_ms = latency }
    ]

-- make([]checkResult, n)
abbrev pub empty_result : CheckResult
empty_result = record { status = []; latency_ms = pos 0 }

unfoldable pub empty_results : List ProbeRun → List CheckResult
empty_results [] = []
empty_results (c ∷ cs) = empty_result ∷ empty_results cs

-- results[i] = v
unfoldable pub set_slot : List CheckResult → ℕ → CheckResult → List CheckResult
set_slot [] i v = []
set_slot (r ∷ rs) zero v = v ∷ rs
set_slot (r ∷ rs) (suc i) v = r ∷ set_slot rs i v

-- The goroutine of the check at an index ends.
unfoldable pub finish_check : List ProbeRun → ℕ → List CheckResult → List CheckResult
unfolding run_check set_slot
finish_check checks i results = elim (get_elem? checks i) [
  | none ↦ results
  | some c ↦ set_slot results i (run_check c)
]

-- body.Checks[name] = result
unfoldable pub put_check :
    Text → CheckResult → List (Text × CheckResult) → List (Text × CheckResult)
put_check name result [] = (name, result) ∷ []
put_check name result ((n, r) ∷ more) =
    if text_eq n name then (name, result) ∷ more else (n, r) ∷ put_check name result more

-- The loop over the checks and their results.
unfoldable pub fill_body : HealthResponse → List ProbeRun → List CheckResult → HealthResponse
unfolding put_check
fill_body body [] results = body
fill_body body (c ∷ cs) [] = body
fill_body body (c ∷ cs) (r ∷ rs) =
    fill_body
      (record body {
        checks = put_check c.name r body.checks;
        status = if text_eq r.status health_ok then body.status else health_degraded;
      })
      cs rs

unfoldable pub health_body : Text → List ProbeRun → List CheckResult → HealthResponse
unfolding fill_body
health_body version checks results =
    fill_body (record { status = health_ok; version = version; checks = [] }) checks results

unfoldable pub health_status : HealthResponse → ℕ
health_status body = if text_eq body.status health_ok then status_ok else status_unavailable

-- What is written once every goroutine is done.
unfoldable pub write_health :
    (Payload → Option Text) → Text → Request → List ProbeRun → List CheckResult → List Action
unfolding health_body health_status
write_health marshal version r checks results =
    let body = health_body version checks results in
    write_json marshal r (health_status body) (health_payload body)
