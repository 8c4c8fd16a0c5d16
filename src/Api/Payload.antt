-- ===== src/Api/Payload.antt =====
-- The values that a handler sends as JSON: ErrorResponse of backend/internal/api/response.go,
-- authResponse of backend/internal/handlers/auth.go and healthResponse of handlers/health.go.
use flow_cast.Base.{Text, bytes, Time, ℤ, List}
use flow_cast.Models.Issues.{FieldIssue}
use flow_cast.Models.Identity.{User, Team}

abbrev pub ErrorCode : Type 0
ErrorCode = Text

abbrev pub code_bad_request : ErrorCode
code_bad_request = bytes "bad_request"

abbrev pub code_validation_failed : ErrorCode
code_validation_failed = bytes "validation_failed"

abbrev pub code_unauthorized : ErrorCode
code_unauthorized = bytes "unauthorized"

abbrev pub code_token_expired : ErrorCode
code_token_expired = bytes "token_expired"

abbrev pub code_not_found : ErrorCode
code_not_found = bytes "not_found"

abbrev pub code_conflict : ErrorCode
code_conflict = bytes "conflict"

abbrev pub code_internal : ErrorCode
code_internal = bytes "internal_error"

pub record ErrorResponse : Type 0 where
  pub error : ErrorCode
  pub message : Text
  pub request_id : Text
  pub fields : List FieldIssue

pub record AuthResponse : Type 0 where
  pub user : User
  pub team : Team
  pub access_token : Text
  pub expires_at : Time

pub record CheckResult : Type 0 where
  pub status : Text
  pub latency_ms : ℤ

pub record HealthResponse : Type 0 where
  pub status : Text
  pub version : Text
  pub checks : List (Text × CheckResult)

pub data Payload : Type 0 where
  error_payload : ErrorResponse → Payload
  auth_payload : AuthResponse → Payload
  health_payload : HealthResponse → Payload
