-- ===== src/Api/Respond.antt =====
-- backend/internal/api/response.go. `marshal` is json.Marshal, which fails by giving none; an Encoder
-- puts a line feed behind what it writes. The log entries are left out.
pub mod Laws
use flow_cast.Base.{Text, bytes, ℕ, not, Option, none, some, List, [], ◌∷◌, ◌++◌}
use flow_cast.Http.{
  Action, set_header, write_header, write, Request, status_bad_request, status_unprocessable,
  status_internal,
}
use flow_cast.Models.Issues.{ValidationError}
use flow_cast.Api.Payload.{
  ErrorCode, ErrorResponse, Payload, error_payload, code_bad_request, code_validation_failed,
  code_internal,
}

abbrev pub generic_internal_message : Text
generic_internal_message = bytes "An unexpected error occurred. Please try again."

unfoldable pub write_raw : ℕ → Text → List Action
write_raw status body =
    set_header (bytes "Content-Type") (bytes "application/json; charset=utf-8")
    ∷ set_header (bytes "X-Content-Type-Options") (bytes "nosniff")
    ∷ write_header status
    ∷ write body
    ∷ []

module _ (marshal : Payload → Option Text) where
  pub must_encode_fallback : ErrorResponse → Text
  must_encode_fallback resp = elim (marshal (error_payload resp)) [
    | none ↦ bytes "{\"error\":\"internal_error\"}"
    | some encoded ↦ encoded
  ]

  -- What is written for an encoded payload, and for one that does not encode.
  pub write_encoded : Request → ℕ → Option Text → List Action
  unfolding write_raw must_encode_fallback
  write_encoded r status none = write_raw status_internal (
      must_encode_fallback (record {
        error = code_internal;
        message = generic_internal_message;
        request_id = r.request_id;
        fields = [];
      }))
  write_encoded r status (some encoded) = write_raw status (encoded ++ bytes "\n")

  unfoldable pub write_json : Request → ℕ → Payload → List Action
  unfolding write_encoded
  write_json r status payload = write_encoded r status (marshal payload)

  unfoldable pub write_error : Request → ℕ → ErrorCode → Text → List Action
  write_error r status code message = write_json r status (
      error_payload
        (record { error = code; message = message; request_id = r.request_id; fields = [] }))

  -- The cause goes to the log alone.
  unfoldable pub write_internal_error : Request → List Action
  unfolding write_error
  write_internal_error r = write_error r status_internal code_internal generic_internal_message

  -- An error that is no ValidationError is none.
  unfoldable pub write_validation_error : Request → Option ValidationError → List Action
  unfolding write_error
  write_validation_error r none =
      write_error r status_bad_request code_bad_request
        (bytes "The request could not be processed.")
  write_validation_error r (some verr) = write_json r status_unprocessable (
      error_payload (record {
        error = code_validation_failed;
        message = bytes "The request contains invalid fields.";
        request_id = r.request_id;
        fields = verr.issues;
      }))
