-- ===== src/Middleware/Recovery.antt =====
-- Recoverer of backend/internal/middleware/recovery.go over the recorder, as the logging middleware
-- of logging.go sets it up. A handler that panics has made some calls before it does.
pub mod Panics
use flow_cast.Base.{bytes, before, if◌then◌else◌, ℕ, Option, none, some, List, Text}
use flow_cast.Api.Payload.{code_internal, Payload}
use flow_cast.Api.Respond.{write_error}
use flow_cast.Http.{Action, fresh_writer, Request, status_internal}
use flow_cast.Middleware.Recorder.{
  Recorder, new_recorder, record_all, written, Level, error, level_for_status,
}

-- What a handler does: it returns, or it panics, with http.ErrAbortHandler or with another value.
pub data Outcome : Type 0 where
  returned : List Action → Outcome
  aborted : List Action → Outcome
  panicked : List Action → Outcome

unfoldable pub recover_panic : (Payload → Option Text) → Request → Recorder → Recorder
recover_panic marshal r rec =
    if written rec
    then rec
    else record_all rec (
        write_error marshal r status_internal code_internal
          (bytes "An unexpected error occurred. Please try again."))

-- None where the panic goes on to the server.
unfoldable pub recoverer :
    (Payload → Option Text) → (Request → Outcome) → Request → Recorder → Option Recorder
unfolding recover_panic
recoverer marshal next r rec = elim (next r) [
  | returned actions ↦ some (record_all rec actions)
  | aborted actions ↦ none
  | panicked actions ↦ some (recover_panic marshal r (record_all rec actions))
]

-- The record of a request: the status and the level it is logged at.
unfoldable pub logger :
    (Payload → Option Text) → (Request → Outcome) → Request → Option (Recorder × (ℕ × Level))
unfolding recoverer
logger marshal next r = elim (recoverer marshal next r (new_recorder fresh_writer)) [
  | none ↦ none
  | some rec ↦ some (rec, (rec.status, level_for_status rec.status))
]
