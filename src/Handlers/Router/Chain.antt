-- ===== src/Handlers/Router/Chain.antt =====
-- The chain of middleware of backend/internal/handlers/router.go, beside the logger and the recovery.
use mathlib.Core.List.{append-nil}
use flow_cast.Base.{
  sym, ap, Bool, true, false, Text, bytes, if◌then◌else◌, ℕ, ◌≡◌, refl, Option, none, some, List,
  [], ◌∷◌, ◌++◌,
}
use mathlib.Core.List.{append-nil}
use flow_cast.Handlers.Router.{recovered_calls}
use flow_cast.Middleware.Recovery.{
  recoverer, logger, recover_panic, Outcome, returned, aborted, panicked,
}
use flow_cast.Http.{fresh_writer, status_internal, Request, Action}
use flow_cast.Api.Payload.{code_internal, Payload}
use flow_cast.Api.Respond.{write_error}
use flow_cast.Middleware.Recorder.{
  Recorder, new_recorder, record_action, record_all, written, Level, level_for_status,
}

record_all-append :
    (rec : Recorder) (as' bs : List Action)
    → record_all rec (as' ++ bs) ≡ record_all (record_all rec as') bs
unfolding record_all
record_all-append rec [] bs = refl
record_all-append rec (a ∷ as') bs = record_all-append (record_action rec a) as' bs

-- What the logger has of a handler whose calls have passed the recovery.
abbrev pub logged : Option (List Action) → Option (Recorder × (ℕ × Level))
logged none = none
logged (some actions) =
    let rec = record_all (new_recorder fresh_writer) actions in
    some (rec, (rec.status, level_for_status rec.status))

apology : (Payload → Option Text) → Request → List Action
apology marshal r =
    write_error marshal r status_internal code_internal
      (bytes "An unexpected error occurred. Please try again.")

if_written :
    (b : Bool) (rec : Recorder) (actions more : List Action)
    → (if b then record_all rec actions else record_all (record_all rec actions) more)
      ≡ record_all rec (actions ++ (if b then [] else more))
if_written true rec actions more = ap (record_all rec) (sym (append-nil actions))
if_written false rec actions more = sym (record_all-append rec actions more)

recover_panic-record_all :
    (marshal : Payload → Option Text) (r : Request) (actions : List Action)
    → recover_panic marshal r (record_all (new_recorder fresh_writer) actions)
      ≡ record_all (new_recorder fresh_writer) (
          actions
          ++ (if written (record_all (new_recorder fresh_writer) actions)
              then []
              else apology marshal r))
unfolding recover_panic apology
recover_panic-record_all marshal r actions =
    if_written (written (record_all (new_recorder fresh_writer) actions))
      (new_recorder fresh_writer) actions (apology marshal r)

recovered_calls-logged :
    (marshal : Payload → Option Text) (next : Request → Outcome) (r : Request) (o : Outcome)
    → next r ≡ o
    → logger marshal next r ≡ logged (recovered_calls marshal r o)
unfolding logger recoverer recovered_calls apology
recovered_calls-logged marshal next r (returned actions) h = rw (h, logger, recoverer) refl
recovered_calls-logged marshal next r (aborted actions) h = rw (h, logger, recoverer) refl
recovered_calls-logged marshal next r (panicked actions) h =
    rw (h, logger, recoverer, recover_panic-record_all marshal r actions) refl

-- The logger sees the calls that the chain passes on, whether the handler returns or panics: it logs the
-- status of the response they make, and nothing where the panic aborts the handler.
pub logger-recovered_calls :
    (marshal : Payload → Option Text) (next : Request → Outcome) (r : Request)
    → logger marshal next r ≡ logged (recovered_calls marshal r (next r))
logger-recovered_calls marshal next r = recovered_calls-logged marshal next r (next r) refl
