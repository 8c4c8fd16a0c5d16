-- ===== src/Middleware/Recovery/Panics.antt =====
-- What a client and the log see of a panic under backend/internal/middleware/recovery.go.
use flow_cast.Base.{
  bytes, if◌then◌else◌, sym, ap, ◌∙◌, subst, [], ◌≡◌, refl, inl, inr, Option, none, some, List,
  Text,
}
use flow_cast.Api.Payload.{code_internal, error_payload, Payload}
use flow_cast.Api.Respond.{write_error}
use flow_cast.Api.Respond.Laws.{write_json-AllFinal, write_json-Answers}
use flow_cast.Http.{
  AllFinal, Action, Sent, Writer, fresh_writer, perform_all, finish, Request, status_internal,
}
use flow_cast.Middleware.Recorder.{level_for_status, Recorder, new_recorder, record_all, written}
use flow_cast.Middleware.Recorder.Informational.{finish-sent}
use flow_cast.Middleware.Recorder.Observes.{
  Agrees, record_all-Agrees, finish-Tells, new_recorder-Agrees, Agree,
}
use flow_cast.Middleware.Recovery.{Outcome, panicked, recoverer, logger, recover_panic}

-- What a response is after a panic, for the calls that the handler made before it: the one that was under
-- way, or the whole of an internal error.
abbrev pub PanicEnds : (Payload → Option Text) → Request → Writer → Option Sent → Recorder → Type 0
PanicEnds marshal r w none rec =
    (rec.writer
      ≡ perform_all w (
          write_error marshal r status_internal code_internal
            (bytes "An unexpected error occurred. Please try again.")))
    × ((s : Sent) × (finish rec.writer ≡ some s)
        × (s.status ≡ status_internal)
        × (rec.status ≡ status_internal))
PanicEnds marshal r w (some s) rec =
    (rec.writer ≡ w) × (finish rec.writer ≡ some s) × (rec.status ≡ s.status)

apology : (Payload → Option Text) → Request → List Action
apology marshal r =
    write_error marshal r status_internal code_internal
      (bytes "An unexpected error occurred. Please try again.")

AllFinal-apology : (marshal : Payload → Option Text) (r : Request) → AllFinal (apology marshal r)
unfolding apology write_error
AllFinal-apology marshal r = write_json-AllFinal marshal r status_internal _ refl

write_error-status :
    (marshal : Payload → Option Text) (w : Writer) (r : Request)
    → w.sent ≡ none
    → (s : Sent) × (finish (perform_all w (apology marshal r)) ≡ some s)
      × (s.status ≡ status_internal)
unfolding apology write_error
write_error-status marshal w r h =
    let (s, e, _, ends) =
      write_json-Answers marshal w r status_internal
        (error_payload (record {
          error = code_internal;
          message = bytes "An unexpected error occurred. Please try again.";
          request_id = r.request_id;
          fields = [];
        }))
        refl h in
    elim ends [ inl (k, _) ↦ (s, e, k) | inr (k, _) ↦ (s, e, k) ]

recover_panic-PanicEnds :
    (marshal : Payload → Option Text) (r : Request) (rec : Recorder) (o : Option Sent)
    → rec.writer.sent ≡ o
    → Agree rec o
    → PanicEnds marshal r rec.writer o (recover_panic marshal r rec)
unfolding recover_panic written apology
recover_panic-PanicEnds marshal r rec none e (quiet, st, size) =
    let at_rest : Agrees rec = subst (Agree rec) (sym e) (quiet, st, size) in
    let (h', f) = record_all-Agrees rec (apology marshal r) (AllFinal-apology marshal r) at_rest in
    let (s, ended, same_status, _) = finish-Tells (record_all rec (apology marshal r)) _ refl h' in
    let (s', ended', internal) = write_error-status marshal rec.writer r e in
    let same_sent : s ≡ s' = cc (ended, ended', ap finish f) in
    subst
      (λ b.
        PanicEnds marshal r rec.writer none (if b then rec else record_all rec (apology marshal r)))
      (sym quiet)
      (
        f,
        (
          s,
          ended,
          ap (λ (x : Sent). x.status) same_sent ∙ internal,
          same_status ∙ ap (λ (x : Sent). x.status) same_sent ∙ internal,
        ),
      )
recover_panic-PanicEnds marshal r rec (some s) e (out, st, size) =
    subst
      (λ b.
        PanicEnds marshal r rec.writer (some s)
          (if b then rec else record_all rec (apology marshal r)))
      (sym out) (refl, finish-sent rec.writer s e, st)

-- A panic that is not the abort of a handler, after calls that write no informational status, goes on to
-- no one: where the handler had sent a status line, the response is the one under way and nothing is
-- added to it; where it had not, an internal error is written, and the response has the status 500. The
-- log has the status of the response, with its level.
pub logger-panicked :
    (marshal : Payload → Option Text) (next : Request → Outcome) (r : Request)
    (actions : List Action)
    → next r ≡ panicked actions
    → AllFinal actions
    → (rec : Recorder) × (logger marshal next r
        ≡ some (rec, (rec.status, level_for_status rec.status)))
      × PanicEnds marshal r
          (perform_all fresh_writer actions)
          (perform_all fresh_writer actions).sent
          rec
unfolding logger recoverer new_recorder
logger-panicked marshal next r actions p final =
    let so_far = record_all (new_recorder fresh_writer) actions in
    let (h, e) = record_all-Agrees (new_recorder fresh_writer) actions final new_recorder-Agrees in
    (
      recover_panic marshal r so_far,
      (rw (logger, recoverer, p)),
      subst (λ w. PanicEnds marshal r w w.sent (recover_panic marshal r so_far)) e
          (recover_panic-PanicEnds marshal r so_far so_far.writer.sent refl h),
    )
