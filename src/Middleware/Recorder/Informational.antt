-- ===== src/Middleware/Recorder/Informational.antt =====
-- Informational statuses under backend/internal/middleware/recorder.go.
use flow_cast.Base.{arith, Text, ℕ, ◌≡◌, refl, ◌⊎◌, inl, inr, true, none, some, List, [], ◌∷◌, ◌++◌}
use flow_cast.Http.{
  is_informational, Action, set_header, add_cookie, write_header, write, Sent, Writer, fresh_writer,
  send_header, send_body, perform, finish, status_ok,
}
use flow_cast.Middleware.Recorder.{
  Recorder, new_recorder, record_header, record_write, record_action, record_all,
}

-- A recorder that took an informational status for the final one, over a writer that had none before.
pub record Mistakes (status : ℕ) (rec : Recorder) : Type 0 where
  closed : rec.wrote_header ≡ true
  kept_status : rec.status ≡ status
  plain :
      (rec.writer.sent ≡ none) ⊎ ((s : Sent) × (rec.writer.sent ≡ some s) × (s.status ≡ status_ok))

mistaken_write :
    (status : ℕ) (rec : Recorder) (t : Text)
    → Mistakes status rec
    → Mistakes status (record_write rec t)
unfolding record_write record_header perform send_body send_header
mistaken_write status rec t m = record {
  closed = rw m.closed refl;
  kept_status = rw m.closed m.kept_status;
  plain = elim m.plain [
    | inl open_line ↦ inr (
      record {
        status = status_ok;
        headers = rec.writer.headers;
        cookies = rec.writer.cookies;
        body = t;
      },
      rw (m.closed, open_line) refl,
      refl,
    )
    | inr (s, e, ok_status) ↦
        inr (record s { body = s.body ++ t }, let shut = m.closed in ground arith, ok_status)
  ];
}

mistaken_action :
    (status : ℕ) (rec : Recorder) (a : Action)
    → Mistakes status rec
    → Mistakes status (record_action rec a)
unfolding record_action record_header perform
mistaken_action status rec (set_header k v) m = record {
  closed = m.closed;
  kept_status = m.kept_status;
  plain = m.plain;
}
mistaken_action status rec (add_cookie c) m = record {
  closed = m.closed;
  kept_status = m.kept_status;
  plain = m.plain;
}
mistaken_action status rec (write_header again) m = simp (m.closed) m
mistaken_action status rec (write t) m = mistaken_write status rec t m

mistaken_all :
    (status : ℕ) (rec : Recorder) (actions : List Action)
    → Mistakes status rec
    → Mistakes status (record_all rec actions)
unfolding record_all
mistaken_all status rec [] m = m
mistaken_all status rec (a ∷ more) m =
    mistaken_all status (record_action rec a) more (mistaken_action status rec a m)

finish-open :
    (w : Writer) → w.sent ≡ none → (s : Sent) × (finish w ≡ some s) × (s.status ≡ status_ok)
unfolding finish send_header
finish-open w e = (
  record { status = status_ok; headers = w.headers; cookies = w.cookies; body = [] },
  rw e refl,
  refl,
)

pub finish-sent : (w : Writer) (s : Sent) → w.sent ≡ some s → finish w ≡ some s
unfolding finish send_header
finish-sent w s e = rw e refl

-- A handler that first writes an informational status loses every status that it writes later: whatever
-- else it calls, the response goes out as 200, and the recorder reports the informational status.
pub record_all-informational :
    (status : ℕ) (actions : List Action)
    → is_informational status ≡ true
    → (s : Sent) × (finish
          (record_all (new_recorder fresh_writer) (write_header status ∷ actions)).writer
        ≡ some s)
      × (s.status ≡ status_ok)
      × ((record_all (new_recorder fresh_writer) (write_header status ∷ actions)).status ≡ status)
unfolding record_all record_action record_header new_recorder perform send_header
record_all-informational status actions h =
    let rec = record_header (new_recorder fresh_writer) status in
    let m =
      mistaken_all status rec actions
        (record { closed = refl; kept_status = refl; plain = inl (rw h refl) }) in
    elim m.plain [
      | inl open_line ↦
          let (s, e, ok_status) = finish-open (record_all rec actions).writer open_line in
          (s, e, ok_status, m.kept_status)
      | inr (s, e, ok_status) ↦
          (s, finish-sent (record_all rec actions).writer s e, ok_status, m.kept_status)
    ]
