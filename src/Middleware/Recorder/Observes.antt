-- ===== src/Middleware/Recorder/Observes.antt =====
-- The recorder of backend/internal/middleware/recorder.go beside the writer below it.
use flow_cast.Base.{
  length, length-append, ℕ, ◌≡◌, refl, ap, ◌∙◌, subst, true, false, Option, none, some, List, [],
  ◌∷◌, arith, Text,
}
use flow_cast.Http.{
  is_informational, AllFinal, Action, set_header, add_cookie, write_header, write, Sent,
  fresh_writer, send_header, send_body, perform, perform_all, finish, response, status_ok,
}
use flow_cast.Middleware.Recorder.{
  Recorder, new_recorder, record_header, record_write, record_action, record_all,
}

-- A recorder and its writer agree.
abbrev pub Agree : Recorder → Option Sent → Type 0
Agree rec none = (rec.wrote_header ≡ false) × (rec.status ≡ status_ok) × (rec.bytes ≡ 0)
Agree rec (some s) =
    (rec.wrote_header ≡ true) × (rec.status ≡ s.status) × (rec.bytes ≡ length s.body)

abbrev pub Agrees : Recorder → Type 0
Agrees rec = Agree rec rec.writer.sent

header_step :
    (rec : Recorder) (status : ℕ) (o : Option Sent)
    → is_informational status ≡ false
    → rec.writer.sent ≡ o
    → Agree rec o
    → Agrees (record_header rec status)
      × ((record_header rec status).writer ≡ perform rec.writer (write_header status))
unfolding record_header perform send_header
header_step rec status none final e (a, b, c) = ground arith
header_step rec status (some s) final e (a, b, c) = ground arith

write_step :
    (rec : Recorder) (t : Text) (o : Option Sent)
    → rec.writer.sent ≡ o
    → Agree rec o
    → Agrees (record_write rec t) × ((record_write rec t).writer ≡ perform rec.writer (write t))
unfolding record_write record_header perform send_body send_header
write_step rec t none e (a, b, c) = ground arith
write_step rec t (some s) e (a, b, c) = ground (arith, length-append s.body t)

action_step :
    (rec : Recorder) (a : Action)
    → AllFinal (a ∷ [])
    → Agrees rec
    → Agrees (record_action rec a) × ((record_action rec a).writer ≡ perform rec.writer a)
unfolding record_action perform
action_step rec (set_header k v) final h = (h, refl)
action_step rec (add_cookie c) final h = (h, refl)
action_step rec (write_header status) final h =
    header_step rec status rec.writer.sent final.0 refl h
action_step rec (write t) final h = write_step rec t rec.writer.sent refl h

AllFinal-head : (a : Action) (more : List Action) → AllFinal (a ∷ more) → AllFinal (a ∷ [])
AllFinal-head (set_header k v) more h = tt
AllFinal-head (add_cookie c) more h = tt
AllFinal-head (write_header status) more h = (h.0, tt)
AllFinal-head (write t) more h = tt

AllFinal-tail : (a : Action) (more : List Action) → AllFinal (a ∷ more) → AllFinal more
AllFinal-tail (set_header k v) more h = h
AllFinal-tail (add_cookie c) more h = h
AllFinal-tail (write_header status) more h = h.1
AllFinal-tail (write t) more h = h

pub record_all-Agrees :
    (rec : Recorder) (actions : List Action)
    → AllFinal actions
    → Agrees rec
    → Agrees (record_all rec actions)
      × ((record_all rec actions).writer ≡ perform_all rec.writer actions)
unfolding record_all perform_all
record_all-Agrees rec [] final h = (h, refl)
record_all-Agrees rec (a ∷ more) final h =
    let (k, e) = action_step rec a (AllFinal-head a more final) h in
    let (l, f) = record_all-Agrees (record_action rec a) more (AllFinal-tail a more final) k in
    (l, f ∙ ap (λ w. perform_all w more) e)

abbrev pub Tells : Recorder → Option Sent → Type 0
Tells rec o = (s : Sent) × (o ≡ some s) × (rec.status ≡ s.status) × (rec.bytes ≡ length s.body)

pub finish-Tells :
    (rec : Recorder) (o : Option Sent)
    → rec.writer.sent ≡ o
    → Agree rec o
    → Tells rec (finish rec.writer)
unfolding finish send_header
finish-Tells rec none e (a, b, c) = (
  record { status = 200; headers = rec.writer.headers; cookies = rec.writer.cookies; body = [] },
  ground arith,
  b,
  c,
)
finish-Tells rec (some s) e (a, b, c) = (s, ground arith, b, c)

pub new_recorder-Agrees : Agrees (new_recorder fresh_writer)
unfolding new_recorder
new_recorder-Agrees = (refl, refl, refl)

-- For every list of calls that a handler makes on a recorder over a fresh writer, none of which writes an
-- informational status, the response is the one without the recorder, and the recorder has its status and
-- the size of its body, also where the handler never wrote a status line or wrote it twice.
pub record_all-Tells :
    (actions : List Action)
    → AllFinal actions
    → ((record_all (new_recorder fresh_writer) actions).writer ≡ perform_all fresh_writer actions)
      × ((s : Sent) × (response actions ≡ some s)
          × ((record_all (new_recorder fresh_writer) actions).status ≡ s.status)
          × ((record_all (new_recorder fresh_writer) actions).bytes ≡ length s.body))
unfolding response new_recorder
record_all-Tells actions final =
    let (h, e) = record_all-Agrees (new_recorder fresh_writer) actions final (refl, refl, refl) in
    let t = finish-Tells (record_all (new_recorder fresh_writer) actions) _ refl h in
    (e, subst (λ w. Tells (record_all (new_recorder fresh_writer) actions) (finish w)) e t)
