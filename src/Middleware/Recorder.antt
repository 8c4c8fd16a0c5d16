-- ===== src/Middleware/Recorder.antt =====
-- backend/internal/middleware/recorder.go, and the level of logging.go. A write to the writer below
-- takes the whole body.
pub mod Observes
pub mod Informational
use flow_cast.Base.{length, leb, if◌then◌else◌, ℕ, ◌+◌, Bool, true, false, not, List, [], ◌∷◌, Text}
use flow_cast.Http.{
  Action, set_header, add_cookie, write_header, write, Writer, perform, status_ok,
  status_bad_request, status_internal,
}

pub record Recorder : Type 0 where
  pub writer : Writer
  pub status : ℕ
  pub bytes : ℕ
  pub wrote_header : Bool

unfoldable pub new_recorder : Writer → Recorder
new_recorder w = record { writer = w; status = status_ok; bytes = 0; wrote_header = false }

unfoldable pub record_header : Recorder → ℕ → Recorder
record_header rec status = if rec.wrote_header then rec else record rec {
  writer = perform rec.writer (write_header status);
  status = status;
  wrote_header = true;
}

unfoldable pub record_write : Recorder → Text → Recorder
unfolding record_header
record_write rec b =
    let rec' = if not rec.wrote_header then record_header rec status_ok else rec in
    record rec' { writer = perform rec'.writer (write b); bytes = rec'.bytes + length b }

-- Headers and cookies go to the writer below.
unfoldable pub record_action : Recorder → Action → Recorder
unfolding record_header record_write
record_action rec (set_header k v) = record rec { writer = perform rec.writer (set_header k v) }
record_action rec (add_cookie c) = record rec { writer = perform rec.writer (add_cookie c) }
record_action rec (write_header status) = record_header rec status
record_action rec (write b) = record_write rec b

unfoldable pub record_all : Recorder → List Action → Recorder
unfolding record_action
record_all rec [] = rec
record_all rec (a ∷ more) = record_all (record_action rec a) more

unfoldable pub written : Recorder → Bool
written rec = rec.wrote_header

pub data Level : Type 0 where
  info warn error : Level

unfoldable pub level_for_status : ℕ → Level
level_for_status status =
    if leb status_internal status
    then error
    else if leb status_bad_request status
    then warn
    else info
