-- ===== src/Http.antt =====
-- What the program uses of net/http: a handler writes headers, cookies, a status line and a body to
-- a response writer. The calls are a list of actions, so that one handler can be run on any writer.
pub mod Wire
use flow_cast.Base.{
  ltb, leb, ◌==◌, ◌≡◌, false, not, ◌&&◌, Text, text_eq, Time, ℤ, if◌then◌else◌, Uuid, ℕ, Bool,
  Option, none, some, List, [], ◌∷◌, ◌++◌,
}

pub record Cookie : Type 0 where
  pub name : Text
  pub value : Text
  pub path : Text
  pub http_only : Bool
  pub secure : Bool
  pub same_site_strict : Bool
  pub expires : Option Time
  pub max_age : Option ℤ

pub data Action : Type 0 where
  set_header : Text → Text → Action
  add_cookie : Cookie → Action
  write_header : ℕ → Action
  write : Text → Action

-- What has gone out.
pub record Sent : Type 0 where
  pub status : ℕ
  pub headers : List (Text × Text)
  pub cookies : List Cookie
  pub body : Text

-- The writer of the server: headers and cookies are collected until the status line goes out.
pub record Writer : Type 0 where
  pub headers : List (Text × Text)
  pub cookies : List Cookie
  pub sent : Option Sent

abbrev pub fresh_writer : Writer
fresh_writer = record { headers = []; cookies = []; sent = none }

unfoldable pub put_header : Text → Text → List (Text × Text) → List (Text × Text)
put_header k v [] = (k, v) ∷ []
put_header k v ((j, u) ∷ hs) = if text_eq j k then (k, v) ∷ hs else (j, u) ∷ put_header k v hs

-- A status that goes out ahead of the final one; 101 is final.
abbrev pub is_informational : ℕ → Bool
is_informational status = leb 100 status && ltb status 200 && not (status == 101)

-- w.WriteHeader(status): a second final status is ignored. An informational one goes out by itself and
-- leaves the status line open.
unfoldable pub send_header : ℕ → Writer → Writer
send_header status w = elim w.sent [
  | none ↦ if is_informational status then w else record w {
    sent = some (record { status = status; headers = w.headers; cookies = w.cookies; body = [] });
  }
  | some _ ↦ w
]

-- No call writes an informational status.
abbrev pub AllFinal : List Action → Type 0
AllFinal [] = Unit
AllFinal (write_header status ∷ more) = (is_informational status ≡ false) × AllFinal more
AllFinal (set_header k v ∷ more) = AllFinal more
AllFinal (add_cookie c ∷ more) = AllFinal more
AllFinal (write b ∷ more) = AllFinal more

abbrev pub append_body : Text → Option Sent → Option Sent
append_body b none = none
append_body b (some s) = some (record s { body = s.body ++ b })

-- w.Write(b): the first write sends the status 200.
unfoldable pub send_body : Text → Writer → Writer
unfolding send_header
send_body b w = let w' = send_header 200 w in record w' { sent = append_body b w'.sent }

unfoldable pub perform : Writer → Action → Writer
unfolding put_header send_header send_body
perform w (set_header k v) = record w { headers = put_header k v w.headers }
perform w (add_cookie c) = record w { cookies = w.cookies ++ c ∷ [] }
perform w (write_header status) = send_header status w
perform w (write b) = send_body b w

unfoldable pub perform_all : Writer → List Action → Writer
unfolding perform
perform_all w [] = w
perform_all w (a ∷ more) = perform_all (perform w a) more

-- When the handler returns, a response that was never written goes out as an empty 200.
unfoldable pub finish : Writer → Option Sent
unfolding send_header
finish w = (send_header 200 w).sent

unfoldable pub response : List Action → Option Sent
unfolding perform_all finish
response actions = finish (perform_all fresh_writer actions)

pub record Identity : Type 0 where
  pub user_id : Uuid
  pub team_id : Uuid

-- A request: an absent header is the empty text. The two values that the middleware attaches to the
-- context stand beside it.
pub record Request : Type 0 where
  pub method : Text
  pub path : Text
  pub content_type : Text
  pub authorization : Text
  pub request_id_header : Text
  pub remote_addr : Text
  pub refresh_cookie : Option Text
  pub body : Text
  pub request_id : Text
  pub identity : Option Identity

abbrev pub status_ok : ℕ
status_ok = 200

abbrev pub status_created : ℕ
status_created = 201

abbrev pub status_no_content : ℕ
status_no_content = 204

abbrev pub status_bad_request : ℕ
status_bad_request = 400

abbrev pub status_unauthorized : ℕ
status_unauthorized = 401

abbrev pub status_conflict : ℕ
status_conflict = 409

abbrev pub status_unprocessable : ℕ
status_unprocessable = 422

abbrev pub status_internal : ℕ
status_internal = 500

abbrev pub status_unavailable : ℕ
status_unavailable = 503
