-- ===== src/Http/Wire.antt =====
-- The head of a response once it has gone out.
use flow_cast.Base.{◌++◌, arith, Text, ℕ, ◌≡◌, some, List, [], ◌∷◌}
use flow_cast.Http.{
  Cookie, Action, set_header, add_cookie, write_header, write, Sent, Writer, send_header, send_body,
  perform, perform_all,
}

-- The head of a response, once it has gone out.
abbrev pub HeadIs : Writer → ℕ → List (Text × Text) → List Cookie → Type 0
HeadIs w status headers cookies =
    (s : Sent) × (w.sent ≡ some s)
    × (s.status ≡ status)
    × (s.headers ≡ headers)
    × (s.cookies ≡ cookies)

perform-HeadIs :
    (w : Writer) (a : Action) (status : ℕ) (hs : List (Text × Text)) (cs : List Cookie)
    → HeadIs w status hs cs
    → HeadIs (perform w a) status hs cs
unfolding perform send_body send_header
perform-HeadIs w (set_header k v) status hs cs h = h
perform-HeadIs w (add_cookie c) status hs cs h = h
perform-HeadIs w (write_header n) status hs cs (s, e, a, b, c) = (s, ground arith, a, b, c)
perform-HeadIs w (write t) status hs cs (s, e, a, b, c) =
    (record s { body = s.body ++ t }, ground arith, a, b, c)

pub perform_all-HeadIs :
    (w : Writer) (actions : List Action) (status : ℕ) (hs : List (Text × Text)) (cs : List Cookie)
    → HeadIs w status hs cs
    → HeadIs (perform_all w actions) status hs cs
unfolding perform_all
perform_all-HeadIs w [] status hs cs h = h
perform_all-HeadIs w (a ∷ more) status hs cs h =
    perform_all-HeadIs (perform w a) more status hs cs (perform-HeadIs w a status hs cs h)
