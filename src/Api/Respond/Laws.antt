-- ===== src/Api/Respond/Laws.antt =====
-- The responses of backend/internal/api/response.go, as a writer sends them.
use flow_cast.Base.{
  refl, inl, inr, List, arith, Text, bytes, ℕ, ◌≡◌, ◌⊎◌, false, Option, none, some, ◌++◌,
}
use flow_cast.Http.{
  AllFinal, is_informational, put_header, Sent, Writer, Request, perform_all, finish,
  status_internal,
}
use flow_cast.Api.Payload.{Payload}
use flow_cast.Api.Respond.{write_encoded, write_raw, write_json}

abbrev json_headers : List (Text × Text) → List (Text × Text)
json_headers hs =
    put_header (bytes "X-Content-Type-Options") (bytes "nosniff")
      (put_header (bytes "Content-Type") (bytes "application/json; charset=utf-8") hs)

pub write_raw-sent :
    (w : Writer) (status : ℕ) (body : Text)
    → is_informational status ≡ false
    → w.sent ≡ none
    → finish (perform_all w (write_raw status body))
      ≡ some (record {
        status = status;
        headers = json_headers w.headers;
        cookies = w.cookies;
        body = body;
      })
unfolding perform_all finish write_raw
write_raw-sent w status body final h = ground arith

-- What went out for a payload that encoded to `o`.
abbrev pub Answers : Writer → ℕ → Option Text → Option Sent → Type 0
Answers w status o sent =
    (s : Sent) × (sent ≡ some s)
    × (s.cookies ≡ w.cookies)
    × (((s.status ≡ status) × ((t : Text) × (o ≡ some t) × (s.body ≡ t ++ bytes "\n")))
        ⊎ ((s.status ≡ status_internal) × (o ≡ none)))

write_encoded-Answers :
    (marshal : Payload → Option Text) (w : Writer) (r : Request) (status : ℕ) (o : Option Text)
    → is_informational status ≡ false
    → w.sent ≡ none
    → Answers w status o (finish (perform_all w (write_encoded marshal r status o)))
unfolding write_encoded
write_encoded-Answers marshal w r status none final h =
    (_, write_raw-sent w status_internal _ refl h, refl, inr (refl, refl))
write_encoded-Answers marshal w r status (some t) final h =
    (_, write_raw-sent w status _ final h, refl, inl (refl, (t, refl, refl)))

-- On a writer that has sent nothing, WriteJSON with a final status sends one response: the status that was asked for
-- with the encoded payload, or 500 where the payload does not encode. The cookies that were added
-- before it are in that response.
pub write_json-Answers :
    (marshal : Payload → Option Text) (w : Writer) (r : Request) (status : ℕ) (payload : Payload)
    → is_informational status ≡ false
    → w.sent ≡ none
    → Answers w status
        (marshal payload)
        (finish (perform_all w (write_json marshal r status payload)))
unfolding write_json
write_json-Answers marshal w r status payload final h =
    write_encoded-Answers marshal w r status (marshal payload) final h

write_encoded-AllFinal :
    (marshal : Payload → Option Text) (r : Request) (status : ℕ) (o : Option Text)
    → is_informational status ≡ false
    → AllFinal (write_encoded marshal r status o)
unfolding write_encoded write_raw
write_encoded-AllFinal marshal r status none final = (refl, tt)
write_encoded-AllFinal marshal r status (some t) final = (final, tt)

-- A response of WriteJSON with a final status writes no informational one.
pub write_json-AllFinal :
    (marshal : Payload → Option Text) (r : Request) (status : ℕ) (payload : Payload)
    → is_informational status ≡ false
    → AllFinal (write_json marshal r status payload)
unfolding write_json
write_json-AllFinal marshal r status payload final =
    write_encoded-AllFinal marshal r status (marshal payload) final
