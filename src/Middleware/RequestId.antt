-- ===== src/Middleware/RequestId.antt =====
-- backend/internal/middleware/requestid.go. `drawn` is what uuid.NewString draws.
use flow_cast.Base.{
  if◌then◌else◌, Bool-cases, ◌≡◌, refl, inl, inr, true, false, not, List, ◌∷◌, Text,
}
use flow_cast.Api.Ids.{request_id_header, context_with_request_id, valid_request_id}
use flow_cast.Http.{Action, set_header, Request}

unfoldable pub chosen_id : Text → Text → Text
chosen_id drawn id = if not (valid_request_id id) then drawn else id

unfoldable pub with_request_id : (Request → List Action) → Text → Request → List Action
unfolding chosen_id
with_request_id next drawn r =
    let id = chosen_id drawn r.request_id_header in
    set_header request_id_header id ∷ next (context_with_request_id r id)

-- Where the drawn id is a valid one, the handler runs with a valid request id, which is the caller's if
-- that is valid and the drawn one if not, and the same id is echoed as a header.
pub with_request_id_lem :
    (next : Request → List Action) (drawn : Text) (r : Request)
    → valid_request_id drawn ≡ true
    → (id : Text) × (valid_request_id id ≡ true)
      × ((valid_request_id r.request_id_header ≡ true → id ≡ r.request_id_header)
          × (valid_request_id r.request_id_header ≡ false → id ≡ drawn))
      × (with_request_id next drawn r
          ≡ set_header request_id_header id ∷ next (context_with_request_id r id))
unfolding with_request_id chosen_id
with_request_id_lem next drawn r h = elim (Bool-cases (valid_request_id r.request_id_header)) [
  | inl good ↦ (
    r.request_id_header,
    good,
    (λ _. refl, λ e. cc (e, good)),
    rw (good, with_request_id, chosen_id),
  )
  | inr bad ↦ (drawn, h, (λ e. cc (e, bad), λ _. refl), rw (bad, with_request_id, chosen_id))
]
