-- ===== src/Api/Decode.antt =====
-- backend/internal/api/request.go. The media type parser, the JSON decoder and the verb %q are the
-- language's library and parameters here: a body decodes to a value or a failure, and `more` says
-- whether a second document stands behind the first.
use flow_cast.Base.{
  Text, bytes, text_eq, is_empty, show_nat, Result, ◌==◌, if◌then◌else◌, ℕ, Bool, false, Option,
  none, some, [], ◌∷◌, ◌++◌, ok, err,
}
use flow_cast.Http.{Request}

abbrev pub max_request_body_bytes : ℕ
max_request_body_bytes = 1048576

-- The failures that decodeError tells apart, in the order in which it asks.
pub data DecodeFailure : Type 0 where
  eof max_bytes syntax : DecodeFailure
  unmarshal_type : Text → DecodeFailure
  other : Text → DecodeFailure

-- strings.HasPrefix and strings.TrimPrefix
unfoldable pub strip_prefix : Text → Text → Option Text
strip_prefix [] s = some s
strip_prefix (p ∷ ps) [] = none
strip_prefix (p ∷ ps) (b ∷ s) = if p == b then strip_prefix ps s else none

module _ (quote : Text → Text) where
  unfoldable pub decode_error : DecodeFailure → Text
  unfolding strip_prefix
  decode_error eof = bytes "request body must not be empty"
  decode_error max_bytes =
      bytes "request body must not exceed " ++ (show_nat max_request_body_bytes ++ bytes " bytes")
  decode_error syntax = bytes "request body is not valid JSON"
  decode_error (unmarshal_type field) =
      bytes "field " ++ (quote field ++ bytes " has the wrong type")
  decode_error (other message) = elim (strip_prefix (bytes "json: unknown field ") message) [
    | none ↦ bytes "request body is not valid JSON"
    | some field ↦ bytes "unknown field " ++ field
  ]

module _ (media_type : Text → Option Text) where
  pub require_json_content_type : Request → Bool
  require_json_content_type r =
      if is_empty r.content_type then false else elim (media_type r.content_type) [
        | none ↦ false
        | some t ↦ text_eq t (bytes "application/json")
      ]

module _ {A : Type 0} (media_type : Text → Option Text) (quote : Text → Text)
    (decode : Text → Result DecodeFailure A) (more : Text → Bool) where
  unfoldable pub decode_json : Request → Result Text A
  unfolding require_json_content_type decode_error
  decode_json r =
      if require_json_content_type media_type r
      then elim (decode r.body) [
        | err failure ↦ err (decode_error quote failure)
        | ok dst ↦
            if more r.body
            then err (bytes "request body must contain a single JSON object")
            else ok dst
      ]
      else err (bytes "Content-Type must be application/json")
