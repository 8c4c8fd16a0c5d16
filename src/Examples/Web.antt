-- ===== src/Examples/Web.antt =====
-- The middleware at concrete requests.
use flow_cast.Base.{
  text_eq, arith, ◌+ℤ◌, bytes, length, ◌≡◌, refl, none, some, List, [], ◌∷◌, ◌++◌, pos, ok, Text,
}
use flow_cast.Auth.Tokens.{token_access, token_refresh, TokenPair, new_claims, sign, issue_pair}
use flow_cast.Examples.Jwt.{example_uuids, encode, example_jwt}
use flow_cast.Examples.World.{env, tokens, request_with}
use flow_cast.Http.{
  Action, write_header, write, Sent, fresh_writer, perform_all, finish, response, Request,
  status_ok,
}
use flow_cast.Middleware.Authenticate.{equal_fold, unauthorized, bearer_token, authenticate}
use flow_cast.Middleware.Authenticate.Tenant.{
  authenticate-issue_pair, AuthEnds, authenticate-AuthEnds,
}
use flow_cast.Middleware.Recorder.{Recorder, new_recorder, record_all, level_for_status}
use flow_cast.Middleware.Recorder.Observes.{record_all-Tells}
use flow_cast.Middleware.Recorder.Informational.{record_all-informational}
use flow_cast.Middleware.Recovery.{panicked, logger}
use flow_cast.Middleware.Recovery.Panics.{PanicEnds, logger-panicked}
use flow_cast.Api.Payload.{code_unauthorized}
use flow_cast.Strings.{
  decode_rune, is_space, chunks_from, trim_left, trim_right, join_chunks, trim_space,
}

abbrev pub hello : List Action
hello = write_header status_ok ∷ write (bytes "hello") ∷ []

abbrev pub bearer : Text → Request
bearer token = record (request_with none) { authorization = bytes "Bearer " ++ token }

record_all-Tells_example :
    ((record_all (new_recorder fresh_writer) hello).writer ≡ perform_all fresh_writer hello)
    × ((s : Sent) × (response hello ≡ some s)
        × ((record_all (new_recorder fresh_writer) hello).status ≡ s.status)
        × ((record_all (new_recorder fresh_writer) hello).bytes ≡ length s.body))
record_all-Tells_example = record_all-Tells hello (refl, tt)

-- A handler that sends hints and then an answer.
record_all-informational_example :
    (s : Sent) × (finish
        (record_all (new_recorder fresh_writer) (write_header 103 ∷ write_header 404 ∷ [])).writer
      ≡ some s)
    × (s.status ≡ status_ok)
    × ((record_all (new_recorder fresh_writer) (write_header 103 ∷ write_header 404 ∷ [])).status
        ≡ 103)
record_all-informational_example = record_all-informational 103 (write_header 404 ∷ []) refl

logger-panicked_example :
    (rec : Recorder) × (logger env.marshal (λ r. panicked hello) (request_with none)
      ≡ some (rec, (rec.status, level_for_status rec.status)))
    × PanicEnds env.marshal
        (request_with none)
        (perform_all fresh_writer hello)
        (perform_all fresh_writer hello).sent
        rec
logger-panicked_example =
    logger-panicked env.marshal (λ r. panicked hello) (request_with none) hello refl (refl, tt)

abbrev pair : TokenPair
pair = record {
  access_token =
      encode tokens.secret
        (new_claims example_jwt example_uuids 11 12 token_access 22 (pos 50) (pos 950));
  refresh_token =
      encode tokens.secret
        (new_claims example_jwt example_uuids 11 12 token_refresh 21 (pos 50) (pos 2592050));
  access_expires_at = pos 950;
  refresh_expires_at = pos 2592050;
  refresh_id = 21;
}

authenticate-AuthEnds_example :
    AuthEnds example_jwt example_uuids env.marshal tokens
      (λ r. hello)
      (pos 100)
      (bearer pair.access_token)
      (authenticate example_jwt example_uuids env.marshal tokens
        (λ r. hello)
        (pos 100)
        (bearer pair.access_token))
authenticate-AuthEnds_example =
    authenticate-AuthEnds example_jwt example_uuids env.marshal tokens (λ r. hello) (pos 100)
      (bearer pair.access_token)

issued_pair : issue_pair example_jwt example_uuids tokens (pos 50) 21 22 11 12 ≡ ok pair
unfolding issue_pair sign ◌+ℤ◌
issued_pair = refl

carries_access : bearer_token (bearer pair.access_token) ≡ some pair.access_token
unfolding bearer_token equal_fold trim_space chunks_from trim_left trim_right join_chunks
    decode_rune is_space bytes text_eq encode new_claims
carries_access = refl

carries_refresh : bearer_token (bearer pair.refresh_token) ≡ some pair.refresh_token
unfolding bearer_token equal_fold trim_space chunks_from trim_left trim_right join_chunks
    decode_rune is_space bytes text_eq encode new_claims
carries_refresh = refl

authenticate-issue_pair_example :
    (authenticate example_jwt example_uuids env.marshal tokens
        (λ r. hello)
        (pos 100)
        (bearer pair.access_token)
      ≡ hello)
    × (authenticate example_jwt example_uuids env.marshal tokens
          (λ r. hello)
          (pos 100)
          (bearer pair.refresh_token)
        ≡ unauthorized env.marshal
            (bearer pair.refresh_token)
            code_unauthorized
            (bytes "Authentication is required."))
authenticate-issue_pair_example =
    authenticate-issue_pair example_jwt example_uuids env.marshal tokens (λ r. hello) (pos 50)
      (pos 100) 21 22 11 12 pair (bearer pair.access_token) (bearer pair.refresh_token) issued_pair
      (omega arith) (omega arith) (omega arith) carries_access carries_refresh
