-- ===== src/Transport/Server.antt =====
-- internal/transport/http/server.go: the handler of `POST /v1/action-decisions`. A request is its
-- Authorization header and its body. Logging and the header fields of the response are left out, and
-- so are the texts of messages.
pub mod Laws
use agent_action_control.Transport.Mapper.{to_evaluate_action_command, to_decision_response}
use agent_action_control.Json.Unmarshal.{names}
use agent_action_control.Strings.{is_space}
use agent_action_control.Transport.Decode.{decode_evaluate_action_request}
use agent_action_control.Application.Ports.{Run}
use agent_action_control.Transport.Dto.{
  validate_response, JsonTimes, EvaluateActionRequest, DecisionResponse,
}
use agent_action_control.Application.Evaluation.{DecisionRecord}
use agent_action_control.Application.Runtime.{AuthenticatedRuntime}
use agent_action_control.Errors.{
  ◌>>=◌, ok, err, Result, Error, is, runtime_identity_conflict, request_id_conflict, invalid_input,
  credential_missing,
}
use agent_action_control.Application.Service.{EvaluateActionCommand}
use agent_action_control.Prelude.{
  ℕ, ◌||◌, some, not, ltb, if◌then◌else◌, code, String, Option, List, ◌==◌, len,
}
use Prim.Native.String.{[], ◌∷◌}

abbrev pub maximum_decision_request_bytes : ℕ
maximum_decision_request_bytes = 1048576

-- the interface `DecisionEvaluator`
abbrev pub DecisionEvaluator : Type 0 → Type 0
DecisionEvaluator S = AuthenticatedRuntime → EvaluateActionCommand → Run S DecisionRecord

-- the interface `RuntimeAuthenticator`
abbrev pub RuntimeAuthenticator : Type 0
RuntimeAuthenticator = String → Result AuthenticatedRuntime

pub record Handler (S : Type 0) : Type 0 where
  pub runtime_authenticator : RuntimeAuthenticator
  pub decision_evaluator : DecisionEvaluator S

-- An argument `none` is a nil interface.
unfoldable pub new_handler :
    {S : Type 0} → Option RuntimeAuthenticator → Option (DecisionEvaluator S) → Result (Handler S)
new_handler (some authenticator) (some evaluator) =
    ok (record { runtime_authenticator = authenticator; decision_evaluator = evaluator })
new_handler _ _ = err (List.◌∷◌ invalid_input List.[])

abbrev pub ErrorCode : Type 0
ErrorCode = String

abbrev pub error_malformed_request : ErrorCode
error_malformed_request = "MALFORMED_REQUEST"

abbrev pub error_authentication : ErrorCode
error_authentication = "AUTHENTICATION_REQUIRED"

abbrev pub error_runtime_forbidden : ErrorCode
error_runtime_forbidden = "RUNTIME_NOT_AUTHORIZED"

abbrev pub error_request_id_conflict : ErrorCode
error_request_id_conflict = "REQUEST_ID_REUSED_WITH_DIFFERENT_ACTION"

abbrev pub error_validation : ErrorCode
error_validation = "VALIDATION_FAILED"

abbrev pub error_internal : ErrorCode
error_internal = "INTERNAL_ERROR"

-- What is written: a decision, or an error with its request and the fields of its details.
pub data Body : Type 0 where
  decision_body : DecisionResponse → Body
  error_body : (request_id : String) (code : ErrorCode) (details : List String) → Body

pub record Response : Type 0 where
  pub status : ℕ
  pub body : Body

unfoldable pub write_error : String → ℕ → ErrorCode → Response
write_error request_id status code = record {
  status = status;
  body = error_body request_id code List.[];
}

unfoldable pub write_application_error : String → Error → Response
write_application_error request_id e =
    if is e runtime_identity_conflict
    then write_error request_id 403 error_runtime_forbidden
    else if is e request_id_conflict
    then record {
      status = 409;
      body = error_body request_id error_request_id_conflict (List.◌∷◌ "requestId" List.[]);
    }
    else if is e invalid_input
    then write_error request_id 422 error_validation
    else write_error request_id 500 error_internal

abbrev pub cons_word : String → List String → List String
cons_word [] words = words
cons_word (c ∷ word) words = List.◌∷◌ (c ∷ word) words

-- The word that a text begins with, and the words behind it.
unfoldable pub split_words : String → String × List String
split_words [] = ([], List.[])
split_words (c ∷ s) =
    let (word, words) = split_words s in
    if is_space (code c) then ([], cons_word word words) else (c ∷ word, words)

-- `strings.Fields`
unfoldable pub fields : String → List String
unfolding split_words
fields s = cons_word (split_words s).0 (split_words s).1

-- No letter of `Bearer` folds to a character outside of ASCII.
unfoldable pub credential_of : List String → Result String
credential_of (List.◌∷◌ scheme (List.◌∷◌ token List.[])) =
    if not (names scheme "Bearer") || token == ""
    then err (List.◌∷◌ credential_missing List.[])
    else ok token
credential_of _ = err (List.◌∷◌ credential_missing List.[])

unfoldable pub bearer_credential : String → Result String
unfolding credential_of
bearer_credential value = credential_of (fields value)

-- `http.MaxBytesReader` and the decoding of the body.
unfoldable pub read_request : ⦃t : JsonTimes⦄ → String → Result EvaluateActionRequest
read_request body =
    if ltb maximum_decision_request_bytes (len body)
    then err List.[]
    else decode_evaluate_action_request body

-- The answer behind `Validate`.
unfoldable pub write_response : String → DecisionResponse → Result (Unit {0}) → Response
write_response request_id response (ok done) = record {
  status = 200;
  body = decision_body response;
}
write_response request_id response (err e) = write_error request_id 500 error_internal

-- The answer behind `Evaluate`.
unfoldable pub write_record : String → DecisionRecord → Response
unfolding write_response
write_record request_id r =
    let response = to_decision_response request_id r in
    write_response request_id response (validate_response response)

-- The answer to what `Evaluate` returns.
unfoldable pub write_outcome : {S : Type 0} → String → Result DecisionRecord × S → Response × S
unfolding write_record
write_outcome request_id (ok r, s) = (write_record request_id r, s)
write_outcome request_id (err e, s) = (write_application_error request_id e, s)

module _ {S : Type 0} (handler : Handler S) where
  -- The handler behind the mapping of the request.
  unfoldable pub evaluate_command :
      AuthenticatedRuntime → String → Result EvaluateActionCommand → S → Response × S
  unfolding write_outcome
  evaluate_command runtime request_id (err e) s = (write_error request_id 422 error_validation, s)
  evaluate_command runtime request_id (ok command) s =
      write_outcome request_id (handler.decision_evaluator runtime command s)

  -- The handler behind the decoding of the body.
  unfoldable pub evaluate_decoded :
      AuthenticatedRuntime → Result EvaluateActionRequest → S → Response × S
  unfolding evaluate_command
  evaluate_decoded runtime (err e) s = (write_error "" 400 error_malformed_request, s)
  evaluate_decoded runtime (ok decoded) s =
      evaluate_command runtime decoded.request_id (to_evaluate_action_command decoded) s

  -- The handler behind the authentication.
  unfoldable pub evaluate_authenticated :
      ⦃t : JsonTimes⦄ → Result AuthenticatedRuntime → (body : String) → S → Response × S
  unfolding evaluate_decoded
  evaluate_authenticated (err e) body s = (write_error "" 401 error_authentication, s)
  evaluate_authenticated (ok runtime) body s = evaluate_decoded runtime (read_request body) s

  unfoldable pub evaluate_action :
      ⦃t : JsonTimes⦄ → (authorization body : String) → S → Response × S
  unfolding evaluate_authenticated
  evaluate_action authorization body s =
      evaluate_authenticated (bearer_credential authorization >>= handler.runtime_authenticator)
        body s
