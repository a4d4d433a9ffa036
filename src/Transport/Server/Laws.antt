-- ===== src/Transport/Server/Laws.antt =====
-- What the handler answers.
use agent_action_control.Strings.{is_space}
use agent_action_control.Json.Unmarshal.{names, fold_char}
use agent_action_control.Application.Service.{EvaluateActionCommand}
use agent_action_control.Application.Runtime.{AuthenticatedRuntime}
use agent_action_control.Containers.{contains}
use agent_action_control.Transport.Mapper.{to_evaluate_action_command, to_decision_response}
use agent_action_control.Domain.Decision.{reason_delegator_approval_required}
use agent_action_control.Transport.Server.{
  fields, split_words, read_request, credential_of, evaluate_decoded, evaluate_command,
  evaluate_authenticated, evaluate_action, write_error, write_application_error, bearer_credential,
  Response, Handler, write_response, write_record, write_outcome, decision_body,
}
use agent_action_control.Transport.Dto.{
  JsonTimes, EvaluateActionRequest, DecisionResponse, validate_response, has_approval_reason,
  check_required_actions,
}
use agent_action_control.Application.Evaluation.{DecisionRecord}
use agent_action_control.Errors.{◌>>=◌, err, Result, Error, ok}
use agent_action_control.Domain.Decision.Laws.{is_empty, IsDecision}
use agent_action_control.Prelude.{
  map, eq_iff, ◌||◌, code, ◌≢◌, true, length, false, eqb, Bool-cases, Bool, ◌==◌, ◌≡◌, ◌∷◌, refl,
  inr, inl, arith, [], String, List,
}

has_approval_reason-eq :
    (codes : List String)
    → has_approval_reason codes ≡ contains reason_delegator_approval_required codes
unfolding has_approval_reason
has_approval_reason-eq [] = refl
has_approval_reason-eq (c ∷ cs) = ground (arith, has_approval_reason-eq cs)

length_of_not_empty : (xs : List String) → is_empty xs ≡ false → eqb (length xs) 0 ≡ false
length_of_not_empty [] h = absurd (ground arith)
length_of_not_empty (x ∷ xs) h = ground arith

-- A decision passes the checks of its response.
validate_response_of_IsDecision :
    (request_id : String) (r : DecisionRecord)
    → IsDecision r.decision
    → validate_response (to_decision_response request_id r) ≡ ok tt
unfolding validate_response to_decision_response check_required_actions
validate_response_of_IsDecision request_id r (inl e) = rw (e) refl
validate_response_of_IsDecision request_id r (inr h) =
    let not_allow : (r.decision.typ == "ALLOW") ≡ false = rw (h.denied) refl in
    let is_deny : (r.decision.typ == "DENY") ≡ true = rw (h.denied) refl in
    let some_reason : eqb (length r.decision.reason_codes) 0 ≡ false =
      length_of_not_empty r.decision.reason_codes h.reasoned in
    let same = has_approval_reason-eq r.decision.reason_codes in
    elim (Bool-cases (contains reason_delegator_approval_required r.decision.reason_codes)) [
      | inl e ↦ rw (not_allow, is_deny, some_reason, h.approval, same, e) refl
      | inr e ↦ rw (not_allow, is_deny, some_reason, h.approval, same, e) refl
    ]

-- A record with a decision of the domain is answered with status 200, and the response holds the
-- identifiers of the request and of the decision, the digest, the decision with its reasons and the
-- types of its required actions, the version of the policy and the time of the record.
pub write_outcome_of_IsDecision :
    {S : Type 0} (request_id : String) (r : DecisionRecord) (s : S)
    → IsDecision r.decision
    → write_outcome request_id (ok r, s) ≡ (
      record {
        status = 200;
        body = decision_body (record {
          api_version = "v1";
          request_id = request_id;
          decision_id = r.decision_id;
          action_digest = r.action_digest;
          decision = r.decision.typ;
          reason_codes = r.decision.reason_codes;
          required_actions = map (λ a. a.typ) r.decision.required_actions;
          policy = r.policy_version;
          evaluated_at = r.evaluated_at;
        });
      },
      s,
    )
unfolding write_outcome write_record write_response to_decision_response
write_outcome_of_IsDecision request_id r s h =
    rw (validate_response_of_IsDecision request_id r h) refl

-- What an answer with status 200 rests on.
abbrev pub IsAuthorized : {S : Type 0} → Handler S → String → S → Response → Type 0
IsAuthorized {S} handler authorization s response =
    (token : String) × (request_id : String) × (runtime : AuthenticatedRuntime)
    × (command : EvaluateActionCommand) × (r : DecisionRecord) × (s' : S) × (bearer_credential
          authorization
        ≡ ok token)
    × (handler.runtime_authenticator token ≡ ok runtime)
    × (handler.decision_evaluator runtime command s ≡ (ok r, s'))
    × (response.body ≡ decision_body (to_decision_response request_id r))

write_application_error-status :
    (request_id : String) (e : Error)
    → eqb (write_application_error request_id e).status 200 ≡ false
unfolding write_application_error write_error
write_application_error-status request_id e = ground arith

bind-ok :
    {A B : Type 0} (x : Result A) (f : A → Result B) (b : B)
    → x >>= f ≡ ok b
    → (a : A) × (x ≡ ok a) × (f a ≡ ok b)
bind-ok (err e) f b h = absurd (ground arith)
bind-ok (ok a) f b h = (a, refl, h)

write_response-body :
    (request_id : String) (response : DecisionResponse) (checked : Result (Unit {0}))
    → eqb (write_response request_id response checked).status 200 ≡ true
    → (write_response request_id response checked).body ≡ decision_body response
unfolding write_response write_error
write_response-body request_id response (ok done) h = refl
write_response-body request_id response (err e) h = absurd (ground arith)

module _ {S : Type 0} (handler : Handler S) where
  write_outcome-IsAuthorized :
      (authorization token request_id : String) (runtime : AuthenticatedRuntime)
      (command : EvaluateActionCommand) (s : S) (o : Result DecisionRecord × S)
      → bearer_credential authorization ≡ ok token
      → handler.runtime_authenticator token ≡ ok runtime
      → handler.decision_evaluator runtime command s ≡ o
      → eqb (write_outcome request_id o).0.status 200 ≡ true
      → IsAuthorized handler authorization s (write_outcome request_id o).0
  unfolding write_outcome write_record
  write_outcome-IsAuthorized authorization token request_id runtime command s (ok r, s') b a e h = (
    token,
    request_id,
    runtime,
    command,
    r,
    s',
    b,
    a,
    e,
    write_response-body request_id (to_decision_response request_id r)
        (validate_response (to_decision_response request_id r)) h,
  )
  write_outcome-IsAuthorized authorization token request_id runtime command s (err x, s') b a e h =
      let other = write_application_error-status request_id x in absurd (ground arith)

  module _ (authorization token : String) (runtime : AuthenticatedRuntime) (s : S)
      (b : bearer_credential authorization ≡ ok token)
      (a : handler.runtime_authenticator token ≡ ok runtime) where
    evaluate_command-IsAuthorized :
        (request_id : String) (c : Result EvaluateActionCommand)
        → eqb (evaluate_command handler runtime request_id c s).0.status 200 ≡ true
        → IsAuthorized handler authorization s (evaluate_command handler runtime request_id c s).0
    unfolding evaluate_command write_error
    evaluate_command-IsAuthorized request_id (err e) h = absurd (ground arith)
    evaluate_command-IsAuthorized request_id (ok command) h =
        write_outcome-IsAuthorized authorization token request_id runtime command s
          (handler.decision_evaluator runtime command s) b a refl h

    evaluate_decoded-IsAuthorized :
        (c : Result EvaluateActionRequest)
        → eqb (evaluate_decoded handler runtime c s).0.status 200 ≡ true
        → IsAuthorized handler authorization s (evaluate_decoded handler runtime c s).0
    unfolding evaluate_decoded write_error
    evaluate_decoded-IsAuthorized (err e) h = absurd (ground arith)
    evaluate_decoded-IsAuthorized (ok decoded) h =
        evaluate_command-IsAuthorized decoded.request_id (to_evaluate_action_command decoded) h

  evaluate_authenticated-IsAuthorized :
      ⦃t : JsonTimes⦄ (authorization body : String) (s : S) (c : Result AuthenticatedRuntime)
      → bearer_credential authorization >>= handler.runtime_authenticator ≡ c
      → eqb (evaluate_authenticated handler c body s).0.status 200 ≡ true
      → IsAuthorized handler authorization s (evaluate_authenticated handler c body s).0
  unfolding evaluate_authenticated write_error
  evaluate_authenticated-IsAuthorized authorization body s (err e) q h = absurd (ground arith)
  evaluate_authenticated-IsAuthorized authorization body s (ok runtime) q h =
      let (token, b, a) =
        bind-ok (bearer_credential authorization) handler.runtime_authenticator runtime q in
      evaluate_decoded-IsAuthorized authorization token runtime s b a (read_request body) h

  -- An answer with status 200 holds a record that the evaluator has answered for the runtime that
  -- the authenticator names for the token of the request.
  pub evaluate_action-IsAuthorized :
      ⦃t : JsonTimes⦄ (authorization body : String) (s : S)
      → eqb (evaluate_action handler authorization body s).0.status 200 ≡ true
      → IsAuthorized handler authorization s (evaluate_action handler authorization body s).0
  unfolding evaluate_action
  evaluate_action-IsAuthorized authorization body s h =
      evaluate_authenticated-IsAuthorized authorization body s
        (bearer_credential authorization >>= handler.runtime_authenticator) refl h

abbrev pub has_space : String → Bool
has_space String.[] = false
has_space (String.◌∷◌ c s) = is_space (code c) || has_space s

split_words-token : (s : String) → has_space s ≡ false → split_words s ≡ (s, [])
unfolding split_words
split_words-token String.[] h = refl
split_words-token (String.◌∷◌ c s) h = ground (arith, split_words-token s)

abbrev pub bearer : String → String
bearer token = String.◌∷◌ "B" (
    String.◌∷◌ "e"
      (String.◌∷◌ "a" (String.◌∷◌ "r" (String.◌∷◌ "e" (String.◌∷◌ "r" (String.◌∷◌ " " token))))))

-- A token without white space is the credential of the header that holds it behind `Bearer`.
pub bearer_credential-bearer :
    (token : String)
    → token ≢ ""
    → has_space token ≡ false
    → bearer_credential (bearer token) ≡ ok token
unfolding bearer_credential credential_of fields names fold_char
bearer_credential-bearer String.[] h k = absurd (h refl)
bearer_credential-bearer (String.◌∷◌ c s) h k =
    let word = split_words-token (String.◌∷◌ c s) k in
    let split : split_words (bearer (String.◌∷◌ c s)) ≡ ("Bearer", (String.◌∷◌ c s) ∷ []) =
      unfold split_words is_space in rw word refl in
    let present : (String.◌∷◌ c s == "") ≡ false = ground (arith, eq_iff (String.◌∷◌ c s) "") in
    rw (split, present) refl
