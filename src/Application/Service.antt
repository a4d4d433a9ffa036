-- ===== src/Application/Service.antt =====
-- internal/application/decision_service.go. The context argument is left out, and so is the text of
-- error messages.
pub mod Laws
pub mod Errors
pub mod Commit
pub mod Replay
pub mod Frame
use agent_action_control.Application.Composer.{compose}
use agent_action_control.Application.Runtime.{AuthenticatedRuntime}
use agent_action_control.Strings.{trim_space, Unicode}
use agent_action_control.Time.{utc, is_zero, Time}
use agent_action_control.Application.Normalizer.{normalize, ProposedActionInput}
use agent_action_control.Domain.ProposedAction.{ProposedAction}
use agent_action_control.Domain.Effect.{
  policy_effect_type_valid, policy_effect_create_safety_review, nil_effect,
  create_safety_review_pointer, create_safety_review, PolicyEffect,
}
use agent_action_control.Domain.Canonical.{compute_action_digest, Digests}
use agent_action_control.Application.Evaluation.{
  StoredEvaluation, PolicyEvaluation, PolicyEffectCommit, EvaluationCommit, DecisionRecord,
}
use agent_action_control.Domain.Decision.{decision_type_valid, Decision}
use agent_action_control.Application.Ports.{
  lift, after, on_error, id_policy_effect, id_decision, Run, PolicyEvaluator, IdKind, IdGenerator,
  DecisionLedger, Clock,
}
use agent_action_control.Domain.Action.{ActionDigest}
use agent_action_control.Errors.{
  hide, wrap, ok, refuse_if, request_id_conflict, policy_unavailable, ledger_failure, is,
  invalid_input, id_generation, evaluation_not_found, err, clock_failure, Result, Error, ◌>>=◌,
  ◌>>◌,
}
use agent_action_control.Prelude.{
  ◌∷◌, ◌||◌, true, some, not, none, ltb, len, false, if◌then◌else◌, [], String, Option, List, Bool,
  ◌==◌,
}

pub record EvaluateActionCommand : Type 0 where
  pub request_id : String
  pub proposed_action : ProposedActionInput

pub record DecisionService (S : Type 0) : Type 0 where
  pub policy_evaluator : PolicyEvaluator S
  pub decision_ledger : DecisionLedger S
  pub clock : Clock S
  pub id_generator : IdGenerator S

-- An argument `none` is a nil interface.
unfoldable pub new_decision_service :
    {S : Type 0}
    → Option (PolicyEvaluator S)
    → Option (DecisionLedger S)
    → Option (Clock S)
    → Option (IdGenerator S)
    → Result (DecisionService S)
new_decision_service (some policy_evaluator) (some decision_ledger) (some clock)
      (some id_generator) =
    ok (record {
      policy_evaluator = policy_evaluator;
      decision_ledger = decision_ledger;
      clock = clock;
      id_generator = id_generator;
    })
new_decision_service _ _ _ _ = err (invalid_input ∷ [])

unfoldable pub normalize_decision_request_id : String → Result String
normalize_decision_request_id value =
    let value = trim_space value in
    if value == "" || ltb 256 (len value) then err (invalid_input ∷ []) else ok value

-- `value.Type()` of a struct or of a pointer that is not nil is always the one effect type.
unfoldable pub valid_policy_effect : PolicyEffect → Bool
valid_policy_effect nil_effect = false
valid_policy_effect (create_safety_review effect) =
    policy_effect_type_valid policy_effect_create_safety_review
valid_policy_effect (create_safety_review_pointer none) = false
valid_policy_effect (create_safety_review_pointer (some effect)) =
    policy_effect_type_valid policy_effect_create_safety_review

unfoldable pub check_rule_ids : List String → Result (Unit {0})
check_rule_ids [] = ok tt
check_rule_ids (rule_id ∷ rule_ids) =
    let rest = check_rule_ids rule_ids in
    if trim_space rule_id == "" then err (policy_unavailable ∷ []) else rest

unfoldable pub check_effects : List PolicyEffect → Result (Unit {0})
check_effects [] = ok tt
check_effects (effect ∷ effects) =
    let rest = check_effects effects in
    if not (valid_policy_effect effect) then err (policy_unavailable ∷ []) else rest

unfoldable pub validate_policy_evaluation : PolicyEvaluation → Result (Unit {0})
validate_policy_evaluation evaluation = do
  refuse_if (trim_space evaluation.policy_version == "") (policy_unavailable ∷ [])
  check_rule_ids evaluation.matched_rule_ids
  check_effects evaluation.effects

unfoldable pub validate_authoritative_decision : DecisionRecord → ActionDigest → Result (Unit {0})
validate_authoritative_decision decision_record action_digest =
    if trim_space decision_record.decision_id == ""
      || not (decision_type_valid decision_record.decision.typ)
      || not (decision_record.action_digest == action_digest)
      || trim_space decision_record.policy_version == ""
      || is_zero decision_record.evaluated_at
    then err (ledger_failure ∷ [])
    else ok tt

unfoldable pub resolve_stored_evaluation :
    Option StoredEvaluation → String → String → ActionDigest → Result DecisionRecord
resolve_stored_evaluation none runtime_id request_id action_digest = err (ledger_failure ∷ [])
resolve_stored_evaluation (some stored) runtime_id request_id action_digest = do
  refuse_if (not (stored.runtime_id == runtime_id) || not (stored.request_id == request_id))
      (ledger_failure ∷ [])
  refuse_if (not (stored.decision.action_digest == action_digest)) (request_id_conflict ∷ [])
  validate_authoritative_decision stored.decision action_digest
  ok stored.decision

unfoldable pub wrap_ledger_error : Error → Error
wrap_ledger_error e = if is e ledger_failure then e else ledger_failure ∷ e

-- The answer to an error of `CommitEvaluation`.
unfoldable pub wrap_commit_error : Error → Error
unfolding wrap_ledger_error
wrap_commit_error e = if is e request_id_conflict then e else wrap_ledger_error e

module _ ⦃u : Unicode⦄ ⦃d : Digests⦄ where
  -- The part of `Evaluate` before the ledger is asked.
  unfoldable pub prepare :
      AuthenticatedRuntime → EvaluateActionCommand → Result (String × ProposedAction × ActionDigest)
  prepare caller command = do
    request_id ← normalize_decision_request_id command.request_id
    action ← normalize caller command.proposed_action
    action_digest ← hide invalid_input (compute_action_digest action)
    ok (request_id, action, action_digest)

module _ {S : Type 0} (service : DecisionService S) where
  unfoldable pub new_required_id : IdKind → Run S String
  new_required_id kind s =
      after (on_error (λ e. id_generation ∷ e) (service.id_generator kind s)) λ value.
        let value = trim_space value in
        lift (if value == "" then err (id_generation ∷ []) else ok value)

  unfoldable pub prepare_policy_effects : List PolicyEffect → Run S (List PolicyEffectCommit)
  prepare_policy_effects [] s = (ok [], s)
  prepare_policy_effects (effect ∷ effects) s = elim (valid_policy_effect effect) [
    | false ↦ (err (policy_unavailable ∷ []), s)
    | true ↦ after (new_required_id id_policy_effect s) λ effect_id. λ s.
        after (prepare_policy_effects effects s)
          λ prepared. lift (ok (record { effect_id = effect_id; effect = effect } ∷ prepared))
  ]

  -- `service.clock.Now().UTC()`, and its check.
  unfoldable pub read_clock : Run S Time
  read_clock s =
      let (now, s) = service.clock s in
      let evaluated_at = utc now in
      (if is_zero evaluated_at then err (clock_failure ∷ []) else ok evaluated_at, s)

  -- Evaluating, validating and composing.
  unfoldable pub decide : ProposedAction → Run S (PolicyEvaluation × Decision)
  decide action s =
      after (on_error (λ e. policy_unavailable ∷ e) (service.policy_evaluator action s))
        λ evaluation. lift (
          validate_policy_evaluation evaluation
          >> (wrap policy_unavailable (compose evaluation) >>= λ decision.
              ok (evaluation, decision)))

  -- What is committed: identifiers, effects and time, in the order of the calls.
  unfoldable pub new_commit :
      AuthenticatedRuntime
      → String
      → ProposedAction
      → ActionDigest
      → PolicyEvaluation
      → Decision
      → Run S EvaluationCommit
  new_commit caller request_id action action_digest evaluation decision s =
      after (new_required_id id_decision s) λ decision_id. λ s.
        after (prepare_policy_effects evaluation.effects s) λ effects. λ s.
          after (read_clock s) λ evaluated_at. lift (
            ok (record {
              runtime_id = caller.runtime_id;
              request_id = request_id;
              action = action;
              action_digest = action_digest;
              decision_id = decision_id;
              decision = decision;
              policy_version = trim_space evaluation.policy_version;
              matched_rule_ids = evaluation.matched_rule_ids;
              effects = effects;
              evaluated_at = evaluated_at;
            }))

  -- The part of `Evaluate` for a request that the ledger does not know.
  unfoldable pub evaluate_new :
      AuthenticatedRuntime → String → ProposedAction → ActionDigest → Run S DecisionRecord
  evaluate_new caller request_id action action_digest s = after (decide action s) λ decided. λ s.
      after (new_commit caller request_id action action_digest decided.0 decided.1 s) λ commit. λ s.
        after (on_error wrap_commit_error (service.decision_ledger.commit_evaluation commit s))
          λ decision_record.
            lift
              (validate_authoritative_decision decision_record action_digest >> ok decision_record)

  -- What `Evaluate` does with the ledger's answer about the request.
  unfoldable pub continue :
      AuthenticatedRuntime
      → String
      → ProposedAction
      → ActionDigest
      → Result (Option StoredEvaluation) × S
      → Result DecisionRecord × S
  continue caller request_id action action_digest (ok existing, s) =
      (resolve_stored_evaluation existing caller.runtime_id request_id action_digest, s)
  continue caller request_id action action_digest (err e, s) = elim (is e evaluation_not_found) [
    | true ↦ evaluate_new caller request_id action action_digest s
    | false ↦ (err (wrap_ledger_error e), s)
  ]

  module _ ⦃u : Unicode⦄ ⦃d : Digests⦄ where
    unfoldable pub evaluate_with :
        AuthenticatedRuntime → EvaluateActionCommand → Run S DecisionRecord
    evaluate_with caller command s =
        after (prepare caller command, s)
          λ prepared. λ s.
            continue caller prepared.0 prepared.1 prepared.2
              (service.decision_ledger.get_evaluation_by_request_id caller.runtime_id prepared.0 s)

-- `service` is a pointer, and `none` is its nil.
unfoldable pub evaluate :
    {S : Type 0} ⦃u : Unicode⦄ ⦃d : Digests⦄
    → Option (DecisionService S)
    → AuthenticatedRuntime
    → EvaluateActionCommand
    → Run S DecisionRecord
evaluate none caller command s = (err (invalid_input ∷ []), s)
evaluate (some service) caller command s = evaluate_with service caller command s
