-- ===== src/Tests/Services.antt =====
-- The decision service at work.
use agent_action_control.Tests.Worlds.{
  finish, start, service, command, stored_with, send_record, World,
}
use agent_action_control.Tests.Actions.{send-IsAction}
use agent_action_control.Domain.ProposedAction.Laws.{rebuild_of_IsAction}
use agent_action_control.Time.{utc, is_zero}
use agent_action_control.Strings.{keep, trim_space, trim_right, trim_left, is_space}
use agent_action_control.Application.Service.Errors.{evaluate-classified, is_classified}
use agent_action_control.Application.Composer.{contains_reason, compose, contains_terminal_reason}
use agent_action_control.Policy.Embedded.{
  evaluate_permission, evaluate_action_rules, contains_classification,
}
use agent_action_control.Domain.Effect.{
  validate_effect, priority_valid, policy_effect_type_valid, new_safety_review_requirement,
  new_create_safety_review_effect, check_refs,
}
use agent_action_control.Domain.Canonical.{
  compute_action_digest, canonical_parameters, canonical_action_bytes, canonical_action,
}
use agent_action_control.Tests.Fixtures.{
  ascii, digests, caller, send_action, normalize_run, a_digest,
}
use agent_action_control.Errors.{
  identity, ok, same, request_id_conflict, is, evaluation_not_found, err,
}
use agent_action_control.Domain.ProposedAction.{ProposedAction}
use agent_action_control.Application.Service.Commit.{evaluate-IsCommit, IsCommit}
use agent_action_control.Application.Service.Laws.{IsAuthoritative}
use agent_action_control.Application.Evaluation.{PolicyEvaluation, EvaluationCommit}
use agent_action_control.Domain.Decision.{
  required_action_valid, required_action_type_valid, reason_code_valid, new_deny_decision,
  decision_type_valid, collect_reasons, collect_actions,
}
use agent_action_control.Prelude.{none, ◌≡◌, ◌∷◌, true, some, refl, []}
use agent_action_control.Policy.Embedded
use agent_action_control.Application.Service.{
  decide, prepare, continue, validate_policy_evaluation, validate_authoritative_decision,
  valid_policy_effect, resolve_stored_evaluation, read_clock, prepare_policy_effects,
  normalize_decision_request_id, new_required_id, new_commit, evaluate_with, evaluate_new,
  check_rule_ids, check_effects, evaluate,
}

prepare_run : prepare caller command ≡ ok ("req-1", send_action, a_digest)
unfolding prepare normalize_decision_request_id trim_space trim_left trim_right keep is_space
    compute_action_digest canonical_action_bytes canonical_action canonical_parameters
prepare_run = rw (normalize_run, rebuild_of_IsAction send_action send-IsAction) refl

-- The new request is denied until the delegator approves, and both identifiers are made.
evaluate_run : evaluate (some service) caller command start ≡ (ok (send_record a_digest), finish)
unfolding evaluate evaluate_with continue evaluate_new decide new_commit new_required_id
    prepare_policy_effects read_clock validate_policy_evaluation check_rule_ids check_effects
    valid_policy_effect policy_effect_type_valid compose contains_terminal_reason contains_reason
    new_deny_decision collect_reasons collect_actions reason_code_valid required_action_valid
    required_action_type_valid validate_authoritative_decision decision_type_valid is_zero utc is
    same identity trim_space trim_left trim_right keep is_space Embedded.evaluate
    Embedded.evaluate_permission Embedded.evaluate_action_rules Embedded.contains_classification
    new_safety_review_requirement priority_valid check_refs new_create_safety_review_effect
    validate_effect
evaluate_run = rw prepare_run refl

not_found_run : is (evaluation_not_found ∷ []) evaluation_not_found ≡ true
unfolding is same identity
not_found_run = refl

evaluate-IsCommit_example :
    (v : PolicyEvaluation) × (c : EvaluationCommit) × (t' : World) × (t'' : World)
    × (service.policy_evaluator send_action start ≡ (ok v, t'))
    × (compose v ≡ ok c.decision)
    × IsCommit service.clock caller "req-1" send_action a_digest c
    × (service.decision_ledger.commit_evaluation c t'' ≡ (ok (send_record a_digest), finish))
    × IsAuthoritative (send_record a_digest) a_digest
evaluate-IsCommit_example =
    evaluate-IsCommit service caller command start finish (send_record a_digest) "req-1" send_action
      a_digest start (evaluation_not_found ∷ []) evaluate_run prepare_run refl not_found_run

abbrev other : World
other = record { stored = some (stored_with "sha256:00"); made = 2 }

conflict_run :
    evaluate (some service) caller command other ≡ (err (request_id_conflict ∷ []), other)
unfolding evaluate evaluate_with continue resolve_stored_evaluation
conflict_run = rw prepare_run refl

evaluate-classified_example : is_classified (request_id_conflict ∷ []) ≡ true
evaluate-classified_example =
    evaluate-classified (some service) caller command other other (request_id_conflict ∷ [])
      conflict_run

-- Nothing is stored.
abbrev IsFresh : World → Type 0
IsFresh w = w.stored ≡ none
