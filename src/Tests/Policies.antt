-- ===== src/Tests/Policies.antt =====
-- The embedded policy and the composer.
use agent_action_control.Strings.{trim_prefix, has_prefix, cut_prefix}
use agent_action_control.Policy.Osprey.{
  valid_policy_key, new_safety_review_effect, matches_key_tail, map_verdicts_loop, map_verdicts,
  evaluate_answer, apply_verdict,
}
use agent_action_control.Policy.Osprey.Laws.{
  compose-map_verdicts, compose-evaluate_answer, any_blocking,
}
use agent_action_control.Policy.Embedded.Review.{
  is_secret, evidence_ids, evaluate-fails, evaluate-effects,
}
use agent_action_control.Errors.{plain, discard, ok, invalid_argument, err}
use agent_action_control.Tests.Actions.{delete-IsAction}
use agent_action_control.Application.Composer.{
  compose, without_reason, contains_terminal_reason, contains_reason,
}
use agent_action_control.Policy.Embedded.{
  evaluate, scope_matches_parameters, scope_matches_action, has_matching_runtime_evidence,
  evaluate_permission, evaluate_action_rules, contains_classification,
}
use agent_action_control.Application.Composer.Laws.{compose-eq-precedence, compose-IsDecision}
use agent_action_control.Domain.Effect.{
  validate_effect, safety_review_high, priority_valid, new_safety_review_requirement,
  new_create_safety_review_effect, create_safety_review, check_refs,
}
use agent_action_control.Application.Evaluation.{PolicyEvaluation}
use agent_action_control.Domain.Decision.Laws.{is_empty, IsDecision}
use agent_action_control.Domain.Decision.{
  reason_policy_unavailable, required_action_valid, required_action_type_valid,
  reason_external_destination, reason_delegator_approval_required, reason_code_valid,
  reason_actor_not_authorized, new_require_approval_action, new_deny_decision, decision_deny,
  decision_allow, collect_reasons, collect_actions, Decision,
}
use agent_action_control.Policy.Embedded.Laws.{
  ruling, has_matching_runtime_evidence_iff, compose-evaluate, Authorizes,
}
use agent_action_control.Prelude.{
  Some, not, String, List, ◌≡◌, ◌∷◌, ◌↔◌, true, refl, if◌then◌else◌, [], ◌==◌,
}
use agent_action_control.Tests.Fixtures.{send_action, delete_action, ascii}

abbrev send_evaluation : PolicyEvaluation
send_evaluation = record {
  deny_reason_codes = reason_delegator_approval_required ∷ reason_external_destination ∷ [];
  effects =
      create_safety_review
        (record { requirement = record { priority = safety_review_high; evidence_refs = [] } })
      ∷ [];
  matched_rule_ids = "mvp.external-send-approval" ∷ "mvp.secret-payload-review" ∷ [];
  policy_version = "embedded-mvp-v1";
}

send_run : evaluate send_action ≡ ok send_evaluation
unfolding evaluate evaluate_permission evaluate_action_rules contains_classification
    new_safety_review_requirement priority_valid check_refs new_create_safety_review_effect
    validate_effect
send_run = refl

compose-evaluate_example : compose send_evaluation ≡ ok (ruling send_action)
compose-evaluate_example = compose-evaluate send_action send_evaluation send_run

evaluate-effects_example : send_evaluation.effects ≡ (
    if is_secret send_action
    then create_safety_review (record {
      requirement = record {
        priority = safety_review_high;
        evidence_refs = evidence_ids send_action.evidence;
      };
    })
      ∷ []
    else [])
evaluate-effects_example = evaluate-effects send_action send_evaluation send_run

-- Two items of evidence of different types share an identifier, and the payload is secret.
evaluate-fails_example : discard (evaluate delete_action) ≡ err (invalid_argument ∷ [])
unfolding contains_classification
evaluate-fails_example = evaluate-fails delete_action delete-IsAction

has_matching_runtime_evidence_iff_example :
    (has_matching_runtime_evidence delete_action delete_action.evidence ≡ true)
    ↔ Some (Authorizes delete_action) delete_action.evidence
has_matching_runtime_evidence_iff_example =
    has_matching_runtime_evidence_iff delete_action delete_action.evidence

authorized_run : has_matching_runtime_evidence delete_action delete_action.evidence ≡ true
unfolding has_matching_runtime_evidence scope_matches_action scope_matches_parameters
authorized_run = refl

abbrev send_decision : Decision
send_decision = record {
  typ = decision_deny;
  reason_codes = reason_delegator_approval_required ∷ reason_external_destination ∷ [];
  required_actions = new_require_approval_action ∷ [];
}

compose_run : compose send_evaluation ≡ ok send_decision
unfolding compose contains_terminal_reason contains_reason new_deny_decision collect_reasons
    collect_actions reason_code_valid required_action_valid required_action_type_valid
compose_run = refl

compose-IsDecision_example :
    IsDecision send_decision
    × ((send_decision.typ == decision_allow) ≡ is_empty send_evaluation.deny_reason_codes)
compose-IsDecision_example = compose-IsDecision send_evaluation send_decision compose_run

-- A terminal reason beside the approval reason: no approval is asked for.
abbrev mixed : PolicyEvaluation
mixed = record send_evaluation {
  deny_reason_codes = reason_delegator_approval_required ∷ reason_actor_not_authorized ∷ [];
}

compose-eq-precedence_example :
    compose mixed
    ≡ ok (record {
      typ = decision_deny;
      reason_codes = reason_actor_not_authorized ∷ [];
      required_actions = [];
    })
unfolding contains_terminal_reason without_reason reason_code_valid
compose-eq-precedence_example = compose-eq-precedence mixed

abbrev verdicts : List String
verdicts =
    "require_delegator_approval.mail" ∷ "create_safety_review.pii"
    ∷ "require_delegator_approval.mail" ∷ []

abbrev verdict_evaluation : PolicyEvaluation
verdict_evaluation = record {
  deny_reason_codes = reason_delegator_approval_required ∷ [];
  effects =
      create_safety_review
        (record { requirement = record { priority = safety_review_high; evidence_refs = [] } })
      ∷ [];
  matched_rule_ids = "require_delegator_approval.mail" ∷ "create_safety_review.pii" ∷ [];
  policy_version = "v1";
}

verdicts_run : map_verdicts "v1" verdicts ≡ ok verdict_evaluation
unfolding map_verdicts map_verdicts_loop apply_verdict new_safety_review_effect valid_policy_key
    matches_key_tail has_prefix trim_prefix cut_prefix new_safety_review_requirement priority_valid
    check_refs new_create_safety_review_effect validate_effect
verdicts_run = refl

compose-map_verdicts_example :
    (d : Decision) × (compose verdict_evaluation ≡ ok d)
    × ((d.typ == decision_allow) ≡ not (any_blocking verdicts))
compose-map_verdicts_example = compose-map_verdicts "v1" verdicts verdict_evaluation verdicts_run

unknown_run : map_verdicts "v1" ("allow.everything" ∷ []) ≡ err plain
unfolding map_verdicts map_verdicts_loop apply_verdict has_prefix cut_prefix
unknown_run = refl

compose-evaluate_answer_example :
    compose (evaluate_answer "v1" (ok ("allow.everything" ∷ [])))
    ≡ ok (record {
      typ = decision_deny;
      reason_codes = reason_policy_unavailable ∷ [];
      required_actions = [];
    })
compose-evaluate_answer_example =
    compose-evaluate_answer "v1" (ok ("allow.everything" ∷ [])) plain unknown_run
