-- ===== src/Policy/Embedded.antt =====
-- internal/policy/embedded/evaluator.go: the deterministic rules. The context argument is left out.
pub mod Laws
pub mod Review
use agent_action_control.Domain.Principal.{principal_runtime}
use agent_action_control.Domain.Effect.{
  safety_review_high, new_safety_review_requirement, new_create_safety_review_effect,
  create_safety_review,
}
use agent_action_control.Errors.{ok, ◌>>=◌, Result}
use agent_action_control.Domain.Decision.{
  reason_visibility_expansion, reason_external_destination, reason_destructive_operation,
  reason_delegator_approval_required, reason_actor_not_authorized, ReasonCode,
}
use agent_action_control.Domain.ProposedAction.{ProposedAction}
use agent_action_control.Application.Evaluation.{PolicyEvaluation}
use agent_action_control.Domain.Evidence.{AuthorizationScope, AuthorizationEvidence}
use agent_action_control.Domain.Parameters.{
  delete, update_resource_access, external_send, destination_external, delete_hard,
  access_workspace, access_public, access_private, ActionParameters, AccessScope,
}
use agent_action_control.Prelude.{
  ◌∷◌, ◌||◌, true, some, not, none, map, ltb, length, false, eqb, if◌then◌else◌, [], String, Option,
  List, Bool, ◌==◌, ◌++◌, ◌&&◌,
}

abbrev pub embedded_version : String
embedded_version = "embedded-mvp-v1"

abbrev pub rule_permission_mismatch : String
rule_permission_mismatch = "mvp.permission-mismatch"

abbrev pub rule_external_send : String
rule_external_send = "mvp.external-send-approval"

abbrev pub rule_visibility_expand : String
rule_visibility_expand = "mvp.visibility-expansion-approval"

abbrev pub rule_destructive_delete : String
rule_destructive_delete = "mvp.destructive-delete-approval"

abbrev pub rule_secret_review : String
rule_secret_review = "mvp.secret-payload-review"

unfoldable pub is_high_impact_visibility_expansion : AccessScope → AccessScope → Bool
is_high_impact_visibility_expansion current requested =
    current == access_private && (requested == access_workspace || requested == access_public)

unfoldable pub contains_classification : List String → String → Bool
contains_classification [] target = false
contains_classification (value ∷ values) target =
    value == target || contains_classification values target

-- The type switch, whose default is the nil parameters.
unfoldable pub scope_matches_parameters : AuthorizationScope → Option ActionParameters → Bool
scope_matches_parameters scope (some (external_send p)) =
    scope.destination_scope == p.destination_scope
scope_matches_parameters scope (some (update_resource_access p)) =
    scope.requested_scope == p.requested_scope
scope_matches_parameters scope (some (delete p)) = scope.delete_mode == p.mode
scope_matches_parameters scope none = false

unfoldable pub scope_matches_action : AuthorizationScope → ProposedAction → Bool
scope_matches_action scope action =
    if not (scope.action_type == action.typ)
    then false
    else scope_matches_parameters scope action.parameters

unfoldable pub has_matching_runtime_evidence : ProposedAction → List AuthorizationEvidence → Bool
has_matching_runtime_evidence action [] = false
has_matching_runtime_evidence action (item ∷ evidence) =
    let rest = has_matching_runtime_evidence action evidence in
    if not (item.issued_by.typ == principal_runtime)
      || not (item.issued_by.id == action.actor.runtime_id)
    then rest
    else if scope_matches_action item.scope action
    then true
    else rest

-- `append` to the reasons and to the rule ids of an evaluation.
abbrev pub add_reasons : List ReasonCode → String → PolicyEvaluation → PolicyEvaluation
add_reasons reasons rule e = record e {
  deny_reason_codes = e.deny_reason_codes ++ reasons;
  matched_rule_ids = e.matched_rule_ids ++ rule ∷ [];
}

unfoldable pub evaluate_action_rules :
    ProposedAction → List AuthorizationEvidence → PolicyEvaluation → PolicyEvaluation
evaluate_action_rules action evidence evaluation = elim action.parameters [
  | some (external_send p) ↦
      if p.destination_scope == destination_external && eqb (length evidence) 0
      then add_reasons (reason_delegator_approval_required ∷ reason_external_destination ∷ [])
          rule_external_send evaluation
      else evaluation
  | some (update_resource_access p) ↦
      if is_high_impact_visibility_expansion p.current_scope p.requested_scope
      then add_reasons (reason_delegator_approval_required ∷ reason_visibility_expansion ∷ [])
          rule_visibility_expand evaluation
      else evaluation
  | some (delete p) ↦
      if p.mode == delete_hard || not p.recoverable
      then add_reasons (reason_delegator_approval_required ∷ reason_destructive_operation ∷ [])
          rule_destructive_delete evaluation
      else evaluation
  | none ↦ evaluation
]

-- The first half of `Evaluate`: the permission check, or the rules of the action's kind.
unfoldable pub evaluate_permission : ProposedAction → PolicyEvaluation
evaluate_permission action =
    let evaluation : PolicyEvaluation = record {
      deny_reason_codes = [];
      effects = [];
      matched_rule_ids = [];
      policy_version = embedded_version;
    } in
    if ltb 0 (length action.evidence) && not (has_matching_runtime_evidence action action.evidence)
    then add_reasons (reason_actor_not_authorized ∷ []) rule_permission_mismatch evaluation
    else evaluate_action_rules action action.evidence evaluation

unfoldable pub evaluate : ProposedAction → Result PolicyEvaluation
evaluate action =
    let evaluation = evaluate_permission action in
    if contains_classification action.payload.classification "SECRET"
    then (do
      let references = map (λ (item : AuthorizationEvidence). item.id) action.evidence
      requirement ← new_safety_review_requirement safety_review_high references
      effect ← new_create_safety_review_effect requirement
      ok (record evaluation {
        effects = evaluation.effects ++ create_safety_review effect ∷ [];
        matched_rule_ids = evaluation.matched_rule_ids ++ rule_secret_review ∷ [];
      }))
    else ok evaluation
