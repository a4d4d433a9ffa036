-- ===== src/Application/Composer.antt =====
-- internal/application/decision_composer.go.
pub mod Laws
use agent_action_control.Prelude.{
  Bool, true, false, ◌||◌, ◌==◌, not, eqb, List, [], ◌∷◌, length, if◌then◌else◌,
}
use agent_action_control.Errors.{Result, ok}
use agent_action_control.Domain.Decision.{
  Decision, ReasonCode, reason_delegator_approval_required, reason_external_destination,
  reason_visibility_expansion, reason_destructive_operation, new_require_approval_action,
  new_allow_decision, new_deny_decision,
}
use agent_action_control.Application.Evaluation.{PolicyEvaluation}

unfoldable pub contains_reason : List ReasonCode → ReasonCode → Bool
contains_reason [] target = false
contains_reason (reason ∷ reasons) target = reason == target || contains_reason reasons target

unfoldable pub contains_terminal_reason : List ReasonCode → Bool
contains_terminal_reason [] = false
contains_terminal_reason (reason ∷ reasons) =
    let rest = contains_terminal_reason reasons in
    if reason == reason_delegator_approval_required
      || reason == reason_external_destination
      || reason == reason_visibility_expansion
      || reason == reason_destructive_operation
    then rest
    else true

unfoldable pub without_reason : List ReasonCode → ReasonCode → List ReasonCode
without_reason [] excluded = []
without_reason (reason ∷ reasons) excluded =
    let rest = without_reason reasons excluded in
    if not (reason == excluded) then reason ∷ rest else rest

unfoldable pub compose : PolicyEvaluation → Result Decision
compose evaluation =
    let reasons = evaluation.deny_reason_codes in
    if eqb (length reasons) 0
    then ok new_allow_decision
    else if contains_terminal_reason reasons
    then new_deny_decision (without_reason reasons reason_delegator_approval_required) []
    else if contains_reason reasons reason_delegator_approval_required
    then new_deny_decision reasons (new_require_approval_action ∷ [])
    else new_deny_decision reasons []
