-- ===== src/Domain/Decision.antt =====
-- internal/domain/reason_code.go, required_action.go and decision.go.
pub mod Laws
use agent_action_control.Prelude.{
  String, Bool, true, false, not, ◌||◌, ◌&&◌, ltb, eqb, ◌==◌, List, [], ◌∷◌, ◌++◌, length,
  if◌then◌else◌,
}
use agent_action_control.Containers.{contains}
use agent_action_control.Errors.{
  Result, ok, err, ◌>>=◌, ◌>>◌, refuse_if, invalid_argument, invalid_reason_code,
  invalid_required_action_type, invalid_decision_type, invariant_violation,
}

abbrev pub ReasonCode : Type 0
ReasonCode = String

abbrev pub reason_delegator_approval_required : ReasonCode
reason_delegator_approval_required = "DELEGATOR_APPROVAL_REQUIRED"

abbrev pub reason_external_destination : ReasonCode
reason_external_destination = "EXTERNAL_DESTINATION"

abbrev pub reason_visibility_expansion : ReasonCode
reason_visibility_expansion = "VISIBILITY_EXPANSION"

abbrev pub reason_destructive_operation : ReasonCode
reason_destructive_operation = "DESTRUCTIVE_OPERATION"

abbrev pub reason_actor_not_authorized : ReasonCode
reason_actor_not_authorized = "ACTOR_NOT_AUTHORIZED"

abbrev pub reason_policy_unavailable : ReasonCode
reason_policy_unavailable = "POLICY_UNAVAILABLE"

unfoldable pub reason_code_valid : ReasonCode → Bool
reason_code_valid code =
    code == reason_delegator_approval_required
    || code == reason_external_destination
    || code == reason_visibility_expansion
    || code == reason_destructive_operation
    || code == reason_actor_not_authorized
    || code == reason_policy_unavailable

unfoldable pub parse_reason_code : String → Result ReasonCode
parse_reason_code value =
    if reason_code_valid value then ok value else err (invalid_reason_code ∷ [])

abbrev pub RequiredActionType : Type 0
RequiredActionType = String

abbrev pub required_action_require_approval : RequiredActionType
required_action_require_approval = "REQUIRE_APPROVAL"

unfoldable pub required_action_type_valid : RequiredActionType → Bool
required_action_type_valid typ = typ == required_action_require_approval

unfoldable pub parse_required_action_type : String → Result RequiredActionType
parse_required_action_type value =
    if required_action_type_valid value then ok value else err (invalid_required_action_type ∷ [])

pub record RequiredAction : Type 0 where
  pub typ : RequiredActionType

abbrev pub new_require_approval_action : RequiredAction
new_require_approval_action = record { typ = required_action_require_approval }

unfoldable pub required_action_valid : RequiredAction → Bool
required_action_valid action = required_action_type_valid action.typ

abbrev pub DecisionType : Type 0
DecisionType = String

abbrev pub decision_allow : DecisionType
decision_allow = "ALLOW"

abbrev pub decision_deny : DecisionType
decision_deny = "DENY"

unfoldable pub decision_type_valid : DecisionType → Bool
decision_type_valid typ = typ == decision_allow || typ == decision_deny

unfoldable pub parse_decision_type : String → Result DecisionType
parse_decision_type value =
    if decision_type_valid value then ok value else err (invalid_decision_type ∷ [])

pub record Decision : Type 0 where
  pub typ : DecisionType
  pub reason_codes : List ReasonCode
  pub required_actions : List RequiredAction

abbrev pub new_allow_decision : Decision
new_allow_decision = record { typ = decision_allow; reason_codes = []; required_actions = [] }

-- The loop over the reason codes, with `seenReasons` and `normalizedReasons`.
unfoldable pub collect_reasons :
    List ReasonCode → List ReasonCode → List ReasonCode → Result (List ReasonCode)
collect_reasons [] seen normalized = ok normalized
collect_reasons (code ∷ codes) seen normalized =
    let fresh = not (contains code seen) in
    let rest =
      collect_reasons codes (if fresh then code ∷ seen else seen)
        (if fresh then normalized ++ code ∷ [] else normalized) in
    if not (reason_code_valid code) then err (invalid_reason_code ∷ []) else rest

-- The loop over the required actions, with `seenActions` and `normalizedActions`.
unfoldable pub collect_actions :
    List RequiredAction
    → List RequiredActionType
    → List RequiredAction
    → Result (List RequiredAction)
collect_actions [] seen normalized = ok normalized
collect_actions (action ∷ actions) seen normalized =
    let fresh = not (contains action.typ seen) in
    let rest =
      collect_actions actions (if fresh then action.typ ∷ seen else seen)
        (if fresh then normalized ++ action ∷ [] else normalized) in
    if not (required_action_valid action) then err (invalid_required_action_type ∷ []) else rest

unfoldable pub new_deny_decision : List ReasonCode → List RequiredAction → Result Decision
new_deny_decision reason_codes required_actions = do
  refuse_if (eqb (length reason_codes) 0) (invalid_argument ∷ [])
  normalized_reasons ← collect_reasons reason_codes [] []
  normalized_actions ← collect_actions required_actions [] []
  let has_approval_reason = contains reason_delegator_approval_required normalized_reasons
  refuse_if (ltb 0 (length normalized_actions) && not has_approval_reason)
      (invariant_violation ∷ [])
  refuse_if (has_approval_reason && eqb (length normalized_actions) 0) (invariant_violation ∷ [])
  ok (record {
    typ = decision_deny;
    reason_codes = normalized_reasons;
    required_actions = normalized_actions;
  })
