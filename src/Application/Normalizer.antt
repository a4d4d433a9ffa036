-- ===== src/Application/Normalizer.antt =====
-- internal/application/action_normalizer.go. Labels of error messages are left out; a nil input of
-- the parameters is `none`.
pub mod Laws
pub mod Describes
pub mod Guarantees
use agent_action_control.Prelude.{
  ℤ, String, Bool, not, ◌&&◌, ◌==◌, List, [], ◌∷◌, Option, none, some, if◌then◌else◌,
}
use agent_action_control.Strings.{Unicode, trim_space}
use agent_action_control.Errors.{
  Error, Result, ok, err, ◌>>=◌, ◌>>◌, refuse_if, traverse, is, invalid_input, invalid_argument,
  invalid_action_type, runtime_identity_conflict,
}
use agent_action_control.Time.{Time}
use agent_action_control.Domain.Principal.{
  PrincipalType, Principal, new_principal, new_delegation, new_target,
}
use agent_action_control.Domain.Action.{
  ActionType, action_external_send, action_update_resource_access, action_delete, new_actor,
  parse_payload_digest,
}
use agent_action_control.Domain.Parameters.{
  ActionParameters, external_send, update_resource_access, delete, parse_destination_scope,
  parse_access_scope, parse_delete_mode, new_external_send_parameters,
  new_update_resource_access_parameters, new_delete_parameters,
}
use agent_action_control.Domain.Payload.{new_payload_facts}
use agent_action_control.Domain.Evidence.{
  AuthorizationScope, AuthorizationEvidence, parse_authorization_evidence_type,
  new_authorization_scope, new_authorization_evidence, normalize_authorization_evidence,
}
use agent_action_control.Domain.ProposedAction.{ProposedAction, new_proposed_action}
use agent_action_control.Application.Runtime.{AuthenticatedRuntime}

pub record ActorInput : Type 0 where
  pub agent_id : String
  pub runtime_id : String
  pub session_id : String

pub record PrincipalInput : Type 0 where
  pub typ : PrincipalType
  pub id : String

pub record DelegationInput : Type 0 where
  pub id : String
  pub delegator : PrincipalInput

pub record TargetInput : Type 0 where
  pub resource_type : String
  pub resource_id : String

pub record PayloadInput : Type 0 where
  pub digest : String
  pub classification : List String
  pub size_bytes : Option ℤ

pub record AuthorizationScopeInput : Type 0 where
  pub action_type : ActionType
  pub destination_scope : String
  pub requested_scope : String
  pub delete_mode : String

pub record AuthorizationEvidenceInput : Type 0 where
  pub typ : String
  pub evidence_id : String
  pub issued_by : PrincipalInput
  pub scope : AuthorizationScopeInput

pub data ActionParametersInput : Type 0 where
  external_send_input :
      (destination_scope : String) (recipients : List String) → ActionParametersInput
  update_resource_access_input :
      (current_scope requested_scope : String) (target_principals : List PrincipalInput)
      → ActionParametersInput
  delete_input : (delete_mode : String) (recoverable : Bool) → ActionParametersInput

-- the method `actionType`
unfoldable pub input_type : ActionParametersInput → ActionType
input_type (external_send_input _ _) = action_external_send
input_type (update_resource_access_input _ _ _) = action_update_resource_access
input_type (delete_input _ _) = action_delete

pub record ProposedActionInput : Type 0 where
  pub typ : ActionType
  pub requested_at : Time
  pub actor : ActorInput
  pub delegation : DelegationInput
  pub target : TargetInput
  pub parameters : Option ActionParametersInput
  pub payload : PayloadInput
  pub evidence : List AuthorizationEvidenceInput

unfoldable pub normalize_principal : PrincipalInput → Result Principal
normalize_principal input = new_principal input.typ input.id

module _ ⦃u : Unicode⦄ where
  -- The type switch.
  unfoldable pub build_parameters : ActionParametersInput → Result ActionParameters
  build_parameters (external_send_input destination_scope recipients) = do
    scope ← parse_destination_scope destination_scope
    parameters ← new_external_send_parameters scope recipients
    ok (external_send parameters)
  build_parameters (update_resource_access_input current_scope requested_scope targets) = do
    current_scope ← parse_access_scope current_scope
    requested_scope ← parse_access_scope requested_scope
    principals ← traverse normalize_principal targets
    parameters ← new_update_resource_access_parameters current_scope requested_scope principals
    ok (update_resource_access parameters)
  build_parameters (delete_input delete_mode recoverable) = do
    mode ← parse_delete_mode delete_mode
    parameters ← new_delete_parameters mode recoverable
    ok (delete parameters)

  unfoldable pub normalize_parameters :
      ActionType → Option ActionParametersInput → Result ActionParameters
  normalize_parameters action_type none = err (invalid_argument ∷ [])
  normalize_parameters action_type (some input) = do
    refuse_if (not (input_type input == action_type)) (invalid_argument ∷ [])
    build_parameters input

  unfoldable pub normalize_authorization_scope : AuthorizationScopeInput → Result AuthorizationScope
  normalize_authorization_scope input =
      if input.action_type == action_external_send
      then (do
        destination_scope ← parse_destination_scope input.destination_scope
        new_authorization_scope input.action_type destination_scope "" "")
      else if input.action_type == action_update_resource_access
      then (do
        requested_scope ← parse_access_scope input.requested_scope
        new_authorization_scope input.action_type "" requested_scope "")
      else if input.action_type == action_delete
      then (do
        delete_mode ← parse_delete_mode input.delete_mode
        new_authorization_scope input.action_type "" "" delete_mode)
      else err (invalid_action_type ∷ [])

  -- The body of the loop in `normalizeEvidence`.
  unfoldable pub normalize_evidence_item : AuthorizationEvidenceInput → Result AuthorizationEvidence
  normalize_evidence_item input = do
    typ ← parse_authorization_evidence_type input.typ
    issuer ← normalize_principal input.issued_by
    scope ← normalize_authorization_scope input.scope
    new_authorization_evidence typ input.evidence_id issuer scope

  unfoldable pub normalize_evidence :
      List AuthorizationEvidenceInput → Result (List AuthorizationEvidence)
  normalize_evidence inputs = do
    result ← traverse normalize_evidence_item inputs
    normalize_authorization_evidence result

  unfoldable pub normalize_action :
      AuthenticatedRuntime → ProposedActionInput → Result ProposedAction
  normalize_action caller input = do
    let runtime_id = caller.runtime_id
    refuse_if (runtime_id == "") (invalid_input ∷ [])
    let claimed_runtime_id = trim_space input.actor.runtime_id
    refuse_if (not (claimed_runtime_id == "") && not (claimed_runtime_id == runtime_id))
        (runtime_identity_conflict ∷ [])
    actor ← new_actor input.actor.agent_id runtime_id input.actor.session_id
    delegator ← normalize_principal input.delegation.delegator
    delegation ← new_delegation input.delegation.id delegator
    target ← new_target input.target.resource_type input.target.resource_id
    parameters ← normalize_parameters input.typ input.parameters
    digest ← parse_payload_digest (trim_space input.payload.digest)
    payload ← new_payload_facts digest input.payload.classification input.payload.size_bytes
    evidence ← normalize_evidence input.evidence
    new_proposed_action input.typ input.requested_at actor delegation target (some parameters)
        payload evidence

  -- `Normalize` puts `ErrInvalidInput` in front of every other error.
  unfoldable pub normalize : AuthenticatedRuntime → ProposedActionInput → Result ProposedAction
  normalize caller input = elim (normalize_action caller input) [
    | ok action ↦ ok action
    | err e ↦ if not (is e invalid_input) then err (invalid_input ∷ e) else err e
  ]
