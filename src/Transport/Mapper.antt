-- ===== src/Transport/Mapper.antt =====
-- internal/transport/http/mapper.go.
use agent_action_control.Domain.Principal.{parse_principal_type}
use agent_action_control.Transport.Decode.{
  decode_update_resource_access, decode_external_send, decode_delete,
}
use agent_action_control.Domain.Action.{
  parse_action_type, action_update_resource_access, action_external_send, action_delete,
}
use agent_action_control.Transport.Dto.{
  api_version_v1, EvaluateActionRequest, DtoPrincipal, DtoEvidence, DtoAction, DecisionResponse,
}
use agent_action_control.Application.Evaluation.{DecisionRecord}
use agent_action_control.Application.Normalizer.{
  update_resource_access_input, external_send_input, delete_input, PrincipalInput,
  AuthorizationEvidenceInput, ActionParametersInput,
}
use agent_action_control.Prelude.{some, map, if◌then◌else◌, [], String, ◌==◌}
use agent_action_control.Errors.{◌>>=◌, ok, err, Result, traverse}
use agent_action_control.Application.Service.{EvaluateActionCommand}

unfoldable pub to_principal_input : DtoPrincipal → Result PrincipalInput
to_principal_input principal = do
  typ ← parse_principal_type principal.typ
  ok (record { typ = typ; id = principal.id })

unfoldable pub to_action_parameters : DtoAction → Result ActionParametersInput
to_action_parameters action =
    if action.typ == action_external_send
    then (do
      value ← decode_external_send action.parameters
      ok (external_send_input value.destination_scope value.recipients))
    else if action.typ == action_update_resource_access
    then (do
      value ← decode_update_resource_access action.parameters
      principals ← traverse to_principal_input value.target_principals
      ok (update_resource_access_input value.current_scope value.requested_scope principals))
    else if action.typ == action_delete
    then (do
      value ← decode_delete action.parameters
      ok (delete_input value.delete_mode value.recoverable))
    else err []

-- One round of the loop over the evidence.
unfoldable pub to_evidence_input : DtoEvidence → Result AuthorizationEvidenceInput
to_evidence_input evidence = do
  action_type ← parse_action_type evidence.scope.action_type
  issuer ← to_principal_input evidence.issued_by
  ok (record {
    typ = evidence.typ;
    evidence_id = evidence.evidence_id;
    issued_by = issuer;
    scope = record {
      action_type = action_type;
      destination_scope = evidence.scope.destination_scope;
      requested_scope = evidence.scope.requested_scope;
      delete_mode = evidence.scope.delete_mode;
    };
  })

unfoldable pub to_evaluate_action_command : EvaluateActionRequest → Result EvaluateActionCommand
to_evaluate_action_command request = do
  let action = request.proposed_action
  action_type ← parse_action_type action.typ
  parameters ← to_action_parameters action
  evidence ← traverse to_evidence_input action.authorization_evidence
  delegator ← to_principal_input action.delegation.delegator
  ok (record {
    request_id = request.request_id;
    proposed_action = record {
      typ = action_type;
      requested_at = action.requested_at;
      actor = record {
        agent_id = action.actor.agent_id;
        runtime_id = action.actor.runtime_id;
        session_id = action.actor.session_id;
      };
      delegation = record { id = action.delegation.delegation_id; delegator = delegator };
      target = record {
        resource_type = action.target.resource_type;
        resource_id = action.target.resource_id;
      };
      parameters = some parameters;
      payload = record {
        digest = action.payload.digest;
        classification = action.payload.classification;
        size_bytes = action.payload.size_bytes;
      };
      evidence = evidence;
    };
  })

unfoldable pub to_decision_response : String → DecisionRecord → DecisionResponse
to_decision_response request_id r = record {
  api_version = api_version_v1;
  request_id = request_id;
  decision_id = r.decision_id;
  action_digest = r.action_digest;
  decision = r.decision.typ;
  reason_codes = r.decision.reason_codes;
  required_actions = map (λ a. a.typ) r.decision.required_actions;
  policy = r.policy_version;
  evaluated_at = r.evaluated_at;
}
