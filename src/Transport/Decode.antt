-- ===== src/Transport/Decode.antt =====
-- Strict decoding of the structs of internal/transport/http/dto.go by their field tags: a member that
-- has no field is an error, and so is anything behind the value.
use agent_action_control.Domain.Action.{
  action_update_resource_access, action_external_send, action_delete,
}
use agent_action_control.Transport.Dto.{
  api_version_v1, JsonTimes, EvaluateActionRequest, DtoUpdateResourceAccess, DtoTarget, DtoScope,
  DtoPrincipal, DtoPayload, DtoExternalSend, DtoEvidence, DtoDelete, DtoDelegation, DtoActor,
  DtoAction,
}
use agent_action_control.Prelude.{pos, not, none, false, if◌then◌else◌, [], String, Option, ◌==◌}
use agent_action_control.Errors.{discard, ◌>>=◌, ◌>>◌, ok, err, Result, refuse_if}
use agent_action_control.Json.{Json, json_null, json_string}
use agent_action_control.Json.Unmarshal.{
  Decode, names, into_string, into_struct, into_list, into_raw, into_bool, into_int_pointer,
  unmarshal, unmarshal_raw,
}
use agent_action_control.Storage.Unmarshal.{into_strings}
use agent_action_control.Time.{Time}

unfoldable pub set_dto_actor : String → Decode DtoActor
set_dto_actor name v a =
    if names name "agentId"
    then (into_string v a.agent_id >>= λ x. ok (record a { agent_id = x }))
    else if names name "runtimeId"
    then (into_string v a.runtime_id >>= λ x. ok (record a { runtime_id = x }))
    else if names name "sessionId"
    then (into_string v a.session_id >>= λ x. ok (record a { session_id = x }))
    else err []

unfoldable pub set_dto_principal : String → Decode DtoPrincipal
set_dto_principal name v p =
    if names name "type"
    then (into_string v p.typ >>= λ x. ok (record p { typ = x }))
    else if names name "id"
    then (into_string v p.id >>= λ x. ok (record p { id = x }))
    else err []

unfoldable pub set_dto_delegation : String → Decode DtoDelegation
set_dto_delegation name v d =
    if names name "delegationId"
    then (into_string v d.delegation_id >>= λ x. ok (record d { delegation_id = x }))
    else if names name "delegator"
    then (into_struct set_dto_principal v d.delegator >>= λ x. ok (record d { delegator = x }))
    else err []

unfoldable pub set_dto_target : String → Decode DtoTarget
set_dto_target name v t =
    if names name "resourceType"
    then (into_string v t.resource_type >>= λ x. ok (record t { resource_type = x }))
    else if names name "resourceId"
    then (into_string v t.resource_id >>= λ x. ok (record t { resource_id = x }))
    else err []

unfoldable pub set_dto_payload : String → Decode DtoPayload
set_dto_payload name v p =
    if names name "digest"
    then (into_string v p.digest >>= λ x. ok (record p { digest = x }))
    else if names name "classification"
    then (into_strings v p.classification >>= λ x. ok (record p { classification = x }))
    else if names name "sizeBytes"
    then (into_int_pointer v p.size_bytes >>= λ x. ok (record p { size_bytes = x }))
    else err []

unfoldable pub set_dto_scope : String → Decode DtoScope
set_dto_scope name v s =
    if names name "actionType"
    then (into_string v s.action_type >>= λ x. ok (record s { action_type = x }))
    else if names name "destinationScope"
    then (into_string v s.destination_scope >>= λ x. ok (record s { destination_scope = x }))
    else if names name "requestedScope"
    then (into_string v s.requested_scope >>= λ x. ok (record s { requested_scope = x }))
    else if names name "deleteMode"
    then (into_string v s.delete_mode >>= λ x. ok (record s { delete_mode = x }))
    else err []

unfoldable pub set_dto_evidence : String → Decode DtoEvidence
set_dto_evidence name v e =
    if names name "type"
    then (into_string v e.typ >>= λ x. ok (record e { typ = x }))
    else if names name "evidenceId"
    then (into_string v e.evidence_id >>= λ x. ok (record e { evidence_id = x }))
    else if names name "issuedBy"
    then (into_struct set_dto_principal v e.issued_by >>= λ x. ok (record e { issued_by = x }))
    else if names name "scope"
    then (into_struct set_dto_scope v e.scope >>= λ x. ok (record e { scope = x }))
    else err []

unfoldable pub set_dto_external_send : String → Decode DtoExternalSend
set_dto_external_send name v p =
    if names name "destinationScope"
    then (into_string v p.destination_scope >>= λ x. ok (record p { destination_scope = x }))
    else if names name "recipients"
    then (into_strings v p.recipients >>= λ x. ok (record p { recipients = x }))
    else err []

abbrev pub no_dto_principal : DtoPrincipal
no_dto_principal = record { typ = ""; id = "" }

unfoldable pub set_dto_update_resource_access : String → Decode DtoUpdateResourceAccess
set_dto_update_resource_access name v p =
    if names name "currentScope"
    then (into_string v p.current_scope >>= λ x. ok (record p { current_scope = x }))
    else if names name "requestedScope"
    then (into_string v p.requested_scope >>= λ x. ok (record p { requested_scope = x }))
    else if names name "targetPrincipals"
    then (into_list (into_struct set_dto_principal) no_dto_principal v p.target_principals >>= λ x.
        ok (record p { target_principals = x }))
    else err []

unfoldable pub set_dto_delete : String → Decode DtoDelete
set_dto_delete name v p =
    if names name "deleteMode"
    then (into_string v p.delete_mode >>= λ x. ok (record p { delete_mode = x }))
    else if names name "recoverable"
    then (into_bool v p.recoverable >>= λ x. ok (record p { recoverable = x }))
    else err []

abbrev pub no_dto_scope : DtoScope
no_dto_scope = record {
  action_type = "";
  destination_scope = "";
  requested_scope = "";
  delete_mode = "";
}

abbrev pub no_dto_evidence : DtoEvidence
no_dto_evidence = record {
  typ = "";
  evidence_id = "";
  issued_by = no_dto_principal;
  scope = no_dto_scope;
}

abbrev pub no_request : EvaluateActionRequest
no_request = record {
  api_version = "";
  request_id = "";
  proposed_action = record {
    typ = "";
    requested_at = record { instant = pos 0; location = "UTC" };
    actor = record { agent_id = ""; runtime_id = ""; session_id = "" };
    delegation = record { delegation_id = ""; delegator = no_dto_principal };
    target = record { resource_type = ""; resource_id = "" };
    parameters = none;
    payload = record { digest = ""; classification = []; size_bytes = none };
    authorization_evidence = [];
  };
}

-- `decodeStrict` of the parameters of an action.
abbrev pub decode_external_send : Option Json → Result DtoExternalSend
decode_external_send value =
    unmarshal_raw (into_struct set_dto_external_send)
      (record { destination_scope = ""; recipients = [] }) value

abbrev pub decode_update_resource_access : Option Json → Result DtoUpdateResourceAccess
decode_update_resource_access value =
    unmarshal_raw (into_struct set_dto_update_resource_access)
      (record { current_scope = ""; requested_scope = ""; target_principals = [] }) value

abbrev pub decode_delete : Option Json → Result DtoDelete
decode_delete value =
    unmarshal_raw (into_struct set_dto_delete) (record { delete_mode = ""; recoverable = false })
      value

-- the method `ValidateParameters`
unfoldable pub validate_dto_parameters : DtoAction → Result (Unit {0})
validate_dto_parameters action =
    if action.typ == action_external_send
    then discard (decode_external_send action.parameters)
    else if action.typ == action_update_resource_access
    then discard (decode_update_resource_access action.parameters)
    else if action.typ == action_delete
    then discard (decode_delete action.parameters)
    else err []

module _ ⦃t : JsonTimes⦄ where
  unfoldable pub into_time : Decode Time
  into_time json_null before = ok before
  into_time (json_string s) before = t.read_time s
  into_time _ before = err []

  unfoldable pub set_dto_action : String → Decode DtoAction
  unfolding into_time
  set_dto_action name v a =
      if names name "type"
      then (into_string v a.typ >>= λ x. ok (record a { typ = x }))
      else if names name "requestedAt"
      then (into_time v a.requested_at >>= λ x. ok (record a { requested_at = x }))
      else if names name "actor"
      then (into_struct set_dto_actor v a.actor >>= λ x. ok (record a { actor = x }))
      else if names name "delegation"
      then (into_struct set_dto_delegation v a.delegation >>= λ x. ok (record a { delegation = x }))
      else if names name "target"
      then (into_struct set_dto_target v a.target >>= λ x. ok (record a { target = x }))
      else if names name "parameters"
      then (into_raw v a.parameters >>= λ x. ok (record a { parameters = x }))
      else if names name "payload"
      then (into_struct set_dto_payload v a.payload >>= λ x. ok (record a { payload = x }))
      else if names name "authorizationEvidence"
      then (into_list (into_struct set_dto_evidence) no_dto_evidence v a.authorization_evidence
          >>= λ x. ok (record a { authorization_evidence = x }))
      else err []

  unfoldable pub set_request : String → Decode EvaluateActionRequest
  unfolding set_dto_action
  set_request name v r =
      if names name "apiVersion"
      then (into_string v r.api_version >>= λ x. ok (record r { api_version = x }))
      else if names name "requestId"
      then (into_string v r.request_id >>= λ x. ok (record r { request_id = x }))
      else if names name "proposedAction"
      then (into_struct set_dto_action v r.proposed_action >>= λ x.
          ok (record r { proposed_action = x }))
      else err []

  unfoldable pub decode_evaluate_action_request : String → Result EvaluateActionRequest
  unfolding set_request
  decode_evaluate_action_request body = do
    request ← unmarshal (into_struct set_request) no_request body
    refuse_if (not (request.api_version == api_version_v1)) []
    validate_dto_parameters request.proposed_action
    ok request
