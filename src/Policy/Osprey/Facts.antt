-- ===== src/Policy/Osprey/Facts.antt =====
-- internal/policy/osprey/action_json.go: the facts of an action as the coordinator gets them, by the
-- field tags. `Classification` is nil where it is empty, and then it is `null`; a time outside of
-- the years that `time.Time.MarshalJSON` writes is an error of `json.Marshal`.
use agent_action_control.Domain.CanonicalValue.{omit_empty}
use agent_action_control.Json.Numbers.{number_text}
use agent_action_control.Json.Print.{marshal_json}
use agent_action_control.Domain.ProposedAction.{ProposedAction}
use agent_action_control.Domain.Payload.{PayloadFacts}
use agent_action_control.Prelude.{◌∷◌, ℤ, some, none, map, [], String, Option}
use agent_action_control.Domain.Principal.{Target, Principal, Delegation}
use agent_action_control.Domain.Evidence.{AuthorizationScope, AuthorizationEvidence}
use agent_action_control.Domain.Action.{Actor}
use agent_action_control.Domain.Parameters.{
  delete, update_resource_access, external_send, ActionParameters,
}
use agent_action_control.Errors.{◌>>=◌, ok, err, Result}
use agent_action_control.Json.{
  Json, json_object, members, member, json_string, Members, no_members, json_number, json_bool,
  json_array, items,
}
use agent_action_control.Storage.Encode.{json_slice}
use agent_action_control.Time.{Time}

-- The text between the quotes that `time.Time.MarshalJSON` writes.
pub record WrittenTimes : Type 0 where
  pub write_time : Time → Result String

abbrev pub action_facts_version : String
action_facts_version = "agent-action-control.osprey/v1"

unfoldable pub principal_facts : Principal → Json
principal_facts p =
    json_object (members (("type", json_string p.typ) ∷ ("id", json_string p.id) ∷ []))

unfoldable pub actor_facts : Actor → Json
actor_facts a = json_object (
    member "agentId" (json_string a.agent_id) (
      member "runtimeId" (json_string a.runtime_id)
        (omit_empty "sessionId" a.session_id no_members)))

unfoldable pub delegation_facts : Delegation → Json
delegation_facts d =
    json_object (
      members
        (("delegationId", json_string d.id) ∷ ("delegator", principal_facts d.delegator) ∷ []))

unfoldable pub target_facts : Target → Json
target_facts t = json_object (
    members (
      ("resourceType", json_string t.resource_type)
      ∷ ("resourceId", json_string t.resource_id)
      ∷ []))

abbrev pub omit_nil : String → Option ℤ → Members → Members
omit_nil name none rest = rest
omit_nil name (some n) rest = member name (json_number (number_text n)) rest

unfoldable pub payload_facts : PayloadFacts → Json
payload_facts p = json_object (
    member "digest" (json_string p.digest) (
      member "classification" (json_slice p.classification)
        (omit_nil "sizeBytes" p.size_bytes no_members)))

unfoldable pub scope_facts : AuthorizationScope → Json
scope_facts s = json_object (
    member "actionType" (json_string s.action_type) (
      omit_empty "destinationScope" s.destination_scope (
        omit_empty "requestedScope" s.requested_scope
          (omit_empty "deleteMode" s.delete_mode no_members))))

unfoldable pub evidence_facts : AuthorizationEvidence → Json
evidence_facts e = json_object (
    members (
      ("type", json_string e.typ)
      ∷ ("evidenceId", json_string e.id)
      ∷ ("issuedBy", principal_facts e.issued_by)
      ∷ ("scope", scope_facts e.scope)
      ∷ []))

-- An argument `none` is a nil interface.
unfoldable pub marshal_parameters : Option ActionParameters → Result Json
marshal_parameters none = err []
marshal_parameters (some (external_send p)) = ok (
    json_object (
      members (
        ("destinationScope", json_string p.destination_scope)
        ∷ ("recipients", json_slice p.recipients)
        ∷ [])))
marshal_parameters (some (update_resource_access p)) = ok (
    json_object (
      members (
        ("currentScope", json_string p.current_scope)
        ∷ ("requestedScope", json_string p.requested_scope)
        ∷ ("targetPrincipals", json_array (items (map principal_facts p.target_principals)))
        ∷ [])))
marshal_parameters (some (delete p)) = ok (
    json_object (
      members (("deleteMode", json_string p.mode) ∷ ("recoverable", json_bool p.recoverable) ∷ [])))

-- The facts of an action with the text of its time and the JSON of its parameters.
unfoldable pub action_facts : ProposedAction → String → Json → Json
action_facts a requested_at parameters = json_object (
    members (
      ("apiVersion", json_string action_facts_version)
      ∷ ("type", json_string a.typ)
      ∷ ("requestedAt", json_string requested_at)
      ∷ ("actor", actor_facts a.actor)
      ∷ ("delegation", delegation_facts a.delegation)
      ∷ ("target", target_facts a.target)
      ∷ ("parameters", parameters)
      ∷ ("payload", payload_facts a.payload)
      ∷ ("authorizationEvidence", json_array (items (map evidence_facts a.evidence)))
      ∷ []))

unfoldable pub marshal_action : ⦃t : WrittenTimes⦄ → ProposedAction → Result String
marshal_action ⦃t⦄ action = do
  parameters ← marshal_parameters action.parameters
  requested_at ← t.write_time action.requested_at
  ok (marshal_json (action_facts action requested_at parameters))
