-- ===== src/Domain/CanonicalValue.antt =====
-- The structs of internal/domain/action_digest.go, and their JSON by the field tags.
pub mod Numbers
use agent_action_control.Json.Numbers.{number_text}
use agent_action_control.Json.Print.{marshal_json}
use agent_action_control.Json.{
  json_object, no_members, members, member, json_string, json_number, json_null, json_bool,
  json_array, items, Members, Json,
}
use agent_action_control.Domain.Principal.{PrincipalType}
use agent_action_control.Domain.Evidence.{AuthorizationEvidenceType}
use agent_action_control.Domain.Action.{ActionType}
use agent_action_control.Domain.Parameters.{DestinationScope, DeleteMode, AccessScope}
use agent_action_control.Prelude.{
  some, none, ◌∷◌, ℤ, map, if◌then◌else◌, [], String, Option, List, Bool, ◌==◌,
}

pub record CanonicalActor : Type 0 where
  pub agent_id : String
  pub runtime_id : String
  pub session_id : String

pub record CanonicalPrincipal : Type 0 where
  pub typ : PrincipalType
  pub id : String

pub record CanonicalDelegation : Type 0 where
  pub id : String
  pub delegator : CanonicalPrincipal

pub record CanonicalTarget : Type 0 where
  pub resource_type : String
  pub resource_id : String

pub record CanonicalExternalSendParameters : Type 0 where
  pub destination_scope : DestinationScope
  pub recipients : List String

pub record CanonicalUpdateResourceAccessParameters : Type 0 where
  pub current_scope : AccessScope
  pub requested_scope : AccessScope
  pub target_principals : List CanonicalPrincipal

pub record CanonicalDeleteParameters : Type 0 where
  pub delete_mode : DeleteMode
  pub recoverable : Bool

-- The values that the field of type `any` takes.
pub data CanonicalParameters : Type 0 where
  canonical_external_send : CanonicalExternalSendParameters → CanonicalParameters
  canonical_update_resource_access : CanonicalUpdateResourceAccessParameters → CanonicalParameters
  canonical_delete : CanonicalDeleteParameters → CanonicalParameters

pub record CanonicalPayload : Type 0 where
  pub digest : String
  pub classification : List String
  pub size_bytes : Option ℤ

pub record CanonicalAuthorizationScope : Type 0 where
  pub action_type : ActionType
  pub destination_scope : DestinationScope
  pub requested_scope : AccessScope
  pub delete_mode : DeleteMode

pub record CanonicalAuthorizationEvidence : Type 0 where
  pub typ : AuthorizationEvidenceType
  pub evidence_id : String
  pub issued_by : CanonicalPrincipal
  pub scope : CanonicalAuthorizationScope

pub record CanonicalAction : Type 0 where
  pub schema : String
  pub typ : ActionType
  pub requested_at : String
  pub actor : CanonicalActor
  pub delegation : CanonicalDelegation
  pub target : CanonicalTarget
  pub parameters : CanonicalParameters
  pub payload : CanonicalPayload
  pub authorization_evidence : List CanonicalAuthorizationEvidence

-- A member with `omitempty` stands only where its text is not empty.
abbrev pub omit_empty : String → String → Members → Members
omit_empty name value rest = if value == "" then rest else member name (json_string value) rest

abbrev pub json_strings : List String → Json
json_strings values = json_array (items (map json_string values))

abbrev pub json_nullable : Option ℤ → Json
json_nullable none = json_null
json_nullable (some n) = json_number (number_text n)

unfoldable pub principal_json : CanonicalPrincipal → Json
principal_json p =
    json_object (members (("type", json_string p.typ) ∷ ("id", json_string p.id) ∷ []))

unfoldable pub scope_json : CanonicalAuthorizationScope → Json
scope_json s = json_object (
    member "actionType" (json_string s.action_type) (
      omit_empty "destinationScope" s.destination_scope (
        omit_empty "requestedScope" s.requested_scope
          (omit_empty "deleteMode" s.delete_mode no_members))))

unfoldable pub evidence_json : CanonicalAuthorizationEvidence → Json
evidence_json e = json_object (
    members (
      ("type", json_string e.typ)
      ∷ ("evidenceId", json_string e.evidence_id)
      ∷ ("issuedBy", principal_json e.issued_by)
      ∷ ("scope", scope_json e.scope)
      ∷ []))

unfoldable pub parameters_json : CanonicalParameters → Json
parameters_json (canonical_external_send p) = json_object (
    members (
      ("destinationScope", json_string p.destination_scope)
      ∷ ("recipients", json_strings p.recipients)
      ∷ []))
parameters_json (canonical_update_resource_access p) = json_object (
    members (
      ("currentScope", json_string p.current_scope)
      ∷ ("requestedScope", json_string p.requested_scope)
      ∷ ("targetPrincipals", json_array (items (map principal_json p.target_principals)))
      ∷ []))
parameters_json (canonical_delete p) = json_object (
    members
      (("deleteMode", json_string p.delete_mode) ∷ ("recoverable", json_bool p.recoverable) ∷ []))

unfoldable pub payload_json : CanonicalPayload → Json
payload_json p = json_object (
    members (
      ("digest", json_string p.digest)
      ∷ ("classification", json_strings p.classification)
      ∷ ("sizeBytes", json_nullable p.size_bytes)
      ∷ []))

unfoldable pub actor_json : CanonicalActor → Json
actor_json a = json_object (
    members (
      ("agentId", json_string a.agent_id)
      ∷ ("runtimeId", json_string a.runtime_id)
      ∷ ("sessionId", json_string a.session_id)
      ∷ []))

unfoldable pub delegation_json : CanonicalDelegation → Json
delegation_json d =
    json_object
      (members (("id", json_string d.id) ∷ ("delegator", principal_json d.delegator) ∷ []))

unfoldable pub target_json : CanonicalTarget → Json
target_json t = json_object (
    members (
      ("resourceType", json_string t.resource_type)
      ∷ ("resourceId", json_string t.resource_id)
      ∷ []))

unfoldable pub action_json : CanonicalAction → Json
action_json a = json_object (
    members (
      ("schema", json_string a.schema)
      ∷ ("type", json_string a.typ)
      ∷ ("requestedAt", json_string a.requested_at)
      ∷ ("actor", actor_json a.actor)
      ∷ ("delegation", delegation_json a.delegation)
      ∷ ("target", target_json a.target)
      ∷ ("parameters", parameters_json a.parameters)
      ∷ ("payload", payload_json a.payload)
      ∷ ("authorizationEvidence", json_array (items (map evidence_json a.authorization_evidence)))
      ∷ []))

unfoldable pub marshal : CanonicalAction → String
marshal a = marshal_json (action_json a)
