-- ===== src/Storage/Persisted.antt =====
-- The structs of internal/storage/sqlite/serialization.go, and their zero values.
use agent_action_control.Json.{Json}
use agent_action_control.Prelude.{ℤ, none, [], String, Option, List, Bool}
use agent_action_control.Domain.Principal.{PrincipalType}
use agent_action_control.Domain.Evidence.{AuthorizationEvidenceType}
use agent_action_control.Domain.Action.{ActionType}
use agent_action_control.Domain.Parameters.{DestinationScope, DeleteMode, AccessScope}
use agent_action_control.Domain.Effect.{SafetyReviewPriority}

pub record PersistedActor : Type 0 where
  pub agent_id : String
  pub runtime_id : String
  pub session_id : String

pub record PersistedPrincipal : Type 0 where
  pub typ : PrincipalType
  pub id : String

pub record PersistedDelegation : Type 0 where
  pub id : String
  pub delegator : PersistedPrincipal

pub record PersistedTarget : Type 0 where
  pub resource_type : String
  pub resource_id : String

pub record PersistedPayload : Type 0 where
  pub digest : String
  pub classification : List String
  pub size_bytes : Option ℤ

pub record PersistedAuthorizationScope : Type 0 where
  pub action_type : ActionType
  pub destination_scope : DestinationScope
  pub requested_scope : AccessScope
  pub delete_mode : DeleteMode

pub record PersistedAuthorizationEvidence : Type 0 where
  pub typ : AuthorizationEvidenceType
  pub evidence_id : String
  pub issued_by : PersistedPrincipal
  pub scope : PersistedAuthorizationScope

pub record PersistedExternalSendParameters : Type 0 where
  pub destination_scope : DestinationScope
  pub recipients : List String

pub record PersistedUpdateResourceAccessParameters : Type 0 where
  pub current_scope : AccessScope
  pub requested_scope : AccessScope
  pub target_principals : List PersistedPrincipal

pub record PersistedDeleteParameters : Type 0 where
  pub delete_mode : DeleteMode
  pub recoverable : Bool

pub record PersistedSafetyReviewContext : Type 0 where
  pub priority : SafetyReviewPriority
  pub evidence_refs : List String

-- `parameters` is kept as it is read.
pub record PersistedAction : Type 0 where
  pub schema : String
  pub typ : ActionType
  pub requested_at : String
  pub actor : PersistedActor
  pub delegation : PersistedDelegation
  pub target : PersistedTarget
  pub parameters : Option Json
  pub payload : PersistedPayload
  pub authorization_evidence : List PersistedAuthorizationEvidence

abbrev pub no_actor : PersistedActor
no_actor = record { agent_id = ""; runtime_id = ""; session_id = "" }

abbrev pub no_principal : PersistedPrincipal
no_principal = record { typ = ""; id = "" }

abbrev pub no_scope : PersistedAuthorizationScope
no_scope = record {
  action_type = "";
  destination_scope = "";
  requested_scope = "";
  delete_mode = "";
}

abbrev pub no_evidence : PersistedAuthorizationEvidence
no_evidence = record { typ = ""; evidence_id = ""; issued_by = no_principal; scope = no_scope }

abbrev pub no_action : PersistedAction
no_action = record {
  schema = "";
  typ = "";
  requested_at = "";
  actor = no_actor;
  delegation = record { id = ""; delegator = no_principal };
  target = record { resource_type = ""; resource_id = "" };
  parameters = none;
  payload = record { digest = ""; classification = []; size_bytes = none };
  authorization_evidence = [];
}
