-- ===== src/Storage/Unmarshal.antt =====
-- What `json.Unmarshal` does with the structs of internal/storage/sqlite/serialization.go, by their
-- field tags.
pub mod Canonical
use agent_action_control.Storage.Persisted.{
  no_principal, no_evidence, PersistedUpdateResourceAccessParameters, PersistedTarget,
  PersistedPrincipal, PersistedPayload, PersistedExternalSendParameters, PersistedDeleteParameters,
  PersistedDelegation, PersistedAuthorizationScope, PersistedAuthorizationEvidence, PersistedActor,
  PersistedAction,
}
use agent_action_control.Prelude.{if◌then◌else◌, String, List}
use agent_action_control.Errors.{◌>>=◌, ok}
use agent_action_control.Json.Unmarshal.{
  names, into_string, into_struct, into_list, into_raw, into_bool, into_int_pointer, Decode,
}

unfoldable pub set_actor : String → Decode PersistedActor
set_actor name v a =
    if names name "agentId"
    then (into_string v a.agent_id >>= λ x. ok (record a { agent_id = x }))
    else if names name "runtimeId"
    then (into_string v a.runtime_id >>= λ x. ok (record a { runtime_id = x }))
    else if names name "sessionId"
    then (into_string v a.session_id >>= λ x. ok (record a { session_id = x }))
    else ok a

unfoldable pub set_principal : String → Decode PersistedPrincipal
set_principal name v p =
    if names name "type"
    then (into_string v p.typ >>= λ x. ok (record p { typ = x }))
    else if names name "id"
    then (into_string v p.id >>= λ x. ok (record p { id = x }))
    else ok p

unfoldable pub into_principal : Decode PersistedPrincipal
into_principal v p = into_struct set_principal v p

unfoldable pub set_delegation : String → Decode PersistedDelegation
set_delegation name v d =
    if names name "id"
    then (into_string v d.id >>= λ x. ok (record d { id = x }))
    else if names name "delegator"
    then (into_principal v d.delegator >>= λ x. ok (record d { delegator = x }))
    else ok d

unfoldable pub set_target : String → Decode PersistedTarget
set_target name v t =
    if names name "resourceType"
    then (into_string v t.resource_type >>= λ x. ok (record t { resource_type = x }))
    else if names name "resourceId"
    then (into_string v t.resource_id >>= λ x. ok (record t { resource_id = x }))
    else ok t

unfoldable pub into_strings : Decode (List String)
into_strings v before = into_list into_string "" v before

unfoldable pub set_payload : String → Decode PersistedPayload
set_payload name v p =
    if names name "digest"
    then (into_string v p.digest >>= λ x. ok (record p { digest = x }))
    else if names name "classification"
    then (into_strings v p.classification >>= λ x. ok (record p { classification = x }))
    else if names name "sizeBytes"
    then (into_int_pointer v p.size_bytes >>= λ x. ok (record p { size_bytes = x }))
    else ok p

unfoldable pub set_scope : String → Decode PersistedAuthorizationScope
set_scope name v s =
    if names name "actionType"
    then (into_string v s.action_type >>= λ x. ok (record s { action_type = x }))
    else if names name "destinationScope"
    then (into_string v s.destination_scope >>= λ x. ok (record s { destination_scope = x }))
    else if names name "requestedScope"
    then (into_string v s.requested_scope >>= λ x. ok (record s { requested_scope = x }))
    else if names name "deleteMode"
    then (into_string v s.delete_mode >>= λ x. ok (record s { delete_mode = x }))
    else ok s

unfoldable pub into_scope : Decode PersistedAuthorizationScope
into_scope v s = into_struct set_scope v s

unfoldable pub set_evidence : String → Decode PersistedAuthorizationEvidence
set_evidence name v e =
    if names name "type"
    then (into_string v e.typ >>= λ x. ok (record e { typ = x }))
    else if names name "evidenceId"
    then (into_string v e.evidence_id >>= λ x. ok (record e { evidence_id = x }))
    else if names name "issuedBy"
    then (into_principal v e.issued_by >>= λ x. ok (record e { issued_by = x }))
    else if names name "scope"
    then (into_scope v e.scope >>= λ x. ok (record e { scope = x }))
    else ok e

unfoldable pub into_evidence : Decode PersistedAuthorizationEvidence
into_evidence v e = into_struct set_evidence v e

unfoldable pub set_external_send : String → Decode PersistedExternalSendParameters
set_external_send name v p =
    if names name "destinationScope"
    then (into_string v p.destination_scope >>= λ x. ok (record p { destination_scope = x }))
    else if names name "recipients"
    then (into_strings v p.recipients >>= λ x. ok (record p { recipients = x }))
    else ok p

unfoldable pub set_update_resource_access : String → Decode PersistedUpdateResourceAccessParameters
set_update_resource_access name v p =
    if names name "currentScope"
    then (into_string v p.current_scope >>= λ x. ok (record p { current_scope = x }))
    else if names name "requestedScope"
    then (into_string v p.requested_scope >>= λ x. ok (record p { requested_scope = x }))
    else if names name "targetPrincipals"
    then (into_list into_principal no_principal v p.target_principals >>= λ x.
        ok (record p { target_principals = x }))
    else ok p

unfoldable pub set_delete : String → Decode PersistedDeleteParameters
set_delete name v p =
    if names name "deleteMode"
    then (into_string v p.delete_mode >>= λ x. ok (record p { delete_mode = x }))
    else if names name "recoverable"
    then (into_bool v p.recoverable >>= λ x. ok (record p { recoverable = x }))
    else ok p

unfoldable pub set_action : String → Decode PersistedAction
set_action name v a =
    if names name "schema"
    then (into_string v a.schema >>= λ x. ok (record a { schema = x }))
    else if names name "type"
    then (into_string v a.typ >>= λ x. ok (record a { typ = x }))
    else if names name "requestedAt"
    then (into_string v a.requested_at >>= λ x. ok (record a { requested_at = x }))
    else if names name "actor"
    then (into_struct set_actor v a.actor >>= λ x. ok (record a { actor = x }))
    else if names name "delegation"
    then (into_struct set_delegation v a.delegation >>= λ x. ok (record a { delegation = x }))
    else if names name "target"
    then (into_struct set_target v a.target >>= λ x. ok (record a { target = x }))
    else if names name "parameters"
    then (into_raw v a.parameters >>= λ x. ok (record a { parameters = x }))
    else if names name "payload"
    then (into_struct set_payload v a.payload >>= λ x. ok (record a { payload = x }))
    else if names name "authorizationEvidence"
    then (into_list into_evidence no_evidence v a.authorization_evidence >>= λ x.
        ok (record a { authorization_evidence = x }))
    else ok a

unfoldable pub into_action : Decode PersistedAction
into_action v a = into_struct set_action v a
