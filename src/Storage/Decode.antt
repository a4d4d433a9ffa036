-- ===== src/Storage/Decode.antt =====
-- internal/storage/sqlite/serialization.go: values from what is stored. `time.Parse` and
-- `time.Time.Format` with `time.RFC3339Nano` are parameters.
pub mod RoundTrip
pub mod Decisions
use agent_action_control.Domain.Payload.{new_payload_facts}
use agent_action_control.Storage.Unmarshal.{
  set_update_resource_access, set_external_send, set_delete, into_strings, into_action,
}
use agent_action_control.Strings.{Unicode}
use agent_action_control.Time.{Time}
use agent_action_control.Domain.ProposedAction.{new_proposed_action, ProposedAction}
use agent_action_control.Domain.Principal.{
  parse_principal_type, new_target, new_principal, new_delegation, Principal,
}
use agent_action_control.Storage.Persisted.{
  no_action, PersistedPrincipal, PersistedAuthorizationEvidence, PersistedAction,
}
use agent_action_control.Domain.Decision.{
  required_action_require_approval, parse_required_action_type, parse_reason_code,
  parse_decision_type, new_require_approval_action, new_deny_decision, new_allow_decision,
  decision_allow, RequiredAction, Decision,
}
use agent_action_control.Domain.Evidence.{
  parse_authorization_evidence_type, new_authorization_scope, new_authorization_evidence,
  AuthorizationEvidence,
}
use agent_action_control.Domain.Action.{
  parse_payload_digest, new_actor, action_update_resource_access, action_external_send,
  action_delete, ActionType,
}
use agent_action_control.Domain.Parameters.{
  delete, update_resource_access, new_update_resource_access_parameters,
  new_external_send_parameters, new_delete_parameters, external_send, ActionParameters,
}
use agent_action_control.Prelude.{
  ◌≡◌, ◌∷◌, ℤ, ◌||◌, true, some, pos, not, negsuc, ltb, length, false, eqb, if◌then◌else◌, [],
  String, Option, List, Bool, ◌==◌,
}
use agent_action_control.Errors.{◌>>=◌, ◌>>◌, ok, err, Result, refuse_if, traverse}
use agent_action_control.Json.Unmarshal.{unmarshal, unmarshal_raw, into_struct}
use agent_action_control.Json.{Json}
use agent_action_control.Domain.Canonical.{canonical_action_schema_v1, Digests}

pub record Times : Type 0 where
  -- `time.Parse(time.RFC3339Nano, value)`
  pub parse_nano : String → Result Time
  -- `t.UTC().Format(time.RFC3339Nano)`, of an instant
  pub format_nano : ℤ → String

-- The years 0 to 9999 in UTC, in nanoseconds from the beginning of the year 1.
abbrev pub in_years : ℤ → Bool
in_years (pos n) = ltb n 315537897600000000000
in_years (negsuc n) = ltb n 31622400000000000

-- What package `time` documents: in these years what has been formatted is parsed to the same
-- instant, in UTC, and the fractional seconds of the canonical format are accepted.
pub record ReadsTimes (d : Digests) (t : Times) : Type 0 where
  pub reads_nano :
      (n : ℤ)
      → in_years n ≡ true
      → t.parse_nano (t.format_nano n) ≡ ok (record { instant = n; location = "UTC" })
  pub reads_canonical :
      (n : ℤ)
      → in_years n ≡ true
      → t.parse_nano (d.format_instant n) ≡ ok (record { instant = n; location = "UTC" })

unfoldable pub decode_principal : PersistedPrincipal → Result Principal
decode_principal value = do typ ← parse_principal_type value.typ; new_principal typ value.id

-- The loop over the required actions.
unfoldable pub approval_actions : List String → Result (List RequiredAction)
approval_actions [] = ok []
approval_actions (value ∷ values) = do
  typ ← parse_required_action_type value
  required_actions ← approval_actions values
  ok (
      if typ == required_action_require_approval
      then new_require_approval_action ∷ required_actions
      else required_actions)

unfoldable pub decode_decision : String → String → String → Result Decision
decode_decision typ reasons_json required_actions_json = do
  decision_type ← parse_decision_type typ
  reason_values ← unmarshal into_strings [] reasons_json
  reasons ← traverse parse_reason_code reason_values
  required_action_values ← unmarshal into_strings [] required_actions_json
  required_actions ← approval_actions required_action_values
  if decision_type == decision_allow
      then (if not (eqb (length reasons) 0) || not (eqb (length required_actions) 0)
          then err []
          else ok new_allow_decision)
      else new_deny_decision reasons required_actions

module _ ⦃u : Unicode⦄ where
  unfoldable pub decode_parameters : ActionType → Option Json → Result ActionParameters
  decode_parameters typ value =
      if typ == action_external_send
      then (do
        stored ←
            unmarshal_raw (into_struct set_external_send)
              (record { destination_scope = ""; recipients = [] }) value
        p ← new_external_send_parameters stored.destination_scope stored.recipients
        ok (external_send p))
      else if typ == action_update_resource_access
      then (do
        stored ←
            unmarshal_raw (into_struct set_update_resource_access)
              (record { current_scope = ""; requested_scope = ""; target_principals = [] }) value
        principals ← traverse decode_principal stored.target_principals
        p ←
            new_update_resource_access_parameters stored.current_scope stored.requested_scope
              principals
        ok (update_resource_access p))
      else if typ == action_delete
      then (do
        stored ←
            unmarshal_raw (into_struct set_delete)
              (record { delete_mode = ""; recoverable = false }) value
        p ← new_delete_parameters stored.delete_mode stored.recoverable
        ok (delete p))
      else err []

  -- One round of the loop over the evidence.
  unfoldable pub decode_evidence : PersistedAuthorizationEvidence → Result AuthorizationEvidence
  decode_evidence stored = do
    issuer ← decode_principal stored.issued_by
    scope ←
        new_authorization_scope stored.scope.action_type stored.scope.destination_scope
          stored.scope.requested_scope stored.scope.delete_mode
    evidence_type ← parse_authorization_evidence_type stored.typ
    new_authorization_evidence evidence_type stored.evidence_id issuer scope

  module _ ⦃t : Times⦄ where
    -- `decodeAction` behind `json.Unmarshal`.
    unfoldable pub restore_action : PersistedAction → Result ProposedAction
    restore_action stored = do
      refuse_if (not (stored.schema == canonical_action_schema_v1)) []
      requested_at ← t.parse_nano stored.requested_at
      actor ← new_actor stored.actor.agent_id stored.actor.runtime_id stored.actor.session_id
      delegator ← decode_principal stored.delegation.delegator
      delegation ← new_delegation stored.delegation.id delegator
      target ← new_target stored.target.resource_type stored.target.resource_id
      parameters ← decode_parameters stored.typ stored.parameters
      payload_digest ← parse_payload_digest stored.payload.digest
      payload ←
          new_payload_facts payload_digest stored.payload.classification stored.payload.size_bytes
      evidence ← traverse decode_evidence stored.authorization_evidence
      new_proposed_action stored.typ requested_at actor delegation target (some parameters) payload
          evidence

    unfoldable pub decode_action : String → Result ProposedAction
    unfolding restore_action
    decode_action value = do stored ← unmarshal into_action no_action value; restore_action stored
