-- ===== src/Domain/Evidence.antt =====
-- internal/domain/authorization_evidence.go.
pub mod Laws
use Prim.Native.Char.{nul}
use Prim.Native.String
use agent_action_control.Prelude.{
  String, Bool, true, false, not, ◌||◌, ◌&&◌, ltb, ◌==◌, List, [], ◌∷◌, Option, none, some, length,
  if◌then◌else◌,
}
use agent_action_control.Strings.{Unicode, to_upper, trim_space}
use agent_action_control.Containers.{lookup, put, sorted_values}
use agent_action_control.Errors.{
  Result, ok, err, ◌>>=◌, ◌>>◌, refuse_if, hide, succeeds, invalid_argument, invalid_action_type,
}
use agent_action_control.Domain.Identifier.{normalize_required_identifier}
use agent_action_control.Domain.Principal.{Principal, principal_valid}
use agent_action_control.Domain.Normalize.{zero_principal}
use agent_action_control.Domain.Action.{
  ActionType, action_external_send, action_update_resource_access, action_type_valid,
}
use agent_action_control.Domain.Parameters.{
  DestinationScope, AccessScope, DeleteMode, parse_destination_scope, parse_access_scope,
  parse_delete_mode,
}

abbrev pub AuthorizationEvidenceType : Type 0
AuthorizationEvidenceType = String

abbrev pub evidence_user_instruction : AuthorizationEvidenceType
evidence_user_instruction = "USER_INSTRUCTION"

abbrev pub evidence_delegation_grant : AuthorizationEvidenceType
evidence_delegation_grant = "DELEGATION_GRANT"

abbrev pub evidence_system_assertion : AuthorizationEvidenceType
evidence_system_assertion = "SYSTEM_ASSERTION"

pub record AuthorizationScope : Type 0 where
  pub action_type : ActionType
  pub destination_scope : DestinationScope
  pub requested_scope : AccessScope
  pub delete_mode : DeleteMode

pub record AuthorizationEvidence : Type 0 where
  pub typ : AuthorizationEvidenceType
  pub id : String
  pub issued_by : Principal
  pub scope : AuthorizationScope

-- `string(evidence.Type()) + "\x00" + evidence.ID()`
unfoldable pub evidence_key : AuthorizationEvidence → String
evidence_key evidence = String.◌++◌ evidence.typ (String.◌∷◌ nul evidence.id)

unfoldable pub principal_eq : Principal → Principal → Bool
principal_eq a b = a.typ == b.typ && a.id == b.id

unfoldable pub scope_eq : AuthorizationScope → AuthorizationScope → Bool
scope_eq a b =
    a.action_type == b.action_type
    && a.destination_scope == b.destination_scope
    && a.requested_scope == b.requested_scope
    && a.delete_mode == b.delete_mode

-- Go's `==` on structs: field by field.
unfoldable pub evidence_eq : AuthorizationEvidence → AuthorizationEvidence → Bool
evidence_eq a b =
    a.typ == b.typ
    && a.id == b.id
    && principal_eq a.issued_by b.issued_by
    && scope_eq a.scope b.scope

-- `existing, ok := unique[key]; ok && existing != evidence`
unfoldable pub conflicts : Option AuthorizationEvidence → AuthorizationEvidence → Bool
conflicts none evidence = false
conflicts (some existing) evidence = not (evidence_eq existing evidence)

abbrev pub zero_evidence : AuthorizationEvidence
zero_evidence = record {
  typ = "";
  id = "";
  issued_by = zero_principal;
  scope = record {
    action_type = "";
    destination_scope = "";
    requested_scope = "";
    delete_mode = "";
  };
}

module _ ⦃u : Unicode⦄ where
  unfoldable pub parse_authorization_evidence_type : String → Result AuthorizationEvidenceType
  parse_authorization_evidence_type value =
      let typ = to_upper (trim_space value) in
      if typ == evidence_user_instruction
        || typ == evidence_delegation_grant
        || typ == evidence_system_assertion
      then ok typ
      else err (invalid_argument ∷ [])

  -- The switch: the scope of the action type's own dimension, and the zero value for the others.
  unfoldable pub new_authorization_scope :
      ActionType → DestinationScope → AccessScope → DeleteMode → Result AuthorizationScope
  new_authorization_scope action_type destination_scope requested_scope delete_mode = do
    refuse_if (not (action_type_valid action_type)) (invalid_action_type ∷ [])
    if action_type == action_external_send
        then (do
          normalized ← hide invalid_argument (parse_destination_scope destination_scope)
          ok (record {
            action_type = action_type;
            destination_scope = normalized;
            requested_scope = "";
            delete_mode = "";
          }))
        else if action_type == action_update_resource_access
        then (do
          normalized ← hide invalid_argument (parse_access_scope requested_scope)
          ok (record {
            action_type = action_type;
            destination_scope = "";
            requested_scope = normalized;
            delete_mode = "";
          }))
        else do
          normalized ← hide invalid_argument (parse_delete_mode delete_mode)
          ok (record {
            action_type = action_type;
            destination_scope = "";
            requested_scope = "";
            delete_mode = normalized;
          })

  unfoldable pub scope_valid : AuthorizationScope → Bool
  scope_valid scope = succeeds (
      new_authorization_scope scope.action_type scope.destination_scope scope.requested_scope
        scope.delete_mode)

  unfoldable pub new_authorization_evidence :
      AuthorizationEvidenceType
      → String
      → Principal
      → AuthorizationScope
      → Result AuthorizationEvidence
  new_authorization_evidence typ id issued_by scope = do
    normalized_type ← parse_authorization_evidence_type typ
    id ← normalize_required_identifier id
    refuse_if (not (principal_valid issued_by) || not (scope_valid scope)) (invalid_argument ∷ [])
    ok (record { typ = normalized_type; id = id; issued_by = issued_by; scope = scope })

  unfoldable pub evidence_valid : AuthorizationEvidence → Bool
  evidence_valid evidence =
      succeeds
        (new_authorization_evidence evidence.typ evidence.id evidence.issued_by evidence.scope)

  -- The loop that fills `unique`.
  unfoldable pub collect_evidence :
      List AuthorizationEvidence
      → List (String × AuthorizationEvidence)
      → Result (List (String × AuthorizationEvidence))
  collect_evidence [] unique = ok unique
  collect_evidence (evidence ∷ values) unique =
      let key = evidence_key evidence in
      let rest = collect_evidence values (put key evidence unique) in
      if not (evidence_valid evidence)
      then err (invalid_argument ∷ [])
      else if conflicts (lookup key unique) evidence
      then err (invalid_argument ∷ [])
      else rest

  unfoldable pub normalize_authorization_evidence :
      List AuthorizationEvidence → Result (List AuthorizationEvidence)
  normalize_authorization_evidence values = do
    refuse_if (ltb 100 (length values)) (invalid_argument ∷ [])
    unique ← collect_evidence values []
    ok (sorted_values zero_evidence unique)
