-- ===== src/Application/Normalizer/Laws.antt =====
-- What the normaliser guarantees of its actions, and which errors it returns.
use agent_action_control.Domain.Evidence.Laws.{
  normalize_authorization_evidence-IsEvidenceList, new_authorization_evidence-IsEvidence,
  IsEvidenceList, IsEvidence, new_authorization_scope-IsScope, IsScope,
}
use agent_action_control.Domain.Principal.Laws.{new_principal-IsPrincipal, IsPrincipal}
use agent_action_control.Domain.Evidence.{
  parse_authorization_evidence_type, AuthorizationEvidence, AuthorizationScope,
}
use agent_action_control.Domain.Principal.{Principal}
use agent_action_control.Domain.Parameters.Laws.{
  new_update_resource_access_parameters-IsUpdateResourceAccess, new_delete_parameters-IsDelete,
  new_external_send_parameters-IsExternalSend, IsParameters,
}
use agent_action_control.Errors.{text_of, traverse, traverse-All, Result-cases, ok}
use agent_action_control.Prelude.{refl, none, List, Option, inr, arith, some, inl, String, ◌≡◌}
use agent_action_control.Domain.Parameters.{
  update_resource_access, parse_delete_mode, parse_access_scope, delete, parse_destination_scope,
  external_send, ActionParameters, parameters_type,
}
use agent_action_control.Application.Normalizer.{
  normalize_evidence_item, normalize_evidence, AuthorizationEvidenceInput,
  normalize_authorization_scope, PrincipalInput, AuthorizationScopeInput, normalize_principal,
  normalize_parameters, delete_input, update_resource_access_input, external_send_input,
  ActionParametersInput, input_type, build_parameters,
}
use agent_action_control.Strings.{Unicode}

module _ ⦃u : Unicode⦄ where
  pub normalize_principal-IsPrincipal :
      (input : PrincipalInput) (p : Principal) → normalize_principal input ≡ ok p → IsPrincipal p
  unfolding normalize_principal
  normalize_principal-IsPrincipal input p h = (new_principal-IsPrincipal input.typ input.id p h).0

  build_parameters-IsParameters :
      (input : ActionParametersInput) (p : ActionParameters)
      → build_parameters input ≡ ok p
      → IsParameters p × (parameters_type p ≡ input_type input)
  unfolding build_parameters parameters_type input_type
  build_parameters-IsParameters (external_send_input scope recipients) (external_send p) h =
      elim (Result-cases (parse_destination_scope scope)) [
        | inl (s, run) ↦
            (new_external_send_parameters-IsExternalSend s recipients p (ground arith), refl)
        | inr (e, run) ↦ absurd (ground arith)
      ]
  build_parameters-IsParameters (update_resource_access_input c r targets)
        (update_resource_access p) h =
      elim (Result-cases (parse_access_scope c)) [
        | inr (e, run) ↦ absurd (ground arith)
        | inl (current, run) ↦ elim (Result-cases (parse_access_scope r)) [
          | inr (e, run') ↦ absurd (ground arith)
          | inl (requested, run') ↦ elim (Result-cases (traverse normalize_principal targets)) [
            | inr (e, run'') ↦ absurd (ground arith)
            | inl (ps, run'') ↦ (
              new_update_resource_access_parameters-IsUpdateResourceAccess current requested ps p
                  (traverse-All normalize_principal IsPrincipal normalize_principal-IsPrincipal
                    targets ps run'')
                  (ground arith),
              refl,
            )
          ]
        ]
      ]
  build_parameters-IsParameters (delete_input mode recoverable) (delete p) h =
      elim (Result-cases (parse_delete_mode mode)) [
        | inl (m, run) ↦ (new_delete_parameters-IsDelete m recoverable p (ground arith), refl)
        | inr (e, run) ↦ absurd (ground arith)
      ]
  build_parameters-IsParameters (external_send_input _ _) (update_resource_access _) h =
      ground arith
  build_parameters-IsParameters (external_send_input _ _) (delete _) h = ground arith
  build_parameters-IsParameters (update_resource_access_input _ _ _) (external_send _) h =
      ground arith
  build_parameters-IsParameters (update_resource_access_input _ _ _) (delete _) h = ground arith
  build_parameters-IsParameters (delete_input _ _) (external_send _) h = ground arith
  build_parameters-IsParameters (delete_input _ _) (update_resource_access _) h = ground arith

  pub normalize_parameters-IsParameters :
      (typ : String) (input : Option ActionParametersInput) (p : ActionParameters)
      → normalize_parameters typ input ≡ ok p
      → IsParameters p
  unfolding normalize_parameters
  normalize_parameters-IsParameters typ none p h = absurd (ground arith)
  normalize_parameters-IsParameters typ (some input) p h =
      (build_parameters-IsParameters input p (ground arith)).0

  normalize_authorization_scope-IsScope :
      (input : AuthorizationScopeInput) (s : AuthorizationScope)
      → normalize_authorization_scope input ≡ ok s
      → IsScope s
  unfolding normalize_authorization_scope
  normalize_authorization_scope-IsScope input s h = ground (
    arith,
    new_authorization_scope-IsScope input.action_type
        (text_of (parse_destination_scope input.destination_scope)) "" "" s,
    new_authorization_scope-IsScope input.action_type ""
        (text_of (parse_access_scope input.requested_scope)) "" s,
    new_authorization_scope-IsScope input.action_type "" ""
        (text_of (parse_delete_mode input.delete_mode)) s,
  )

  normalize_evidence_item-IsEvidence :
      (input : AuthorizationEvidenceInput) (e : AuthorizationEvidence)
      → normalize_evidence_item input ≡ ok e
      → IsEvidence e
  unfolding normalize_evidence_item
  normalize_evidence_item-IsEvidence input e h =
      elim (Result-cases (parse_authorization_evidence_type input.typ)) [
        | inr (x, run) ↦ absurd (ground arith)
        | inl (typ, run) ↦ elim (Result-cases (normalize_principal input.issued_by)) [
          | inr (x, run') ↦ absurd (ground arith)
          | inl (p, run') ↦ elim (Result-cases (normalize_authorization_scope input.scope)) [
            | inr (x, run'') ↦ absurd (ground arith)
            | inl (s, run'') ↦
                new_authorization_evidence-IsEvidence typ input.evidence_id p s e
                  (normalize_principal-IsPrincipal input.issued_by p run')
                  (normalize_authorization_scope-IsScope input.scope s run'') (ground arith)
          ]
        ]
      ]

  pub normalize_evidence-IsEvidenceList :
      (inputs : List AuthorizationEvidenceInput) (es : List AuthorizationEvidence)
      → normalize_evidence inputs ≡ ok es
      → IsEvidenceList es
  unfolding normalize_evidence
  normalize_evidence-IsEvidenceList inputs es h =
      elim (Result-cases (traverse normalize_evidence_item inputs)) [
        | inr (x, run) ↦ absurd (ground arith)
        | inl (items, run) ↦
            (normalize_authorization_evidence-IsEvidenceList items es
              (traverse-All normalize_evidence_item IsEvidence normalize_evidence_item-IsEvidence
                inputs items run)
              (ground arith)).0
      ]
