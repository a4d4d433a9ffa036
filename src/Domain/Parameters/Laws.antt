-- ===== src/Domain/Parameters/Laws.antt =====
-- The constructors of internal/domain/action_parameters.go.
use agent_action_control.Prelude.{
  refl, String, ◌≡◌, ◌≢◌, Bool, false, ◌&&◌, eqb, ◌==◌, List, length, All, arith,
}
use agent_action_control.Strings.{Unicode, upper-trim_idem}
use agent_action_control.Errors.{ok}
use agent_action_control.Domain.Principal.{Principal}
use agent_action_control.Domain.Principal.Laws.{IsPrincipal}
use agent_action_control.Domain.Normalize.Strings.{
  IsLabels, normalize_strings-IsLabels, normalize_strings_of_IsLabels,
}
use agent_action_control.Domain.Normalize.Principals.{
  IsPrincipals, normalize_principals-IsPrincipals, normalize_principals_of_IsPrincipals,
}
use agent_action_control.Domain.Parameters.{
  access_shared, ExternalSendParameters, UpdateResourceAccessParameters, DeleteParameters,
  ActionParameters, external_send, update_resource_access, delete, parse_destination_scope,
  new_external_send_parameters, parse_access_scope, new_update_resource_access_parameters,
  parse_delete_mode, new_delete_parameters, validate_parameters,
}

module _ ⦃u : Unicode⦄ where
  -- The three parsers return values that they accept as they are.
  pub parse_destination_scope_idem :
      (v r : String) → parse_destination_scope v ≡ ok r → parse_destination_scope r ≡ ok r
  unfolding parse_destination_scope
  parse_destination_scope_idem v r h = ground (arith, upper-trim_idem v)

  pub parse_access_scope_idem :
      (v r : String) → parse_access_scope v ≡ ok r → parse_access_scope r ≡ ok r
  unfolding parse_access_scope
  parse_access_scope_idem v r h = ground (arith, upper-trim_idem v)

  pub parse_delete_mode_idem :
      (v r : String) → parse_delete_mode v ≡ ok r → parse_delete_mode r ≡ ok r
  unfolding parse_delete_mode
  parse_delete_mode_idem v r h = ground (arith, upper-trim_idem v)

  pub record IsExternalSend (p : ExternalSendParameters) : Type 0 where
    pub scope : parse_destination_scope p.destination_scope ≡ ok p.destination_scope
    pub labels : IsLabels 100 320 p.recipients
    pub some_recipient : length p.recipients ≢ 0

  pub new_external_send_parameters-IsExternalSend :
      (scope : String) (recipients : List String) (p : ExternalSendParameters)
      → new_external_send_parameters scope recipients ≡ ok p
      → IsExternalSend p
  unfolding new_external_send_parameters
  new_external_send_parameters-IsExternalSend scope recipients p h = record {
    scope = ground (arith, parse_destination_scope_idem scope p.destination_scope);
    labels = (normalize_strings-IsLabels recipients 100 320 p.recipients (ground arith)).0;
    some_recipient = ground arith;
  }

  pub new_external_send_parameters_of_IsExternalSend :
      (p : ExternalSendParameters)
      → IsExternalSend p
      → new_external_send_parameters p.destination_scope p.recipients ≡ ok p
  unfolding new_external_send_parameters
  new_external_send_parameters_of_IsExternalSend p h =
      let scope = h.scope in
      let there = h.some_recipient in
      ground (arith, scope, normalize_strings_of_IsLabels 100 320 p.recipients h.labels)

  pub record IsUpdateResourceAccess (p : UpdateResourceAccessParameters) : Type 0 where
    pub current : parse_access_scope p.current_scope ≡ ok p.current_scope
    pub requested : parse_access_scope p.requested_scope ≡ ok p.requested_scope
    pub changes : (p.current_scope == p.requested_scope) ≡ false
    pub principals : IsPrincipals p.target_principals
    pub shared_with :
        (p.requested_scope == access_shared && eqb (length p.target_principals) 0) ≡ false

  pub new_update_resource_access_parameters-IsUpdateResourceAccess :
      (current requested : String) (targets : List Principal) (p : UpdateResourceAccessParameters)
      → All IsPrincipal targets
      → new_update_resource_access_parameters current requested targets ≡ ok p
      → IsUpdateResourceAccess p
  unfolding new_update_resource_access_parameters
  new_update_resource_access_parameters-IsUpdateResourceAccess current requested targets p all h =
      record {
        current = parse_access_scope_idem current p.current_scope (ground arith);
        requested = parse_access_scope_idem requested p.requested_scope (ground arith);
        changes = ground arith;
        principals =
            (normalize_principals-IsPrincipals targets p.target_principals all (ground arith)).0;
        shared_with = ground arith;
      }

  pub new_update_resource_access_parameters_of_IsUpdateResourceAccess :
      (p : UpdateResourceAccessParameters)
      → IsUpdateResourceAccess p
      → new_update_resource_access_parameters p.current_scope p.requested_scope p.target_principals
        ≡ ok p
  unfolding new_update_resource_access_parameters
  new_update_resource_access_parameters_of_IsUpdateResourceAccess p h = ground (
    arith,
    h.current,
    h.requested,
    h.changes,
    h.shared_with,
    normalize_principals_of_IsPrincipals p.target_principals h.principals,
  )

  abbrev pub IsDelete : DeleteParameters → Type 0
  IsDelete p = parse_delete_mode p.mode ≡ ok p.mode

  pub new_delete_parameters-IsDelete :
      (mode : String) (recoverable : Bool) (p : DeleteParameters)
      → new_delete_parameters mode recoverable ≡ ok p
      → IsDelete p
  unfolding new_delete_parameters
  new_delete_parameters-IsDelete mode recoverable p h =
      parse_delete_mode_idem mode p.mode (ground arith)

  pub new_delete_parameters_of_IsDelete :
      (p : DeleteParameters) → IsDelete p → new_delete_parameters p.mode p.recoverable ≡ ok p
  unfolding new_delete_parameters
  new_delete_parameters_of_IsDelete p h = rw (h) refl

  abbrev pub IsParameters : ActionParameters → Type 0
  IsParameters (external_send p) = IsExternalSend p
  IsParameters (update_resource_access p) = IsUpdateResourceAccess p
  IsParameters (delete p) = IsDelete p

  -- Normalised parameters are valid.
  pub validate_parameters_of_IsParameters :
      (p : ActionParameters) → IsParameters p → validate_parameters p ≡ ok tt
  unfolding validate_parameters new_delete_parameters
  validate_parameters_of_IsParameters (external_send p) h =
      ground (arith, new_external_send_parameters_of_IsExternalSend p h)
  validate_parameters_of_IsParameters (update_resource_access p) h =
      ground (arith, new_update_resource_access_parameters_of_IsUpdateResourceAccess p h)
  validate_parameters_of_IsParameters (delete p) h = ground arith
