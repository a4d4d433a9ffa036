-- ===== src/Domain/Parameters.antt =====
-- internal/domain/action_parameters.go: the normalised facts of each kind of action. Cloning a
-- value is the identity here, since values are not shared.
pub mod Laws
use agent_action_control.Prelude.{
  String, len, ℕ, Bool, true, false, not, ◌||◌, ◌&&◌, ltb, eqb, ◌==◌, List, [], ◌∷◌, length,
  if◌then◌else◌,
}
use agent_action_control.Strings.{Unicode, to_upper, trim_space}
use agent_action_control.Errors.{
  Result, ok, err, ◌>>=◌, ◌>>◌, refuse_if, hide, discard, invalid_argument,
}
use agent_action_control.Domain.Principal.{Principal}
use agent_action_control.Domain.Normalize.{normalize_strings, normalize_principals}
use agent_action_control.Domain.Action.{
  ActionType, action_external_send, action_update_resource_access, action_delete,
}

abbrev pub DestinationScope : Type 0
DestinationScope = String

abbrev pub destination_internal : DestinationScope
destination_internal = "INTERNAL"

abbrev pub destination_external : DestinationScope
destination_external = "EXTERNAL"

abbrev pub AccessScope : Type 0
AccessScope = String

abbrev pub access_private : AccessScope
access_private = "PRIVATE"

abbrev pub access_shared : AccessScope
access_shared = "SHARED"

abbrev pub access_workspace : AccessScope
access_workspace = "WORKSPACE"

abbrev pub access_public : AccessScope
access_public = "PUBLIC"

abbrev pub DeleteMode : Type 0
DeleteMode = String

abbrev pub delete_soft : DeleteMode
delete_soft = "SOFT"

abbrev pub delete_hard : DeleteMode
delete_hard = "HARD"

pub record ExternalSendParameters : Type 0 where
  pub destination_scope : DestinationScope
  pub recipients : List String

pub record UpdateResourceAccessParameters : Type 0 where
  pub current_scope : AccessScope
  pub requested_scope : AccessScope
  pub target_principals : List Principal

pub record DeleteParameters : Type 0 where
  pub mode : DeleteMode
  pub recoverable : Bool

-- The closed set of implementations of the interface.
pub data ActionParameters : Type 0 where
  external_send : ExternalSendParameters → ActionParameters
  update_resource_access : UpdateResourceAccessParameters → ActionParameters
  delete : DeleteParameters → ActionParameters

-- the method `ActionType`
unfoldable pub parameters_type : ActionParameters → ActionType
parameters_type (external_send p) = action_external_send
parameters_type (update_resource_access p) = action_update_resource_access
parameters_type (delete p) = action_delete

module _ ⦃u : Unicode⦄ where
  unfoldable pub parse_destination_scope : String → Result DestinationScope
  parse_destination_scope value =
      let scope = to_upper (trim_space value) in
      if not (scope == destination_internal) && not (scope == destination_external)
      then err (invalid_argument ∷ [])
      else ok scope

  unfoldable pub new_external_send_parameters :
      DestinationScope → List String → Result ExternalSendParameters
  new_external_send_parameters scope recipients = do
    normalized_scope ← parse_destination_scope scope
    normalized ← hide invalid_argument (normalize_strings recipients 100 320)
    refuse_if (eqb (length normalized) 0) (invalid_argument ∷ [])
    ok (record { destination_scope = normalized_scope; recipients = normalized })

  unfoldable pub parse_access_scope : String → Result AccessScope
  parse_access_scope value =
      let value = to_upper (trim_space value) in
      if value == "" || ltb 128 (len value) then err (invalid_argument ∷ []) else ok value

  unfoldable pub new_update_resource_access_parameters :
      AccessScope → AccessScope → List Principal → Result UpdateResourceAccessParameters
  new_update_resource_access_parameters current_scope requested_scope target_principals = do
    normalized_current ← parse_access_scope current_scope
    normalized_requested ← parse_access_scope requested_scope
    refuse_if (normalized_current == normalized_requested) (invalid_argument ∷ [])
    principals ← normalize_principals target_principals
    refuse_if (normalized_requested == access_shared && eqb (length principals) 0)
        (invalid_argument ∷ [])
    ok (record {
      current_scope = normalized_current;
      requested_scope = normalized_requested;
      target_principals = principals;
    })

  unfoldable pub parse_delete_mode : String → Result DeleteMode
  parse_delete_mode value =
      let mode = to_upper (trim_space value) in
      if not (mode == delete_soft) && not (mode == delete_hard)
      then err (invalid_argument ∷ [])
      else ok mode

  unfoldable pub new_delete_parameters : DeleteMode → Bool → Result DeleteParameters
  new_delete_parameters mode recoverable = do
    normalized_mode ← parse_delete_mode mode
    ok (record { mode = normalized_mode; recoverable = recoverable })

  -- the method `validate`
  unfoldable pub validate_parameters : ActionParameters → Result (Unit {0})
  validate_parameters (external_send p) =
      discard (new_external_send_parameters p.destination_scope p.recipients)
  validate_parameters (update_resource_access p) =
      discard (
        new_update_resource_access_parameters p.current_scope p.requested_scope p.target_principals)
  validate_parameters (delete p) = discard (new_delete_parameters p.mode p.recoverable)
