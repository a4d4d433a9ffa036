-- ===== src/Domain/Principal.antt =====
-- internal/domain/principal.go: principals, delegations and targets. Go's string types hold any
-- text, and `Valid` tells the known values apart.
pub mod Laws
use agent_action_control.Prelude.{
  String, len, Bool, not, ◌||◌, ◌&&◌, ltb, ◌==◌, [], ◌∷◌, if◌then◌else◌,
}
use agent_action_control.Strings.{trim_space}
use agent_action_control.Errors.{
  Result, ok, err, ◌>>=◌, ◌>>◌, refuse_if, invalid_principal_type, invalid_argument,
}
use agent_action_control.Domain.Identifier.{is_blank, normalize_required_identifier}

abbrev pub PrincipalType : Type 0
PrincipalType = String

abbrev pub principal_user : PrincipalType
principal_user = "USER"

abbrev pub principal_agent : PrincipalType
principal_agent = "AGENT"

abbrev pub principal_runtime : PrincipalType
principal_runtime = "RUNTIME"

abbrev pub principal_service : PrincipalType
principal_service = "SERVICE"

unfoldable pub principal_type_valid : PrincipalType → Bool
principal_type_valid typ =
    typ == principal_user
    || typ == principal_agent
    || typ == principal_runtime
    || typ == principal_service

unfoldable pub parse_principal_type : String → Result PrincipalType
parse_principal_type value =
    if principal_type_valid value then ok value else err (invalid_principal_type ∷ [])

pub record Principal : Type 0 where
  pub typ : PrincipalType
  pub id : String

unfoldable pub new_principal : PrincipalType → String → Result Principal
new_principal typ id = do
  refuse_if (not (principal_type_valid typ)) (invalid_principal_type ∷ [])
  id ← normalize_required_identifier id
  ok (record { typ = typ; id = id })

unfoldable pub principal_valid : Principal → Bool
principal_valid principal = principal_type_valid principal.typ && not (is_blank principal.id)

pub record Delegation : Type 0 where
  pub id : String
  pub delegator : Principal

unfoldable pub new_delegation : String → Principal → Result Delegation
new_delegation id delegator = do
  id ← normalize_required_identifier id
  refuse_if (not (principal_valid delegator)) (invalid_argument ∷ [])
  ok (record { id = id; delegator = delegator })

unfoldable pub delegation_valid : Delegation → Bool
delegation_valid delegation = not (is_blank delegation.id) && principal_valid delegation.delegator

pub record Target : Type 0 where
  pub resource_type : String
  pub resource_id : String

unfoldable pub new_target : String → String → Result Target
new_target resource_type resource_id = do
  let resource_type = trim_space resource_type
  refuse_if (resource_type == "") (invalid_argument ∷ [])
  refuse_if (ltb 128 (len resource_type)) (invalid_argument ∷ [])
  resource_id ← normalize_required_identifier resource_id
  ok (record { resource_type = resource_type; resource_id = resource_id })

unfoldable pub target_valid : Target → Bool
target_valid target = not (is_blank target.resource_type) && not (is_blank target.resource_id)
