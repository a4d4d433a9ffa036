-- ===== src/Domain/Principal/Laws.antt =====
-- The constructors of internal/domain/principal.go.
use agent_action_control.Prelude.{String, len, ◌≡◌, ◌≢◌, ◌≤◌, true, eq_iff, arith}
use agent_action_control.Strings.{trim_space, trim_space_idem}
use agent_action_control.Errors.{ok}
use agent_action_control.Domain.Identifier.{
  IsIdentifier, is_blank, normalize_required_identifier-IsIdentifier,
  normalize_required_identifier_of_IsIdentifier, not-is_blank_of_IsIdentifier,
}
use agent_action_control.Domain.Principal.{
  principal_type_valid, Principal, new_principal, principal_valid, Delegation, new_delegation,
  delegation_valid, Target, new_target, target_valid,
}

pub record IsPrincipal (p : Principal) : Type 0 where
  pub known : principal_type_valid p.typ ≡ true
  pub identified : IsIdentifier p.id

pub new_principal-IsPrincipal :
    (typ id : String) (p : Principal)
    → new_principal typ id ≡ ok p
    → IsPrincipal p × (p.typ ≡ typ) × (p.id ≡ trim_space id)
unfolding new_principal
new_principal-IsPrincipal typ id p h =
    ground (arith, normalize_required_identifier-IsIdentifier id p.id)

pub new_principal_of_IsPrincipal : (p : Principal) → IsPrincipal p → new_principal p.typ p.id ≡ ok p
unfolding new_principal
new_principal_of_IsPrincipal p h =
    ground (arith, normalize_required_identifier_of_IsIdentifier p.id h.identified)

pub principal_valid_of_IsPrincipal : (p : Principal) → IsPrincipal p → principal_valid p ≡ true
unfolding principal_valid
principal_valid_of_IsPrincipal p h = ground (arith, not-is_blank_of_IsIdentifier p.id h.identified)

pub record IsDelegation (d : Delegation) : Type 0 where
  pub identified : IsIdentifier d.id
  pub delegated : IsPrincipal d.delegator

pub new_delegation-IsDelegation :
    (id : String) (p : Principal) (d : Delegation)
    → IsPrincipal p
    → new_delegation id p ≡ ok d
    → IsDelegation d × (d.id ≡ trim_space id) × (d.delegator ≡ p)
unfolding new_delegation
new_delegation-IsDelegation id p d v h =
    ground (arith, normalize_required_identifier-IsIdentifier id d.id)

pub new_delegation_of_IsDelegation :
    (d : Delegation) → IsDelegation d → new_delegation d.id d.delegator ≡ ok d
unfolding new_delegation
new_delegation_of_IsDelegation d h = ground (
  arith,
  normalize_required_identifier_of_IsIdentifier d.id h.identified,
  principal_valid_of_IsPrincipal d.delegator h.delegated,
)

pub delegation_valid_of_IsDelegation : (d : Delegation) → IsDelegation d → delegation_valid d ≡ true
unfolding delegation_valid
delegation_valid_of_IsDelegation d h = ground (
  arith,
  not-is_blank_of_IsIdentifier d.id h.identified,
  principal_valid_of_IsPrincipal d.delegator h.delegated,
)

pub record IsTarget (t : Target) : Type 0 where
  pub trimmed : trim_space t.resource_type ≡ t.resource_type
  pub short : len t.resource_type ≤ 128
  pub present : t.resource_type ≢ ""
  pub identified : IsIdentifier t.resource_id

pub new_target-IsTarget :
    (typ id : String) (t : Target)
    → new_target typ id ≡ ok t
    → IsTarget t × (t.resource_type ≡ trim_space typ) × (t.resource_id ≡ trim_space id)
unfolding new_target
new_target-IsTarget typ id t h = ground (
  arith,
  normalize_required_identifier-IsIdentifier id t.resource_id,
  trim_space_idem typ,
  eq_iff (trim_space typ) "",
)

pub new_target_of_IsTarget :
    (t : Target) → IsTarget t → new_target t.resource_type t.resource_id ≡ ok t
unfolding new_target
new_target_of_IsTarget t h = ground (
  arith,
  normalize_required_identifier_of_IsIdentifier t.resource_id h.identified,
  eq_iff t.resource_type "",
)

pub target_valid_of_IsTarget : (t : Target) → IsTarget t → target_valid t ≡ true
unfolding target_valid is_blank
target_valid_of_IsTarget t h =
    ground
      (arith, not-is_blank_of_IsIdentifier t.resource_id h.identified, eq_iff t.resource_type "")
