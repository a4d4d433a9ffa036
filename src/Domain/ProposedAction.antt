-- ===== src/Domain/ProposedAction.antt =====
-- `ProposedAction` and `NewProposedAction` of internal/domain/proposed_action.go. The accessors are
-- the fields; what they clone is not shared here.
pub mod Laws
use agent_action_control.Prelude.{String, Bool, not, ◌==◌, List, [], ◌∷◌, Option, none, some}
use agent_action_control.Strings.{Unicode}
use agent_action_control.Errors.{
  Result, ok, err, ◌>>=◌, ◌>>◌, refuse_if, invalid_action_type, invalid_argument, invalid_digest,
}
use agent_action_control.Time.{Time, is_zero, utc}
use agent_action_control.Domain.Principal.{Delegation, delegation_valid, Target, target_valid}
use agent_action_control.Domain.Action.{ActionType, action_type_valid, Actor, actor_valid}
use agent_action_control.Domain.Parameters.{ActionParameters, parameters_type, validate_parameters}
use agent_action_control.Domain.Payload.{PayloadFacts, payload_valid}
use agent_action_control.Domain.Evidence.{AuthorizationEvidence, normalize_authorization_evidence}

-- `parameters` is an interface value, and `none` is its nil.
pub record ProposedAction : Type 0 where
  pub typ : ActionType
  pub requested_at : Time
  pub actor : Actor
  pub delegation : Delegation
  pub target : Target
  pub parameters : Option ActionParameters
  pub payload : PayloadFacts
  pub evidence : List AuthorizationEvidence

module _ ⦃u : Unicode⦄ where
  -- The three checks of the parameters.
  unfoldable pub check_parameters : ActionType → Option ActionParameters → Result (Unit {0})
  check_parameters typ none = err (invalid_argument ∷ [])
  check_parameters typ (some parameters) = do
    refuse_if (not (parameters_type parameters == typ)) (invalid_argument ∷ [])
    validate_parameters parameters

  unfoldable pub new_proposed_action :
      ActionType
      → Time
      → Actor
      → Delegation
      → Target
      → Option ActionParameters
      → PayloadFacts
      → List AuthorizationEvidence
      → Result ProposedAction
  unfolding check_parameters
  new_proposed_action typ requested_at actor delegation target parameters payload evidence = do
    refuse_if (not (action_type_valid typ)) (invalid_action_type ∷ [])
    refuse_if (is_zero requested_at) (invalid_argument ∷ [])
    refuse_if (not (actor_valid actor)) (invalid_argument ∷ [])
    refuse_if (not (delegation_valid delegation)) (invalid_argument ∷ [])
    refuse_if (not (target_valid target)) (invalid_argument ∷ [])
    check_parameters typ parameters
    refuse_if (not (payload_valid payload)) (invalid_digest ∷ [])
    normalized_evidence ← normalize_authorization_evidence evidence
    ok (record {
      typ = typ;
      requested_at = utc requested_at;
      actor = actor;
      delegation = delegation;
      target = target;
      parameters = parameters;
      payload = payload;
      evidence = normalized_evidence;
    })

  -- `NewProposedAction` from the fields of an action, as `CanonicalActionBytes` calls it.
  unfoldable pub rebuild : ProposedAction → Result ProposedAction
  unfolding new_proposed_action
  rebuild a =
      new_proposed_action a.typ a.requested_at a.actor a.delegation a.target a.parameters a.payload
        a.evidence
