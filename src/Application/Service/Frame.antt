-- ===== src/Application/Service/Frame.antt =====
-- How the decision service changes the state behind its ports.
use agent_action_control.Application.Composer.{compose}
use agent_action_control.Domain.ProposedAction.{ProposedAction}
use agent_action_control.Domain.Decision.{Decision}
use agent_action_control.Application.Runtime.{AuthenticatedRuntime}
use agent_action_control.Application.Evaluation.{EvaluationCommit, PolicyEvaluation}
use agent_action_control.Application.Ports.{IdKind}
use agent_action_control.Application.Service.Commit.{IsCommit}
use agent_action_control.Application.Service.{DecisionService}
use agent_action_control.Errors.{ok}
use agent_action_control.Prelude.{String, ◌≡◌, ◌⊎◌}

-- A property of the state that every call but a commit keeps.
pub record IsKept {S : Type 0} (service : DecisionService S) (P : S → Type 0) : Type 0 where
  pub lookup :
      (runtime_id request_id : String) (s : S)
      → P s
      → P (service.decision_ledger.get_evaluation_by_request_id runtime_id request_id s).1
  pub policy : (a : ProposedAction) (s : S) → P s → P (service.policy_evaluator a s).1
  pub told : (s : S) → P s → P (service.clock s).1
  pub made : (kind : IdKind) (s : S) → P s → P (service.id_generator kind s).1

module _ {S : Type 0} (P : S → Type 0) where
  module _ (service : DecisionService S) (keep : IsKept service P) where
    -- The state is the ledger's behind one commit, from a state with the property, of the decision
    -- composed from what the policy has answered on the action.
    abbrev pub Commits : AuthenticatedRuntime → String → ProposedAction → String → S → Type 0
    Commits caller request a digest s' =
        (v : PolicyEvaluation) × (c : EvaluationCommit) × (t : S) × (t' : S) × P t'
        × ((service.policy_evaluator a t).0 ≡ ok v)
        × (compose v ≡ ok c.decision)
        × IsCommit service.clock caller request a digest c
        × (s' ≡ (service.decision_ledger.commit_evaluation c t').1)

    abbrev CommitsOnce : AuthenticatedRuntime → String → ProposedAction → String → S → Type 0
    CommitsOnce caller request a digest s' = P s' ⊎ Commits caller request a digest s'
