-- ===== src/Application/Evaluation.antt =====
-- internal/application/evaluation.go.
use agent_action_control.Prelude.{String, List}
use agent_action_control.Time.{Time}
use agent_action_control.Domain.Action.{ActionDigest}
use agent_action_control.Domain.Decision.{Decision, ReasonCode}
use agent_action_control.Domain.Effect.{PolicyEffect}
use agent_action_control.Domain.ProposedAction.{ProposedAction}

pub record PolicyEvaluation : Type 0 where
  pub deny_reason_codes : List ReasonCode
  pub effects : List PolicyEffect
  pub matched_rule_ids : List String
  pub policy_version : String

pub record DecisionRecord : Type 0 where
  pub decision_id : String
  pub decision : Decision
  pub action_digest : ActionDigest
  pub policy_version : String
  pub matched_rule_ids : List String
  pub evaluated_at : Time

pub record StoredEvaluation : Type 0 where
  pub runtime_id : String
  pub request_id : String
  pub action : ProposedAction
  pub decision : DecisionRecord

pub record PolicyEffectCommit : Type 0 where
  pub effect_id : String
  pub effect : PolicyEffect

pub record EvaluationCommit : Type 0 where
  pub runtime_id : String
  pub request_id : String
  pub action : ProposedAction
  pub action_digest : ActionDigest
  pub decision_id : String
  pub decision : Decision
  pub policy_version : String
  pub matched_rule_ids : List String
  pub effects : List PolicyEffectCommit
  pub evaluated_at : Time
