-- ===== src/Policy/Osprey/Coordinator.antt =====
-- The call of the coordinator in internal/policy/osprey/evaluator.go, for any state behind it. A
-- coordinator that has not answered in time has failed.
use agent_action_control.Strings.{Unicode, trim_space}
use agent_action_control.Policy.Osprey.{evaluate_answer}
use agent_action_control.Policy.Osprey.Facts.{marshal_action, WrittenTimes}
use agent_action_control.Application.Ports.{Run}
use agent_action_control.Domain.ProposedAction.{ProposedAction}
use agent_action_control.Application.Evaluation.{PolicyEvaluation}
use agent_action_control.Prelude.{
  ℤ, ◌||◌, true, some, pos, none, negsuc, eqb, if◌then◌else◌, [], String, Option, List, Bool, ◌==◌,
}
use agent_action_control.Errors.{ok, err, Result}
use agent_action_control.Time.{Time}

pub record CoordinatorRequest : Type 0 where
  pub action_data_json : String
  pub timestamp : Time

abbrev pub Coordinator : Type 0 → Type 0
Coordinator S = CoordinatorRequest → Run S (List String)

pub record OspreyEvaluator (S : Type 0) : Type 0 where
  pub coordinator : Coordinator S
  pub policy_version : String
  pub timeout : ℤ

-- An argument `none` is a nil interface.
unfoldable pub new_osprey_evaluator :
    {S : Type 0} → Option (Coordinator S) → String → ℤ → Result (OspreyEvaluator S)
new_osprey_evaluator none policy_version timeout = err []
new_osprey_evaluator (some coordinator) policy_version timeout =
    let policy_version = trim_space policy_version in
    if policy_version == "" || not_positive timeout
    then err []
    else ok
        (record { coordinator = coordinator; policy_version = policy_version; timeout = timeout })
  where
    not_positive : ℤ → Bool
    not_positive (pos n) = eqb n 0
    not_positive (negsuc n) = true

module _ ⦃u : Unicode⦄ {S : Type 0} where
  -- What becomes of the coordinator's answer.
  abbrev pub answer_with : String → Result (List String) × S → Result PolicyEvaluation × S
  answer_with version (answer, s) = (ok (evaluate_answer version answer), s)

  -- The call with the text of the action.
  abbrev pub process_action :
      OspreyEvaluator S → ProposedAction → Result String → Run S PolicyEvaluation
  process_action evaluator action (err e) s = (err e, s)
  process_action evaluator action (ok text) s = answer_with evaluator.policy_version (
      evaluator.coordinator (record { action_data_json = text; timestamp = action.requested_at }) s)

  -- the method `Evaluate`
  unfoldable pub evaluate_verdicts :
      ⦃t : WrittenTimes⦄ → OspreyEvaluator S → ProposedAction → Run S PolicyEvaluation
  evaluate_verdicts evaluator action s = process_action evaluator action (marshal_action action) s
