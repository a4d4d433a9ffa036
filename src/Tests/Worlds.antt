-- ===== src/Tests/Worlds.antt =====
-- The decision service with the embedded policy, and a ledger of one entry.
use agent_action_control.Policy.Embedded.{
  evaluate_permission, evaluate_action_rules, contains_classification,
}
use agent_action_control.Tests.Fixtures.{ascii, digests, send_input, send_action, a_digest}
use agent_action_control.Errors.{ok, evaluation_not_found, err, Result}
use agent_action_control.Domain.ProposedAction.{ProposedAction}
use agent_action_control.Application.Evaluation.{
  StoredEvaluation, PolicyEvaluation, EvaluationCommit, DecisionRecord,
}
use agent_action_control.Application.Ports.{DecisionLedger}
use agent_action_control.Domain.Decision.{
  reason_external_destination, reason_delegator_approval_required, new_require_approval_action,
  decision_deny, Decision,
}
use agent_action_control.Prelude.{◌∷◌, ℕ, some, pos, none, [], String, Option, ◌+◌}
use agent_action_control.Policy.Embedded
use agent_action_control.Application.Service.{EvaluateActionCommand, DecisionService}

-- Behind the ports: what the ledger holds, and how many identifiers have been made.
pub record World : Type 0 where
  pub stored : Option StoredEvaluation
  pub made : ℕ

abbrev pub answer_of : EvaluationCommit → DecisionRecord
answer_of c = record {
  decision_id = c.decision_id;
  decision = c.decision;
  action_digest = c.action_digest;
  policy_version = c.policy_version;
  matched_rule_ids = c.matched_rule_ids;
  evaluated_at = c.evaluated_at;
}

abbrev pub found : Option StoredEvaluation → Result (Option StoredEvaluation)
found none = err (evaluation_not_found ∷ [])
found (some stored) = ok (some stored)

abbrev pub ledger : DecisionLedger World
ledger = record {
  get_evaluation_by_request_id = λ runtime_id request_id w. (found w.stored, w);
  commit_evaluation = λ c w. (
    ok (answer_of c),
    record w {
      stored = some (record {
        runtime_id = c.runtime_id;
        request_id = c.request_id;
        action = c.action;
        decision = answer_of c;
      });
    },
  );
}

abbrev pub service_with : (ProposedAction → Result PolicyEvaluation) → DecisionService World
service_with policy = record {
  policy_evaluator = λ a w. (policy a, w);
  decision_ledger = ledger;
  clock = λ w. (record { instant = pos 9; location = "Local" }, w);
  id_generator = λ kind w. (ok " id ", record w { made = w.made + 1 });
}

abbrev pub service : DecisionService World
service = service_with Embedded.evaluate

abbrev pub command : EvaluateActionCommand
command = record { request_id = " req-1 "; proposed_action = send_input }

abbrev pub start : World
start = record { stored = none; made = 0 }

abbrev pub send_decision : Decision
send_decision = record {
  typ = decision_deny;
  reason_codes = reason_delegator_approval_required ∷ reason_external_destination ∷ [];
  required_actions = new_require_approval_action ∷ [];
}

abbrev pub send_record : String → DecisionRecord
send_record digest = record {
  decision_id = "id";
  decision = send_decision;
  action_digest = digest;
  policy_version = "embedded-mvp-v1";
  matched_rule_ids = "mvp.external-send-approval" ∷ "mvp.secret-payload-review" ∷ [];
  evaluated_at = record { instant = pos 9; location = "UTC" };
}

abbrev pub stored_with : String → StoredEvaluation
stored_with digest = record {
  runtime_id = "rt-1";
  request_id = "req-1";
  action = send_action;
  decision = send_record digest;
}

abbrev pub finish : World
finish = record { stored = some (stored_with a_digest); made = 2 }
