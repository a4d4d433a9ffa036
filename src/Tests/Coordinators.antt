-- ===== src/Tests/Coordinators.antt =====
-- The Osprey evaluator with a coordinator that always denies.
use agent_action_control.Policy.Osprey.Facts.{WrittenTimes}
use agent_action_control.Prelude.{◌∷◌, ℕ, suc, pos, [], String}
use agent_action_control.Policy.Osprey.Coordinator.{OspreyEvaluator}
use agent_action_control.Domain.Parameters.{external_send, destination_external, ActionParameters}
use agent_action_control.Errors.{ok}
use agent_action_control.Tests.Fixtures.{ascii}
use agent_action_control.Json.{Json}

instance abbrev written_times : WrittenTimes
written_times = record { write_time = λ t. ok "1970-01-01T00:00:00Z" }

abbrev verdict : String
verdict = "deny.external_destination"

abbrev evaluator : OspreyEvaluator ℕ
evaluator = record {
  coordinator = λ request s. (ok (verdict ∷ []), suc s);
  policy_version = "v1";
  timeout = pos 1;
}

abbrev send_parameters : ActionParameters
send_parameters =
    external_send
      (record { destination_scope = destination_external; recipients = "a@x" ∷ "b@x" ∷ [] })
