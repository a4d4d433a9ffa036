-- ===== src/Application/Service/Replay.antt =====
-- Requests that the ledger knows.
use agent_action_control.Strings.{Unicode}
use agent_action_control.Prelude.{◌≡◌, some, eq_iff, arith, String}
use agent_action_control.Application.Evaluation.{StoredEvaluation}
use agent_action_control.Domain.ProposedAction.{ProposedAction}
use agent_action_control.Application.Service.Laws.{
  validate_authoritative_decision_of_IsAuthoritative, IsAuthoritative,
}
use agent_action_control.Errors.{ok}
use agent_action_control.Domain.Canonical.{Digests}
use agent_action_control.Application.Service.{
  evaluate, prepare, continue, resolve_stored_evaluation, evaluate_with, EvaluateActionCommand,
  DecisionService,
}
use agent_action_control.Application.Runtime.{AuthenticatedRuntime}

module _ ⦃u : Unicode⦄ ⦃d : Digests⦄ {S : Type 0} (service : DecisionService S)
    (caller : AuthenticatedRuntime) (command : EvaluateActionCommand) (request : String)
    (a : ProposedAction) (digest : String) (s t : S) where
  -- A request that the ledger knows, with the same action, is answered with the stored decision.
  -- The answer leaves the state as the ledger's lookup left it: nothing is evaluated, no identifier
  -- is made, and nothing is committed.
  pub evaluate-replay :
      (stored : StoredEvaluation)
      → prepare caller command ≡ ok (request, a, digest)
      → service.decision_ledger.get_evaluation_by_request_id caller.runtime_id request s
        ≡ (ok (some stored), t)
      → stored.runtime_id ≡ caller.runtime_id
      → stored.request_id ≡ request
      → IsAuthoritative stored.decision digest
      → evaluate (some service) caller command s ≡ (ok stored.decision, t)
  unfolding evaluate evaluate_with continue resolve_stored_evaluation
  evaluate-replay stored p f r q h =
      let valid = validate_authoritative_decision_of_IsAuthoritative stored.decision digest h in
      let same_digest = h.bound in
      ground (
        arith,
        eq_iff stored.runtime_id caller.runtime_id,
        eq_iff stored.request_id request,
        eq_iff stored.decision.action_digest digest,
      )
