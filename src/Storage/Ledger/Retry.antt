-- ===== src/Storage/Ledger/Retry.antt =====
-- Retrying a request, over the ledger.
use agent_action_control.Application.Service.Commit.{evaluate-IsAuthoritative}
use agent_action_control.Application.Service.Replay.{evaluate-replay}
use agent_action_control.Storage.Ledger.Answers.{IsBound}
use agent_action_control.Storage.Ledger.Binding.{restore_evaluation-ok}
use agent_action_control.Storage.Ledger.RoundTrip.{get_evaluation_by_request_id-quiet, IsKey}
use agent_action_control.Storage.Ledger.Service.{
  evaluate-IsBound, prepare-ok, service_over, pointer, IsInRange,
}
use agent_action_control.Strings.{Unicode}
use agent_action_control.Storage.Decode.{Times, ReadsTimes}
use agent_action_control.Domain.ProposedAction.{ProposedAction}
use agent_action_control.Prelude.{◌≡◌, ◌∙◌, true, some, ap, refl, [], eq_iff, arith, String, Option}
use agent_action_control.Domain.Canonical.{Digests}
use agent_action_control.Application.Evaluation.{DecisionRecord}
use agent_action_control.Application.Runtime.{AuthenticatedRuntime}
use mathlib.Core.Path.{subst}
use agent_action_control.Application.Ports.{PolicyEvaluator, Clock, IdGenerator}
use agent_action_control.Application.Service.{evaluate, prepare, EvaluateActionCommand}
use agent_action_control.Storage.Ledger.{get_evaluation_by_request_id, is_initialized, SqliteLedger}
use agent_action_control.Storage.Database.{World}
use agent_action_control.Storage.Tables.{Checks, Tables}
use agent_action_control.Errors.{ok, err, Error, is, evaluation_not_found}

-- These tables, with no other process and without failures.
abbrev pub quietly : Tables → World
quietly tables = record { tables = tables; schedule = [] }

module _ ⦃k : Checks⦄ ⦃u : Unicode⦄ ⦃d : Digests⦄ ⦃t : Times⦄ where
  get_evaluation_by_request_id-bound :
      (ledger : Option SqliteLedger) (runtime_id request_id digest : String) (r : DecisionRecord)
      (tables : Tables)
      → is_initialized ledger ≡ true
      → IsKey runtime_id
      → IsKey request_id
      → (b : IsBound runtime_id request_id digest r tables)
      → get_evaluation_by_request_id ledger runtime_id request_id (quietly tables)
        ≡ (ok b.stored, quietly tables)
  get_evaluation_by_request_id-bound ledger runtime_id request_id digest r tables init h k b =
      get_evaluation_by_request_id-quiet runtime_id request_id h k ledger tables init
      ∙ (rw (b.selected, b.restored) refl)

  -- A request that the ledger does not know and that can be stored is decided, whatever other
  -- processes commit and whichever calls fail. A retry of it with no other process and without
  -- failures is then answered with the same record, and leaves the tables as they are.
  pub evaluate-retry :
      (ledger : Option SqliteLedger) (policy : PolicyEvaluator World) (clock : Clock World)
      (ids : IdGenerator World) (caller : AuthenticatedRuntime) (command : EvaluateActionCommand)
      (w w1 w' : World) (r : DecisionRecord) (request : String) (a : ProposedAction)
      (digest : String) (x : Error)
      → is_initialized ledger ≡ true
      → ReadsTimes d t
      → IsInRange caller a clock
      → prepare caller command ≡ ok (request, a, digest)
      → get_evaluation_by_request_id ledger caller.runtime_id request w ≡ (err x, w1)
      → is x evaluation_not_found ≡ true
      → evaluate (some (service_over ledger policy clock ids)) caller command w ≡ (ok r, w')
      → evaluate (some (service_over ledger policy clock ids)) caller command (quietly w'.tables)
        ≡ (ok r, quietly w'.tables)
  evaluate-retry ledger policy clock ids caller command w w1 w' r request a digest x init reads
        range p f n h =
      let service = service_over ledger policy clock ids in
      let b =
        evaluate-IsBound ledger policy clock ids caller command w w1 w' r request a digest x reads
          range p f n h in
      let (normal, trimmed, present) = prepare-ok caller command request a digest p in
      let found =
        get_evaluation_by_request_id-bound ledger caller.runtime_id request digest r w'.tables init
          (record {
            trimmed = range.runtime.trimmed;
            present = let n = range.runtime.present in ground (arith, eq_iff caller.runtime_id "");
          })
          (record { trimmed = trimmed; present = present }) b in
      let (_, _, _, same_runtime, same_request) =
        restore_evaluation-ok caller.runtime_id request b.rows b.stored b.restored in
      let (request', a', digest', p', sure) =
        evaluate-IsAuthoritative service caller command w w' r h in
      let same_digest : digest' ≡ digest = ground arith in
      let answered = b.answered in
      subst
        (λ z.
          evaluate (some service) caller command (quietly w'.tables) ≡ (ok z, quietly w'.tables))
        answered
        (evaluate-replay service caller command request a digest (quietly w'.tables)
          (quietly w'.tables) b.stored p (ap pointer found) same_runtime same_request
          (rw (answered, ← same_digest) sure))
