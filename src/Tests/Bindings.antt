-- ===== src/Tests/Bindings.antt =====
-- The decision service over the ledger, on a new request.
use agent_action_control.Strings.{is_space, keep, trim_space, trim_right, trim_left}
use agent_action_control.Tests.Actions.{send-IsAction}
use agent_action_control.Domain.ProposedAction.Laws.{rebuild_of_IsAction}
use agent_action_control.Time.{utc, is_zero}
use agent_action_control.Storage.Tables.{
  select_evaluation, insert_each, find_request, find_decision,
}
use agent_action_control.Domain.Effect.{policy_effect_type_valid, create_safety_review}
use agent_action_control.Application.Composer.{contains_reason, compose, contains_terminal_reason}
use agent_action_control.Storage.Ledger.RoundTrip.{commit_evaluation-get_evaluation_by_request_id}
use agent_action_control.Domain.Decision.{
  required_action_valid, required_action_type_valid, reason_code_valid, new_deny_decision,
  decision_type_valid, collect_reasons, collect_actions,
}
use agent_action_control.Domain.Canonical.{
  compute_action_digest, canonical_parameters, canonical_action_bytes, canonical_action,
}
use agent_action_control.Storage.Ledger.Service.{
  sqlite_ledger, service_over, evaluate-IsBound, IsInRange,
}
use agent_action_control.Storage.Ledger.Answers.{IsBound}
use agent_action_control.Storage.Ledger.Retry.{evaluate-retry, quietly}
use agent_action_control.Application.Ports.{PolicyEvaluator, IdGenerator, Clock}
use agent_action_control.Prelude.{arith, eq_iff, ◌≡◌, ◌∷◌, some, refl, pos, if◌then◌else◌, [], ◌==◌}
use agent_action_control.Errors.{ok, err, same, is, identity, evaluation_not_found}
use agent_action_control.Tests.Fixtures.{
  ascii, digests, caller, send_action, send_input, normalize_run, a_digest,
}
use agent_action_control.Tests.Ledgers.{
  times, admit_all, commit, encoded, ledger, empty, full, start, with_request, with_decision,
  times-ReadsTimes, commit-IsStorable, encode_run, request_run, decision_run, effects_run, review,
  deny,
}
use agent_action_control.Application.Service.{
  decide, continue, validate_policy_evaluation, validate_authoritative_decision,
  valid_policy_effect, read_clock, prepare_policy_effects, normalize_decision_request_id,
  new_required_id, new_commit, evaluate_with, evaluate_new, check_rule_ids, check_effects,
  DecisionService, evaluate, prepare, EvaluateActionCommand,
}
use agent_action_control.Storage.Ledger.{
  query_evaluation, query_error, decision_record_from_commit, commit_evaluation,
  get_evaluation_by_request_id,
}
use agent_action_control.Storage.Database.{open_call, World}

abbrev command : EvaluateActionCommand
command = record { request_id = " req-1 "; proposed_action = send_input }

abbrev policy : PolicyEvaluator World
policy = λ a w. (
  ok (record {
    deny_reason_codes = deny.reason_codes;
    effects = create_safety_review review ∷ [];
    matched_rule_ids = "rule-1" ∷ [];
    policy_version = "v1";
  }),
  w,
)

abbrev clock : Clock World
clock = λ w. (record { instant = pos 9; location = "Local" }, w)

abbrev ids : IdGenerator World
ids = λ kind w. (ok (if kind == "DECISION" then "dec-1" else "eff-1"), w)

abbrev service : DecisionService World
service = record {
  policy_evaluator = policy;
  decision_ledger = sqlite_ledger ledger;
  clock = clock;
  id_generator = ids;
}

prepare_run : prepare caller command ≡ ok ("req-1", send_action, a_digest)
unfolding prepare normalize_decision_request_id trim_space trim_left trim_right keep is_space
    compute_action_digest canonical_action_bytes canonical_action canonical_parameters
prepare_run = rw (normalize_run, rebuild_of_IsAction send_action send-IsAction) refl

lookup_run :
    get_evaluation_by_request_id ledger "rt-1" "req-1" start
    ≡ (err (evaluation_not_found ∷ []), start)
unfolding get_evaluation_by_request_id query_evaluation open_call insert_each select_evaluation
    find_request find_decision query_error is same identity trim_space trim_left trim_right keep
    is_space
lookup_run = refl

commit_run :
    commit_evaluation ledger commit start
    ≡ (ok (decision_record_from_commit commit), record { tables = full; schedule = [] })
commit_run =
    (commit_evaluation-get_evaluation_by_request_id commit encoded commit-IsStorable ledger empty
      with_request with_decision full times-ReadsTimes refl encode_run request_run decision_run
      effects_run).0

evaluate_run :
    evaluate (some service) caller command start
    ≡ (ok (decision_record_from_commit commit), record { tables = full; schedule = [] })
unfolding evaluate evaluate_with continue evaluate_new decide new_commit new_required_id
    prepare_policy_effects read_clock validate_policy_evaluation check_rule_ids check_effects
    valid_policy_effect policy_effect_type_valid compose contains_terminal_reason contains_reason
    new_deny_decision collect_reasons collect_actions reason_code_valid required_action_valid
    required_action_type_valid validate_authoritative_decision decision_type_valid is_zero utc is
    same identity trim_space trim_left trim_right keep is_space decision_record_from_commit
evaluate_run = rw (prepare_run, lookup_run, commit_run) refl

range : IsInRange caller send_action clock
unfolding trim_space trim_left trim_right keep is_space
range = record {
  runtime = record {
    trimmed = refl;
    short = omega arith;
    present = λ h. ground (arith, eq_iff "rt-1" "");
  };
  requested = refl;
  size = refl;
  told = λ w. refl;
}

evaluate-IsBound_example : IsBound "rt-1" "req-1" a_digest (decision_record_from_commit commit) full
unfolding is same identity
evaluate-IsBound_example =
    evaluate-IsBound ledger policy clock ids caller command start start
      (record { tables = full; schedule = [] }) (decision_record_from_commit commit) "req-1"
      send_action a_digest (evaluation_not_found ∷ []) times-ReadsTimes range prepare_run lookup_run
      refl evaluate_run

evaluate-retry_example :
    evaluate (some (service_over ledger policy clock ids)) caller command (quietly full)
    ≡ (ok (decision_record_from_commit commit), quietly full)
unfolding is same identity
evaluate-retry_example =
    evaluate-retry ledger policy clock ids caller command start start
      (record { tables = full; schedule = [] }) (decision_record_from_commit commit) "req-1"
      send_action a_digest (evaluation_not_found ∷ []) refl times-ReadsTimes range prepare_run
      lookup_run refl evaluate_run
