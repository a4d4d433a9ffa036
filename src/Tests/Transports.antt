-- ===== src/Tests/Transports.antt =====
-- The HTTP handler on a request, with an evaluator that answers a denial.
use agent_action_control.Domain.Principal.{principal_type_valid, parse_principal_type}
use agent_action_control.Domain.Action.{parse_action_type, action_type_valid}
use agent_action_control.Transport.Mapper.{
  to_principal_input, to_evaluate_action_command, to_action_parameters, to_decision_response,
}
use agent_action_control.Json.Strings.{scan_string, resolve}
use agent_action_control.Json.Parse.{skip, read_number, parse_value, parse}
use agent_action_control.Json.Numbers.{take_number, number_step, number_run, is_number}
use agent_action_control.Json.Chars.{to_char, hex_value}
use agent_action_control.Json.Unmarshal.{
  unmarshal, names, into_struct, into_string, into_fields, into_bool, fold_char,
}
use agent_action_control.Transport.Decode.{
  validate_dto_parameters, set_request, set_dto_principal, set_dto_delete, set_dto_delegation,
  set_dto_action, into_time, decode_evaluate_action_request,
}
use agent_action_control.Domain.Decision.{
  reason_external_destination, reason_code_valid, decision_deny,
}
use agent_action_control.Strings.{is_space, cut_prefix}
use agent_action_control.Transport.Server.Laws.{
  evaluate_action-IsAuthorized, IsAuthorized, bearer, write_outcome_of_IsDecision,
  bearer_credential-bearer,
}
use agent_action_control.Prelude.{
  eqb, true, ◌≡◌, ◌∷◌, ℕ, suc, refl, pos, inr, eq_iff, arith, [], String,
}
use agent_action_control.Domain.Decision.Laws.{IsDeny}
use agent_action_control.Transport.Server.{
  fields, write_response, write_record, split_words, evaluate_decoded, evaluate_command,
  evaluate_authenticated, evaluate_action, credential_of, write_outcome, read_request,
  decision_body, bearer_credential, Handler,
}
use agent_action_control.Transport.Dto.{
  validate_response, has_approval_reason, check_required_actions, JsonTimes,
}
use agent_action_control.Application.Evaluation.{DecisionRecord}
use agent_action_control.Errors.{traverse, ok}
use agent_action_control.Tests.Fixtures.{caller, a_digest}

instance abbrev json_times : JsonTimes
json_times = record { read_time = λ s. ok (record { instant = pos 5; location = "UTC" }) }

abbrev denial : DecisionRecord
denial = record {
  decision_id = "dec-1";
  decision = record {
    typ = decision_deny;
    reason_codes = reason_external_destination ∷ [];
    required_actions = [];
  };
  action_digest = a_digest;
  policy_version = "v1";
  matched_rule_ids = [];
  evaluated_at = record { instant = pos 9; location = "UTC" };
}

denial-IsDeny : IsDeny denial.decision
unfolding reason_code_valid
denial-IsDeny = record {
  denied = refl;
  reasoned = refl;
  known = refl;
  distinct = (refl, tt);
  approval = refl;
}

abbrev count : ℕ
count = 0

write_outcome_of_IsDecision_example : write_outcome "req-1" (ok denial, count) ≡ (
  record {
    status = 200;
    body = decision_body (record {
      api_version = "v1";
      request_id = "req-1";
      decision_id = denial.decision_id;
      action_digest = denial.action_digest;
      decision = "DENY";
      reason_codes = denial.decision.reason_codes;
      required_actions = [];
      policy = denial.policy_version;
      evaluated_at = denial.evaluated_at;
    });
  },
  count,
)
write_outcome_of_IsDecision_example =
    write_outcome_of_IsDecision "req-1" denial count (inr denial-IsDeny)

bearer_credential-bearer_example : bearer_credential (bearer "t-1") ≡ ok "t-1"
unfolding is_space
bearer_credential-bearer_example =
    bearer_credential-bearer "t-1" (λ h. ground (arith, eq_iff "t-1" "")) refl

abbrev handler : Handler ℕ
handler = record {
  runtime_authenticator = λ token. ok caller;
  decision_evaluator = λ runtime command s. (ok denial, suc s);
}

abbrev request_body : String
request_body =
    "{\"apiVersion\":\"v1\",\"requestId\":\"r\",\"proposedAction\":{\"type\":\"DELETE\",\"delegation\":{\"delegator\":{\"type\":\"USER\"}},\"parameters\":{\"deleteMode\":\"HARD\"}}}"

answer_run : eqb (evaluate_action handler (bearer "t-1") request_body count).0.status 200 ≡ true
unfolding evaluate_action evaluate_authenticated evaluate_decoded evaluate_command write_outcome
    write_record write_response validate_response to_decision_response check_required_actions
    has_approval_reason bearer_credential credential_of fields split_words is_space read_request
    decode_evaluate_action_request unmarshal parse parse_value skip scan_string resolve read_number
    take_number is_number number_run number_step into_struct into_fields set_request set_dto_action
    set_dto_delegation set_dto_principal set_dto_delete names fold_char into_string into_time
    into_bool validate_dto_parameters hex_value to_char cut_prefix to_evaluate_action_command
    to_action_parameters to_principal_input parse_action_type action_type_valid traverse
    parse_principal_type principal_type_valid
answer_run = refl

evaluate_action-IsAuthorized_example :
    IsAuthorized handler
      (bearer "t-1")
      count
      (evaluate_action handler (bearer "t-1") request_body count).0
evaluate_action-IsAuthorized_example =
    evaluate_action-IsAuthorized handler (bearer "t-1") request_body count answer_run
