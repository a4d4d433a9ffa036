-- ===== src/Tests/Ledgers.antt =====
-- The ledger on a commit of an action, with a table of times that reads what it writes.
use agent_action_control.Storage.Tables.Invariant.{IsTables}
use agent_action_control.Json.Print.{marshal_json}
use agent_action_control.Strings.{
  keep, trim_space, trim_right, trim_prefix, trim_left, is_space, has_prefix, cut_prefix,
}
use agent_action_control.Domain.Canonical.Laws.{canonical_action-total}
use agent_action_control.Domain.CanonicalValue.{marshal, json_strings}
use agent_action_control.Domain.Action.{
  validate_sha256_digest, parse_action_digest, is_lower_hex, action_digest_valid,
}
use agent_action_control.Storage.Ledger.Answers.{commit_evaluation-IsStored, IsStored}
use agent_action_control.Storage.Ledger.RoundTrip.{
  stored_evaluation, commit_evaluation-get_evaluation_by_request_id, IsStorable,
}
use agent_action_control.Storage.Ledger.Invariant.{
  IsComplete, commit_evaluation-IsTables, commit_evaluation-AllOrNothing, AllOrNothing,
}
use agent_action_control.Tests.Fixtures.{ascii, digests}
use agent_action_control.Tests.Actions.{send-IsAction}
use agent_action_control.Json.Numbers.RoundTrip.{read_int-number_text}
use agent_action_control.Storage.Decode.Decisions.{
  required_actions_json, reasons_json, decode_decision_of_IsDecision,
}
use agent_action_control.Storage.Decode.RoundTrip.{decode_action-canonical_action_bytes}
use agent_action_control.Domain.Canonical.{compute_action_digest, canonical_action_bytes}
use agent_action_control.Tests.Fixtures.{digests, send_action, a_digest}
use agent_action_control.Time.{is_zero, Time}
use agent_action_control.Storage.Decode.{decode_decision, decode_action, Times, ReadsTimes}
use agent_action_control.Prelude.{
  map, ap, ◌≡◌, ◌∷◌, ℤ, true, some, refl, pos, none, inr, [], String, Option,
}
use agent_action_control.Domain.Decision.Laws.{IsDeny}
use agent_action_control.Application.Evaluation.{DecisionRecord, EvaluationCommit}
use agent_action_control.Storage.Encode.{
  validate_strings, required_action_values, reason_values, policy_effect_idempotency_key,
  encode_effects_from, encode_effects, context_value, context_json, encode_evaluation, check_commit,
  EncodedEvaluation,
}
use agent_action_control.Domain.Decision.{
  required_action_type_valid, decision_type_valid, reason_external_destination,
  reason_delegator_approval_required, reason_code_valid, new_require_approval_action, decision_deny,
  Decision,
}
use agent_action_control.Domain.Effect.{
  policy_effect_type_valid, policy_effect_create_safety_review, safety_review_high,
  create_safety_review, CreateSafetyReviewEffect,
}
use agent_action_control.Errors.{Result, ok, err}
use agent_action_control.Storage.Ledger.{
  get_evaluation_by_request_id, policy_effect_row, decision_row, decision_record_from_commit,
  action_request_row, SqliteLedger, commit_evaluation,
}
use agent_action_control.Storage.Database.{quiet, World}
use agent_action_control.Storage.Tables.{
  insert_effects, insert_request, insert_effect, insert_decision, has_request, has_effect,
  has_decision_id, has_decision, Checks, Tables,
}
use agent_action_control.Json.Numbers.{read_int, number_text}

abbrev pub time_of : Option ℤ → Result Time
time_of none = err []
time_of (some n) = ok (record { instant = n; location = "UTC" })

instance abbrev pub times : Times
times = record { parse_nano = λ s. time_of (read_int s); format_nano = number_text }

pub times-ReadsTimes : ReadsTimes digests times
times-ReadsTimes = record {
  reads_nano = λ n h. rw (read_int-number_text n) refl;
  reads_canonical = λ n h. rw (read_int-number_text n) refl;
}

instance abbrev pub admit_all : Checks
admit_all = record {
  admits_request = λ row. true;
  admits_decision = λ row. true;
  admits_effect = λ row. true;
}

decode_action-canonical_action_bytes_example :
    (bytes : String) × (canonical_action_bytes send_action ≡ ok bytes)
    × (decode_action bytes ≡ ok send_action)
decode_action-canonical_action_bytes_example =
    decode_action-canonical_action_bytes send_action send-IsAction times-ReadsTimes refl refl

abbrev pub deny : Decision
deny = record {
  typ = decision_deny;
  reason_codes = reason_delegator_approval_required ∷ reason_external_destination ∷ [];
  required_actions = new_require_approval_action ∷ [];
}

pub deny-IsDeny : IsDeny deny
unfolding reason_code_valid
deny-IsDeny = record {
  denied = refl;
  reasoned = refl;
  known = refl;
  distinct = (refl, (refl, tt));
  approval = refl;
}

decode_decision_of_IsDecision_example :
    decode_decision deny.typ (reasons_json deny) (required_actions_json deny) ≡ ok deny
decode_decision_of_IsDecision_example = decode_decision_of_IsDecision deny (inr deny-IsDeny)

abbrev pub review : CreateSafetyReviewEffect
review = record { requirement = record { priority = safety_review_high; evidence_refs = [] } }

abbrev pub commit : EvaluationCommit
commit = record {
  runtime_id = "rt-1";
  request_id = "req-1";
  action = send_action;
  action_digest = a_digest;
  decision_id = "dec-1";
  decision = deny;
  policy_version = "v1";
  matched_rule_ids = "rule-1" ∷ [];
  effects = record { effect_id = "eff-1"; effect = create_safety_review review } ∷ [];
  evaluated_at = record { instant = pos 9; location = "UTC" };
}

abbrev pub send_text : String
send_text = marshal (canonical_action-total send_action send-IsAction).0

send_run : canonical_action_bytes send_action ≡ ok send_text
unfolding canonical_action_bytes
send_run = rw ((canonical_action-total send_action send-IsAction).1) refl

abbrev pub encoded : EncodedEvaluation
encoded = record {
  action_json = send_text;
  reason_codes_json = reasons_json deny;
  required_actions_json = required_actions_json deny;
  matched_rule_ids_json = marshal_json (json_strings ("rule-1" ∷ []));
  effects =
      record {
        effect_id = "eff-1";
        typ = policy_effect_create_safety_review;
        context_json = marshal_json (context_json (context_value review));
        idempotency_key =
            policy_effect_idempotency_key "rt-1" "req-1" policy_effect_create_safety_review;
      }
      ∷ [];
}

digest_run : compute_action_digest send_action ≡ ok a_digest
unfolding compute_action_digest
digest_run = rw (send_run) refl

check_run : check_commit commit ≡ ok tt
unfolding check_commit trim_space trim_left trim_right keep is_space action_digest_valid
    parse_action_digest validate_sha256_digest is_lower_hex has_prefix trim_prefix cut_prefix
    decision_type_valid is_zero validate_strings
check_run = rw (digest_run) refl

pub encode_run : encode_evaluation commit ≡ ok encoded
unfolding encode_evaluation reason_values required_action_values reason_code_valid
    required_action_type_valid encode_effects encode_effects_from policy_effect_type_valid
    trim_space trim_left trim_right keep is_space
encode_run = rw (check_run, send_run) refl

pub commit-IsStorable : IsStorable commit
unfolding trim_space trim_left trim_right keep is_space
commit-IsStorable = record {
  action = send-IsAction;
  requested = refl;
  size = refl;
  decision = inr deny-IsDeny;
  evaluated = refl;
  runtime_trimmed = refl;
  request_trimmed = refl;
  runtime_present = refl;
  request_present = refl;
}

abbrev pub ledger : Option SqliteLedger
ledger = some (record { database = some tt })

abbrev pub empty : Tables
empty = record { action_requests = []; decisions = []; policy_effects = [] }

abbrev pub with_request : Tables
with_request = record empty { action_requests = action_request_row commit encoded.action_json ∷ [] }

abbrev pub with_decision : Tables
with_decision = record with_request { decisions = decision_row commit encoded ∷ [] }

abbrev pub full : Tables
full = record with_decision { policy_effects = map (policy_effect_row commit) encoded.effects }

pub request_run :
    insert_request (action_request_row commit encoded.action_json) empty ≡ ok (true, with_request)
unfolding insert_request has_request
request_run = refl

pub decision_run : insert_decision (decision_row commit encoded) with_request ≡ ok with_decision
unfolding insert_decision has_request has_decision has_decision_id decision_row action_request_row
decision_run = refl

pub effects_run :
    insert_effects (map (policy_effect_row commit) encoded.effects) with_decision ≡ ok full
unfolding insert_effects insert_effect has_effect has_decision_id decision_row policy_effect_row
effects_run = refl

commit_evaluation-get_evaluation_by_request_id_example :
    (commit_evaluation ledger commit (record { tables = empty; schedule = [] })
      ≡ (ok (decision_record_from_commit commit), record { tables = full; schedule = [] }))
    × (get_evaluation_by_request_id ledger commit.runtime_id commit.request_id
          (record { tables = full; schedule = [] })
        ≡ (ok (stored_evaluation commit), record { tables = full; schedule = [] }))
commit_evaluation-get_evaluation_by_request_id_example =
    commit_evaluation-get_evaluation_by_request_id commit encoded commit-IsStorable ledger empty
      with_request with_decision full times-ReadsTimes refl encode_run request_run decision_run
      effects_run

abbrev pub start : World
start = record { tables = empty; schedule = [] }

-- The commit fails before its transaction ends.
abbrev failing : World
failing = record {
  tables = empty;
  schedule = quiet ∷ quiet ∷ quiet ∷ record quiet { fails = true } ∷ [];
}

empty-IsTables : IsTables empty
empty-IsTables = record {
  requests = tt;
  decisions_once = tt;
  effects_once = tt;
  decisions_refer = tt;
  effects_refer = tt;
}

commit_evaluation-IsTables_example : IsComplete (commit_evaluation ledger commit failing).1.tables
commit_evaluation-IsTables_example =
    commit_evaluation-IsTables ledger commit failing (tt, (tt, (tt, (tt, tt)))) (empty-IsTables, tt)

commit_evaluation-AllOrNothing_example :
    AllOrNothing commit empty (commit_evaluation ledger commit failing).1.tables
commit_evaluation-AllOrNothing_example =
    commit_evaluation-AllOrNothing ledger commit failing (refl, (refl, (refl, (refl, tt))))

answered : (commit_evaluation ledger commit start).0 ≡ ok (decision_record_from_commit commit)
answered =
    ap (λ (o : Result DecisionRecord × World). o.0)
      (commit_evaluation-get_evaluation_by_request_id commit encoded commit-IsStorable ledger empty
        with_request with_decision full times-ReadsTimes refl encode_run request_run decision_run
        effects_run).0

commit_evaluation-IsStored_example :
    IsStored commit
      (decision_record_from_commit commit)
      (commit_evaluation ledger commit start).1.tables
unfolding trim_space trim_left trim_right keep is_space
commit_evaluation-IsStored_example =
    commit_evaluation-IsStored ledger commit times-ReadsTimes commit-IsStorable start
      (decision_record_from_commit commit) answered
