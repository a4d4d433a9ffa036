-- ===== src/Storage/Ledger.antt =====
-- internal/storage/sqlite/ledger.go over the tables and the calls of the database. `RowsAffected`
-- fails with its statement.
pub mod Steps
pub mod Binding
pub mod RoundTrip
pub mod Service
pub mod Retry
pub mod Answers
pub mod Invariant
use agent_action_control.Storage.Database.{
  World, open_call, locked_call, commit_transaction, scan_rows,
}
use agent_action_control.Storage.Decode.Decisions.{required_actions_json}
use agent_action_control.Time.{utc}
use agent_action_control.Json.Unmarshal.{unmarshal}
use agent_action_control.Storage.Unmarshal.{into_strings}
use agent_action_control.Domain.CanonicalValue.{action_json}
use agent_action_control.Strings.{trim_space, Unicode}
use agent_action_control.Storage.Decode.{decode_decision, decode_action, Times}
use agent_action_control.Application.Ports.{lift, on_error, after, Run}
use agent_action_control.Storage.Encode.{
  context_json, encode_evaluation, EncodedPolicyEffect, EncodedEvaluation,
}
use agent_action_control.Domain.Canonical.{compute_action_digest, Digests}
use agent_action_control.Application.Evaluation.{StoredEvaluation, EvaluationCommit, DecisionRecord}
use agent_action_control.Storage.Tables.{
  select_evaluation, insert_request, insert_effects, insert_each, insert_decision, Tables,
  PolicyEffectRow, Insertion, DecisionRow, Checks, ActionRequestRow,
}
use agent_action_control.Domain.Action.{parse_action_digest, ActionDigest}
use agent_action_control.Prelude.{
  ◌∷◌, ◌||◌, true, some, not, none, map, if◌then◌else◌, false, [], String, Option, List, Bool, ◌==◌,
}
use agent_action_control.Errors.{
  ◌>>=◌, ◌>>◌, ok, err, Result, Error, refuse_if, hide, is, invalid_input, ledger_failure,
  evaluation_not_found, no_rows, request_id_conflict,
}

-- `*sql.DB`, and `none` is its nil.
abbrev pub SqlDatabase : Type 0
SqlDatabase = Option (Unit {0})

pub record SqliteLedger : Type 0 where
  pub database : SqlDatabase

unfoldable pub new_decision_ledger : SqlDatabase → Result SqliteLedger
new_decision_ledger none = err (invalid_input ∷ [])
new_decision_ledger (some database) = ok (record { database = some database })

-- `ledger != nil && ledger.database != nil`
abbrev pub is_initialized : Option SqliteLedger → Bool
is_initialized none = false
is_initialized (some ledger) = elim ledger.database [ none ↦ false | some database ↦ true ]

unfoldable pub resolve_existing : StoredEvaluation → ActionDigest → Result DecisionRecord
resolve_existing existing digest =
    if not (existing.decision.action_digest == digest)
    then err (request_id_conflict ∷ [])
    else ok existing.decision

unfoldable pub decision_record_from_commit : EvaluationCommit → DecisionRecord
decision_record_from_commit commit = record {
  decision_id = commit.decision_id;
  decision = commit.decision;
  action_digest = commit.action_digest;
  policy_version = commit.policy_version;
  matched_rule_ids = commit.matched_rule_ids;
  evaluated_at = utc commit.evaluated_at;
}

module _ ⦃t : Times⦄ where
  unfoldable pub action_request_row : EvaluationCommit → String → ActionRequestRow
  action_request_row commit action_json = record {
    runtime_id = commit.runtime_id;
    request_id = commit.request_id;
    action_digest = commit.action_digest;
    action_type = commit.action.typ;
    action_schema_version = 1;
    normalized_action_json = action_json;
    created_at = t.format_nano commit.evaluated_at.instant;
  }

  unfoldable pub decision_row : EvaluationCommit → EncodedEvaluation → DecisionRow
  decision_row commit encoded = record {
    decision_id = commit.decision_id;
    runtime_id = commit.runtime_id;
    request_id = commit.request_id;
    decision_type = commit.decision.typ;
    reason_codes_json = encoded.reason_codes_json;
    required_action_types_json = encoded.required_actions_json;
    policy_version = commit.policy_version;
    matched_rule_ids_json = encoded.matched_rule_ids_json;
    evaluated_at = t.format_nano commit.evaluated_at.instant;
  }

  unfoldable pub policy_effect_row : EvaluationCommit → EncodedPolicyEffect → PolicyEffectRow
  policy_effect_row commit effect = record {
    effect_id = effect.effect_id;
    decision_id = commit.decision_id;
    effect_type = effect.typ;
    effect_context_json = effect.context_json;
    idempotency_key = effect.idempotency_key;
    dispatch_status = "PENDING";
    attempt_count = 0;
    created_at = t.format_nano commit.evaluated_at.instant;
    updated_at = t.format_nano commit.evaluated_at.instant;
  }

module _ ⦃k : Checks⦄ where
  -- `QueryRowContext` and `Scan`.
  unfoldable pub query_evaluation :
      (runtime_id request_id : String) → Run World (ActionRequestRow × DecisionRow)
  unfolding open_call
  query_evaluation runtime_id request_id w =
      open_call (λ tables. scan_rows (select_evaluation runtime_id request_id tables)) w

  module _ ⦃u : Unicode⦄ ⦃d : Digests⦄ ⦃t : Times⦄ where
    -- `GetEvaluationByRequestID` behind the query.
    unfoldable pub restore_evaluation :
        (runtime_id request_id : String) → ActionRequestRow × DecisionRow → Result StoredEvaluation
    restore_evaluation runtime_id request_id (a, row) = do
      action ← hide ledger_failure (decode_action a.normalized_action_json)
      digest ← hide ledger_failure (parse_action_digest a.action_digest)
      computed_digest ← hide ledger_failure (compute_action_digest action)
      refuse_if (not (computed_digest == digest)) (ledger_failure ∷ [])
      decision ←
          hide ledger_failure
            (decode_decision row.decision_type row.reason_codes_json row.required_action_types_json)
      matched_rule_ids ← hide ledger_failure (unmarshal into_strings [] row.matched_rule_ids_json)
      evaluated_time ← hide ledger_failure (t.parse_nano row.evaluated_at)
      ok (record {
        runtime_id = runtime_id;
        request_id = request_id;
        action = action;
        decision = record {
          decision_id = row.decision_id;
          decision = decision;
          action_digest = digest;
          policy_version = row.policy_version;
          matched_rule_ids = matched_rule_ids;
          evaluated_at = utc evaluated_time;
        };
      })

    -- What becomes of an error of the query.
    unfoldable pub query_error : Error → Error
    query_error e = if is e no_rows then evaluation_not_found ∷ [] else ledger_failure ∷ e

    unfoldable pub get_evaluation_by_request_id :
        Option SqliteLedger → (runtime_id request_id : String) → Run World StoredEvaluation
    unfolding restore_evaluation query_evaluation query_error
    get_evaluation_by_request_id ledger runtime_id request_id w =
        let runtime_id = trim_space runtime_id in
        let request_id = trim_space request_id in
        if not (is_initialized ledger)
        then (err (ledger_failure ∷ []), w)
        else if runtime_id == "" || request_id == ""
        then (err (invalid_input ∷ []), w)
        else after (on_error query_error (query_evaluation runtime_id request_id w))
            λ rows. lift (restore_evaluation runtime_id request_id rows)

    unfoldable pub resolve_commit_race :
        Option SqliteLedger → EvaluationCommit → Run World DecisionRecord
    resolve_commit_race ledger commit w =
        after (get_evaluation_by_request_id ledger commit.runtime_id commit.request_id w)
          λ existing. lift (resolve_existing existing commit.action_digest)

    -- The record that has won a race, or the error of the statement that lost it.
    unfoldable pub resolve_or_fail :
        Option SqliteLedger → EvaluationCommit → Run World DecisionRecord
    unfolding resolve_commit_race
    resolve_or_fail ledger commit w =
        on_error (λ e. ledger_failure ∷ []) (resolve_commit_race ledger commit w)

    -- The answer of `CommitEvaluation` behind `transaction.Commit()`.
    unfoldable pub conclude :
        Option SqliteLedger
        → EvaluationCommit
        → Result (Unit {0}) × World
        → Result DecisionRecord × World
    unfolding resolve_or_fail
    conclude ledger commit (ok done, w) = (ok (decision_record_from_commit commit), w)
    conclude ledger commit (err e, w) = resolve_or_fail ledger commit w

    -- The inserts behind the first, and the commit. The loop over the effects is one call: where one
    -- of them fails, none is committed.
    unfoldable pub finish_commit :
        Option SqliteLedger
        → EvaluationCommit
        → EncodedEvaluation
        → Tables
        → Run World DecisionRecord
    unfolding conclude
    finish_commit ledger commit encoded tables w =
        after
          (on_error (λ e. ledger_failure ∷ e)
            (locked_call (insert_decision (decision_row commit encoded) tables) w))
          λ tables. λ w.
            after
              (on_error (λ e. ledger_failure ∷ e)
                (locked_call
                  (insert_effects (map (policy_effect_row commit) encoded.effects) tables) w))
              λ tables. λ w. conclude ledger commit (commit_transaction tables w)

    -- What `CommitEvaluation` does with the answer to its first insert.
    unfoldable pub after_insert :
        Option SqliteLedger
        → EvaluationCommit
        → EncodedEvaluation
        → Result (Bool × Tables) × World
        → Result DecisionRecord × World
    unfolding resolve_or_fail finish_commit
    after_insert ledger commit encoded (err e, w) = resolve_or_fail ledger commit w
    after_insert ledger commit encoded (ok (false, tables), w) = resolve_commit_race ledger commit w
    after_insert ledger commit encoded (ok (true, tables), w) =
        finish_commit ledger commit encoded tables w

    -- `CommitEvaluation` for a request that has not been found.
    unfoldable pub insert_evaluation :
        Option SqliteLedger → EvaluationCommit → EncodedEvaluation → Run World DecisionRecord
    unfolding after_insert
    insert_evaluation ledger commit encoded w =
        after (on_error (λ e. ledger_failure ∷ e) (open_call (λ tables. ok tt) w)) λ begun. λ w.
          after_insert ledger commit encoded
            (open_call (insert_request (action_request_row commit encoded.action_json)) w)

    -- What `CommitEvaluation` does with the answer to its lookup.
    unfoldable pub commit_unless_known :
        Option SqliteLedger
        → EvaluationCommit
        → EncodedEvaluation
        → Result StoredEvaluation × World
        → Result DecisionRecord × World
    commit_unless_known ledger commit encoded (ok existing, w) =
        (resolve_existing existing commit.action_digest, w)
    commit_unless_known ledger commit encoded (err e, w) = elim (is e evaluation_not_found) [
      | true ↦ insert_evaluation ledger commit encoded w
      | false ↦ (err e, w)
    ]

    unfoldable pub commit_evaluation :
        Option SqliteLedger → EvaluationCommit → Run World DecisionRecord
    unfolding commit_unless_known
    commit_evaluation ledger commit w =
        if not (is_initialized ledger)
        then (err (ledger_failure ∷ []), w)
        else after (encode_evaluation commit, w)
            λ encoded. λ w.
              commit_unless_known ledger commit encoded
                (get_evaluation_by_request_id ledger commit.runtime_id commit.request_id w)
