-- ===== src/Storage/Ledger/RoundTrip.antt =====
-- A commit with no other process and without failures, and the lookup behind it.
use agent_action_control.Storage.Tables.Transactions.{insert_transaction}
use agent_action_control.Storage.Ledger.Steps.{insertion}
use agent_action_control.Domain.Action.Laws.{parse_action_digest_of_valid}
use agent_action_control.Application.Ports.{lift, after, on_error}
use agent_action_control.Domain.Action.{parse_action_digest}
use agent_action_control.Storage.Unmarshal.Canonical.{is_size}
use agent_action_control.Storage.Decode.Decisions.{
  unmarshal-json_strings, decode_decision_of_IsDecision,
}
use agent_action_control.Storage.Decode.RoundTrip.{decode_action-canonical_action_bytes}
use agent_action_control.Strings.{trim_space, Unicode}
use agent_action_control.Storage.Decode.{in_years, decode_action, Times, ReadsTimes}
use agent_action_control.Storage.Encode.Laws.{encode_evaluation-IsEncoded, IsEncoded}
use agent_action_control.Domain.Decision.Laws.{IsDecision}
use agent_action_control.Domain.ProposedAction.Laws.{IsAction}
use agent_action_control.Application.Evaluation.{StoredEvaluation, EvaluationCommit}
use agent_action_control.Storage.Encode.{encode_evaluation, EncodedEvaluation}
use agent_action_control.Domain.Canonical.{Digests}
use agent_action_control.Prelude.{
  any, String, ◌∙◌, some, map, Option, ◌≡◌, ◌∷◌, true, refl, none, false, eq_refl, arith, [], List,
  Bool, ◌==◌,
}
use agent_action_control.Errors.{identity, same, is, evaluation_not_found, ok, err}
use agent_action_control.Storage.Ledger.{
  conclude, policy_effect_row, insert_evaluation, finish_commit, commit_unless_known, after_insert,
  get_evaluation_by_request_id, query_evaluation, query_error, is_initialized, SqliteLedger,
  restore_evaluation, decision_row, decision_record_from_commit, action_request_row,
  commit_evaluation,
}
use agent_action_control.Storage.Database.{locked_call, commit_transaction, open_call, scan_rows}
use agent_action_control.Storage.Tables.{
  is_request_of, insert_request, insert_effects, insert_decision, has_request, find_request,
  select_evaluation, insert_each, find_decision, find, Checks, Tables,
}
use agent_action_control.Time.{utc}

find-any : {A : Type 0} (p : A → Bool) (xs : List A) → any p xs ≡ false → find p xs ≡ none
find-any p [] h = refl
find-any p (x ∷ xs) h = ground (arith, find-any p xs)

-- Trimmed and not empty.
pub record IsKey (s : String) : Type 0 where
  pub trimmed : trim_space s ≡ s
  pub present : (s == "") ≡ false

module _ ⦃k : Checks⦄ ⦃u : Unicode⦄ ⦃d : Digests⦄ ⦃t : Times⦄ where
  -- A commit whose facts can be stored: the action and the decision are normal, and the times and
  -- the size are in the ranges that can be written and read.
  pub record IsStorable (commit : EvaluationCommit) : Type 0 where
    pub action : IsAction commit.action
    pub requested : in_years commit.action.requested_at.instant ≡ true
    pub size : is_size commit.action.payload.size_bytes ≡ true
    pub decision : IsDecision commit.decision
    pub evaluated : in_years commit.evaluated_at.instant ≡ true
    pub runtime_trimmed : trim_space commit.runtime_id ≡ commit.runtime_id
    pub request_trimmed : trim_space commit.request_id ≡ commit.request_id
    pub runtime_present : (commit.runtime_id == "") ≡ false
    pub request_present : (commit.request_id == "") ≡ false

  -- The rows of its own transaction.
  pub select_evaluation-own :
      (commit : EvaluationCommit) (encoded : EncodedEvaluation) (before t1 t2 t3 : Tables)
      → insert_request (action_request_row commit encoded.action_json) before ≡ ok (true, t1)
      → insert_decision (decision_row commit encoded) t1 ≡ ok t2
      → insert_effects (map (policy_effect_row commit) encoded.effects) t2 ≡ ok t3
      → select_evaluation commit.runtime_id commit.request_id t3
        ≡ some (action_request_row commit encoded.action_json, decision_row commit encoded)
  unfolding select_evaluation find_request find_decision action_request_row decision_row
  select_evaluation-own commit encoded before t1 t2 t3 a b c =
      let (requests, decisions) =
        insert_transaction (insertion commit encoded) before t1 t2 t3 a b c in
      rw (requests, decisions, eq_refl commit.runtime_id, eq_refl commit.request_id) refl

  runtime-IsKey : (commit : EvaluationCommit) → IsStorable commit → IsKey commit.runtime_id
  runtime-IsKey commit h = record { trimmed = h.runtime_trimmed; present = h.runtime_present }

  request-IsKey : (commit : EvaluationCommit) → IsStorable commit → IsKey commit.request_id
  request-IsKey commit h = record { trimmed = h.request_trimmed; present = h.request_present }

  -- What the lookup makes of the rows of a commit.
  abbrev pub stored_evaluation : EvaluationCommit → StoredEvaluation
  stored_evaluation commit = record {
    runtime_id = commit.runtime_id;
    request_id = commit.request_id;
    action = commit.action;
    decision = decision_record_from_commit commit;
  }

  pub restore_evaluation-rows :
      (commit : EvaluationCommit) (encoded : EncodedEvaluation)
      → ReadsTimes d t
      → IsStorable commit
      → IsEncoded commit encoded
      → restore_evaluation commit.runtime_id commit.request_id
          (action_request_row commit encoded.action_json, decision_row commit encoded)
        ≡ ok (stored_evaluation commit)
  unfolding restore_evaluation action_request_row decision_row decision_record_from_commit utc
  restore_evaluation-rows commit encoded reads h e =
      let (bytes, q, back) =
        decode_action-canonical_action_bytes commit.action h.action reads h.requested h.size in
      let action = e.action in
      let decoded : decode_action encoded.action_json ≡ ok commit.action = ground arith in
      let digest : parse_action_digest commit.action_digest ≡ ok commit.action_digest =
        parse_action_digest_of_valid commit.action_digest e.valid in
      let decision = decode_decision_of_IsDecision commit.decision h.decision in
      let rules = unmarshal-json_strings commit.matched_rule_ids in
      let time = reads.reads_nano commit.evaluated_at.instant h.evaluated in
      rw
        (
          decoded,
          digest,
          e.digest,
          eq_refl commit.action_digest,
          e.reasons,
          e.required,
          decision,
          e.rules,
          rules,
          time,
        )
        refl

  -- A lookup with no other process and without failures.
  pub get_evaluation_by_request_id-quiet :
      (runtime_id request_id : String)
      → IsKey runtime_id
      → IsKey request_id
      → (ledger : Option SqliteLedger) (tables : Tables) → is_initialized ledger ≡ true
      → get_evaluation_by_request_id ledger runtime_id request_id
          (record { tables = tables; schedule = [] })
        ≡ after
            (on_error query_error (
              scan_rows (select_evaluation runtime_id request_id tables),
              record { tables = tables; schedule = [] },
            ))
            λ rows. lift (restore_evaluation runtime_id request_id rows)
  unfolding get_evaluation_by_request_id query_evaluation open_call insert_each
  get_evaluation_by_request_id-quiet runtime_id request_id h k ledger tables init =
      rw (init, h.trimmed, k.trimmed, h.present, k.present) refl

  module _ (commit : EvaluationCommit) (encoded : EncodedEvaluation) (h : IsStorable commit) where
    -- The lookup of the rows of a commit finds what has been committed.
    get_evaluation_by_request_id-IsStored :
        (ledger : Option SqliteLedger) (tables : Tables)
        → ReadsTimes d t
        → IsEncoded commit encoded
        → is_initialized ledger ≡ true
        → select_evaluation commit.runtime_id commit.request_id tables
          ≡ some (action_request_row commit encoded.action_json, decision_row commit encoded)
        → get_evaluation_by_request_id ledger commit.runtime_id commit.request_id
            (record { tables = tables; schedule = [] })
          ≡ (ok (stored_evaluation commit), record { tables = tables; schedule = [] })
    get_evaluation_by_request_id-IsStored ledger tables reads e init selected =
        get_evaluation_by_request_id-quiet commit.runtime_id commit.request_id
          (runtime-IsKey commit h) (request-IsKey commit h) ledger tables init
        ∙ (rw (selected, restore_evaluation-rows commit encoded reads h e) refl)

    -- A lookup of a request that has no row.
    get_evaluation_by_request_id-unknown :
        (ledger : Option SqliteLedger) (tables : Tables)
        → is_initialized ledger ≡ true
        → has_request commit.runtime_id commit.request_id tables ≡ false
        → get_evaluation_by_request_id ledger commit.runtime_id commit.request_id
            (record { tables = tables; schedule = [] })
          ≡ (err (evaluation_not_found ∷ []), record { tables = tables; schedule = [] })
    unfolding query_error has_request select_evaluation find_request
    get_evaluation_by_request_id-unknown ledger tables init fresh =
        let nobody =
          find-any (is_request_of commit.runtime_id commit.request_id) tables.action_requests
            fresh in
        get_evaluation_by_request_id-quiet commit.runtime_id commit.request_id
          (runtime-IsKey commit h) (request-IsKey commit h) ledger tables init
        ∙ (rw (nobody) (unfold is same identity in refl))

    insert_evaluation-quiet :
        (ledger : Option SqliteLedger) (t0 t1 t2 t3 : Tables)
        → insert_request (action_request_row commit encoded.action_json) t0 ≡ ok (true, t1)
        → insert_decision (decision_row commit encoded) t1 ≡ ok t2
        → insert_effects (map (policy_effect_row commit) encoded.effects) t2 ≡ ok t3
        → insert_evaluation ledger commit encoded (record { tables = t0; schedule = [] })
          ≡ (ok (decision_record_from_commit commit), record { tables = t3; schedule = [] })
    unfolding insert_evaluation after_insert finish_commit conclude open_call locked_call
        commit_transaction insert_each
    insert_evaluation-quiet ledger t0 t1 t2 t3 a b c = rw (a, b, c) refl

    fresh-insert_request :
        (t0 t1 : Tables)
        → insert_request (action_request_row commit encoded.action_json) t0 ≡ ok (true, t1)
        → has_request commit.runtime_id commit.request_id t0 ≡ false
    unfolding insert_request action_request_row
    fresh-insert_request t0 t1 a = ground arith

    -- With no other process and without failures, where times are read as they were written: a
    -- commit that can be stored (with normal parts, trimmed identifiers, times in the years 0 to 9999
    -- and a size that is an `int64`), of a request that has no row, and whose inserts the tables
    -- accept, is answered with its own record, and a lookup of the request then finds the action and
    -- the record of the commit and changes nothing.
    pub commit_evaluation-get_evaluation_by_request_id :
        (ledger : Option SqliteLedger) (t0 t1 t2 t3 : Tables)
        → ReadsTimes d t
        → is_initialized ledger ≡ true
        → encode_evaluation commit ≡ ok encoded
        → insert_request (action_request_row commit encoded.action_json) t0 ≡ ok (true, t1)
        → insert_decision (decision_row commit encoded) t1 ≡ ok t2
        → insert_effects (map (policy_effect_row commit) encoded.effects) t2 ≡ ok t3
        → (commit_evaluation ledger commit (record { tables = t0; schedule = [] })
            ≡ (ok (decision_record_from_commit commit), record { tables = t3; schedule = [] }))
          × (get_evaluation_by_request_id ledger commit.runtime_id commit.request_id
                (record { tables = t3; schedule = [] })
              ≡ (ok (stored_evaluation commit), record { tables = t3; schedule = [] }))
    unfolding commit_evaluation
    commit_evaluation-get_evaluation_by_request_id ledger t0 t1 t2 t3 reads init e a b c = (
      (rw
          (
            init,
            e,
            get_evaluation_by_request_id-unknown ledger t0 init (fresh-insert_request t0 t1 a),
          )
          (unfold commit_unless_known is same identity in
            insert_evaluation-quiet ledger t0 t1 t2 t3 a b c)),
      get_evaluation_by_request_id-IsStored ledger t3 reads
          (encode_evaluation-IsEncoded commit encoded e) init
          (select_evaluation-own commit encoded t0 t1 t2 t3 a b c),
    )
