-- ===== src/Storage/Ledger/Answers.antt =====
-- What `CommitEvaluation` has stored when it answers a record.
use agent_action_control.Application.Ports.{after, on_error}
use agent_action_control.Storage.Ledger.Binding.{
  if_err_else, restore_evaluation-ok, get_evaluation_by_request_id-ok, after-ok,
}
use agent_action_control.Strings.{trim_space, Unicode}
use agent_action_control.Domain.Action.{ActionDigest}
use agent_action_control.Storage.Encode.Laws.{encode_evaluation-IsEncoded, IsEncoded}
use agent_action_control.Storage.Ledger.RoundTrip.{
  select_evaluation-own, restore_evaluation-rows, stored_evaluation, IsStorable,
}
use agent_action_control.Storage.Decode.{Times, ReadsTimes}
use agent_action_control.Prelude.{
  not, false, Bool, ◌≡◌, ◌∷◌, ◌∙◌, true, sym, some, refl, map, eq_iff, arith, ap₂, ap, [], String,
  Option,
}
use agent_action_control.Storage.Encode.{encode_evaluation, EncodedEvaluation}
use agent_action_control.Domain.Canonical.{Digests}
use agent_action_control.Application.Evaluation.{StoredEvaluation, EvaluationCommit, DecisionRecord}
use mathlib.Core.Path.{subst}
use agent_action_control.Errors.{is, evaluation_not_found, ok, err, Result, Error, ledger_failure}
use agent_action_control.Storage.Ledger.{
  restore_evaluation, commit_evaluation, is_initialized, insert_evaluation, commit_unless_known,
  after_insert, get_evaluation_by_request_id, conclude, resolve_or_fail, resolve_existing,
  resolve_commit_race, policy_effect_row, finish_commit, decision_row, decision_record_from_commit,
  action_request_row, SqliteLedger,
}
use agent_action_control.Storage.Database.{open_call, locked_call, commit_transaction, World}
use agent_action_control.Storage.Tables.{
  select_evaluation, insert_request, insert_effects, insert_decision, DecisionRow, Checks,
  ActionRequestRow, Tables,
}
use agent_action_control.Storage.Database.Calls.{
  open_call-ok, locked_call-ok, on_error-value, on_error-state,
}

module _ ⦃k : Checks⦄ ⦃u : Unicode⦄ ⦃d : Digests⦄ ⦃t : Times⦄ where
  -- The rows of the request bind it to the digest, and what is read from them is the record.
  pub record IsBound (runtime_id request_id : String) (digest : ActionDigest) (r : DecisionRecord)
      (tables : Tables) : Type 0 where
    pub rows : ActionRequestRow × DecisionRow
    pub stored : StoredEvaluation
    pub selected : select_evaluation runtime_id request_id tables ≡ some rows
    pub digested : rows.0.action_digest ≡ digest
    pub identified : rows.1.decision_id ≡ r.decision_id
    pub versioned : rows.1.policy_version ≡ r.policy_version
    pub restored : restore_evaluation runtime_id request_id rows ≡ ok stored
    pub answered : stored.decision ≡ r

  abbrev pub IsStored : EvaluationCommit → DecisionRecord → Tables → Type 0
  IsStored commit r tables =
      IsBound commit.runtime_id commit.request_id commit.action_digest r tables

  -- An answer that is a record is stored.
  abbrev IsSound : EvaluationCommit → Result DecisionRecord × World → Type 0
  IsSound commit o = (r : DecisionRecord) → o.0 ≡ ok r → IsStored commit r o.1.tables

  resolve_existing-IsSound :
      (commit : EvaluationCommit) (ledger : Option SqliteLedger) (w : World) (r : DecisionRecord)
      (stored : StoredEvaluation)
      → trim_space commit.runtime_id ≡ commit.runtime_id
      → trim_space commit.request_id ≡ commit.request_id
      → (get_evaluation_by_request_id ledger commit.runtime_id commit.request_id w).0 ≡ ok stored
      → resolve_existing stored commit.action_digest ≡ ok r
      → IsStored commit r
          (get_evaluation_by_request_id ledger commit.runtime_id commit.request_id w).1.tables
  unfolding resolve_existing
  resolve_existing-IsSound commit ledger w r stored trt trq h e =
      let (rows, selected, restored) =
        get_evaluation_by_request_id-ok ledger commit.runtime_id commit.request_id w stored h in
      let (digest, id, version, _, _) =
        restore_evaluation-ok (trim_space commit.runtime_id) (trim_space commit.request_id) rows
          stored restored in
      let same : stored.decision ≡ r = ground arith in
      record {
        rows = rows;
        stored = stored;
        selected =
            subst
              (λ (z : String × String).
                select_evaluation z.0 z.1
                  (get_evaluation_by_request_id ledger commit.runtime_id commit.request_id
                    w).1.tables
                ≡ some rows)
              (ap₂ (λ x y. (x, y)) trt trq) selected;
        digested = ground (arith, eq_iff stored.decision.action_digest commit.action_digest);
        identified = sym id ∙ ap (λ (z : DecisionRecord). z.decision_id) same;
        versioned = sym version ∙ ap (λ (z : DecisionRecord). z.policy_version) same;
        restored =
            subst (λ (z : String × String). restore_evaluation z.0 z.1 rows ≡ ok stored)
              (ap₂ (λ x y. (x, y)) trt trq) restored;
        answered = same;
      }

  module _ (ledger : Option SqliteLedger) (commit : EvaluationCommit) (reads : ReadsTimes d t)
      (storable : IsStorable commit) where
    resolve_commit_race-IsSound : (w : World) → IsSound commit (resolve_commit_race ledger commit w)
    unfolding resolve_commit_race
    resolve_commit_race-IsSound w r h =
        let found = get_evaluation_by_request_id ledger commit.runtime_id commit.request_id w in
        let (stored, e, e') = after-ok found _ r h in
        subst (λ (o : Result DecisionRecord × World). IsStored commit r o.1.tables) (sym e')
          (resolve_existing-IsSound commit ledger w r stored storable.runtime_trimmed
            storable.request_trimmed (ap (λ o. o.0) e) (ap (λ o. o.0) (sym e') ∙ h))

    resolve_or_fail-IsSound : (w : World) → IsSound commit (resolve_or_fail ledger commit w)
    unfolding resolve_or_fail
    resolve_or_fail-IsSound w r h =
        let race = resolve_commit_race ledger commit w in
        let hide_error = λ (e : Error). ledger_failure ∷ [] in
        subst (λ (v : World). IsStored commit r v.tables) (sym (on_error-state hide_error race))
          (resolve_commit_race-IsSound w r (on_error-value hide_error race r h))

    conclude-IsSound :
        (o : Result (Unit {0}) × World)
        → (o.0 ≡ ok tt → IsStored commit (decision_record_from_commit commit) o.1.tables)
        → IsSound commit (conclude ledger commit o)
    unfolding conclude
    conclude-IsSound (ok tt, w) own r h =
        let same : decision_record_from_commit commit ≡ r = ground arith in
        subst (λ r. IsStored commit r w.tables) same (own refl)
    conclude-IsSound (err e, w) own r h = resolve_or_fail-IsSound w r h

    commit_transaction-ok :
        (tables : Tables) (w : World)
        → (commit_transaction tables w).0 ≡ ok tt
        → (commit_transaction tables w).1.tables ≡ tables
    unfolding commit_transaction
    commit_transaction-ok tables w h = ground arith

    own-IsStored :
        (encoded : EncodedEvaluation) (before t1 t2 t3 : Tables)
        → IsEncoded commit encoded
        → insert_request (action_request_row commit encoded.action_json) before ≡ ok (true, t1)
        → insert_decision (decision_row commit encoded) t1 ≡ ok t2
        → insert_effects (map (policy_effect_row commit) encoded.effects) t2 ≡ ok t3
        → IsStored commit (decision_record_from_commit commit) t3
    unfolding decision_record_from_commit
    own-IsStored encoded before t1 t2 t3 e a b c = record {
      rows = (action_request_row commit encoded.action_json, decision_row commit encoded);
      stored = stored_evaluation commit;
      selected = select_evaluation-own commit encoded before t1 t2 t3 a b c;
      digested = unfold action_request_row in refl;
      identified = unfold decision_row in refl;
      versioned = unfold decision_row in refl;
      restored = restore_evaluation-rows commit encoded reads storable e;
      answered = refl;
    }

    finish_commit-IsSound :
        (encoded : EncodedEvaluation) (tables : Tables) (w : World)
        → IsEncoded commit encoded
        → insert_request (action_request_row commit encoded.action_json) w.tables
          ≡ ok (true, tables)
        → IsSound commit (finish_commit ledger commit encoded tables w)
    unfolding finish_commit
    finish_commit-IsSound encoded tables w good first r h =
        let wrap_failure = λ (e : Error). ledger_failure ∷ e in
        let call = insert_decision (decision_row commit encoded) tables in
        let o = on_error wrap_failure (locked_call call w) in
        let (t2, e, e') = after-ok o _ r h in
        let call' = insert_effects (map (policy_effect_row commit) encoded.effects) t2 in
        let o' = on_error wrap_failure (locked_call call' o.1) in
        let h' = ap (λ (x : Result DecisionRecord × World). x.0) (sym e') ∙ h in
        let (t3, e2, e2') = after-ok o' _ r h' in
        let h'' = ap (λ (x : Result DecisionRecord × World). x.0) (sym e2') ∙ h' in
        let second = locked_call-ok call w t2 (ap (λ (x : Result Tables × World). x.0) e) in
        let third = locked_call-ok call' o.1 t3 (ap (λ (x : Result Tables × World). x.0) e2) in
        let done = commit_transaction t3 o'.1 in
        subst (λ (x : Result DecisionRecord × World). IsStored commit r x.1.tables) (sym (e' ∙ e2'))
          (conclude-IsSound done
            (λ q.
              subst (λ v. IsStored commit (decision_record_from_commit commit) v)
                (sym (commit_transaction-ok t3 o'.1 q))
                (own-IsStored encoded w.tables tables t2 t3 good first second third))
            r h'')

    after_insert-IsSound :
        (encoded : EncodedEvaluation) (o : Result (Bool × Tables) × World)
        → IsEncoded commit encoded
        → ((r : Bool × Tables)
            → o.0 ≡ ok r
            → insert_request (action_request_row commit encoded.action_json) o.1.tables ≡ ok r)
        → IsSound commit (after_insert ledger commit encoded o)
    unfolding after_insert
    after_insert-IsSound encoded (err e, w) good first = resolve_or_fail-IsSound w
    after_insert-IsSound encoded (ok (false, tables), w) good first = resolve_commit_race-IsSound w
    after_insert-IsSound encoded (ok (true, tables), w) good first =
        finish_commit-IsSound encoded tables w good (first (true, tables) refl)

    insert_evaluation-IsSound :
        (encoded : EncodedEvaluation) (w : World)
        → IsEncoded commit encoded
        → IsSound commit (insert_evaluation ledger commit encoded w)
    unfolding insert_evaluation
    insert_evaluation-IsSound encoded w good r h =
        let call = insert_request (action_request_row commit encoded.action_json) in
        let o = on_error (λ (e : Error). ledger_failure ∷ e) (open_call (λ tables. ok tt) w) in
        let (begun, e, e') = after-ok o _ r h in
        subst (λ (x : Result DecisionRecord × World). IsStored commit r x.1.tables) (sym e')
          (after_insert-IsSound encoded (open_call call o.1) good (λ a q. open_call-ok call o.1 a q)
            r (ap (λ (x : Result DecisionRecord × World). x.0) (sym e') ∙ h))

    commit_unless_known-IsSound :
        (encoded : EncodedEvaluation) (o : Result StoredEvaluation × World)
        → IsEncoded commit encoded
        → ((r : DecisionRecord) (stored : StoredEvaluation)
            → o.0 ≡ ok stored
            → resolve_existing stored commit.action_digest ≡ ok r
            → IsStored commit r o.1.tables)
        → IsSound commit (commit_unless_known ledger commit encoded o)
    unfolding commit_unless_known
    commit_unless_known-IsSound encoded (ok existing, w) good known = λ r h. known r existing refl h
    commit_unless_known-IsSound encoded (err e, w) good known =
        let answer : Bool → Result DecisionRecord × World =
          λ b. elim b [ true ↦ insert_evaluation ledger commit encoded w | false ↦ (err e, w) ] in
        elim (is e evaluation_not_found) as (λ b. IsSound commit (answer b)) [
          | true ↦ insert_evaluation-IsSound encoded w good
          | false ↦ λ r h. absurd (ground arith)
        ]

    -- For a commit that can be stored, whose identifiers are trimmed and whose times and size can be
    -- written and read, and times that are read as they were written: a record that
    -- `CommitEvaluation` answers is stored. Whatever other processes commit and whichever calls
    -- fail, the tables then bind the request to the digest of the commit, and what is read from its
    -- rows is the whole record.
    pub commit_evaluation-IsStored :
        (w : World) (r : DecisionRecord)
        → (commit_evaluation ledger commit w).0 ≡ ok r
        → IsStored commit r (commit_evaluation ledger commit w).1.tables
    unfolding commit_evaluation
    commit_evaluation-IsStored w r h =
        let answer =
          after (encode_evaluation commit, w)
            λ (encoded : EncodedEvaluation). λ (w : World).
              commit_unless_known ledger commit encoded
                (get_evaluation_by_request_id ledger commit.runtime_id commit.request_id w) in
        let p = if_err_else (not (is_initialized ledger)) (ledger_failure ∷ []) w answer r h in
        let h' : answer.0 ≡ ok r = subst (λ (o : Result DecisionRecord × World). o.0 ≡ ok r) p h in
        let (encoded, e, e') = after-ok (encode_evaluation commit, w) _ r h' in
        subst (λ (x : Result DecisionRecord × World). IsStored commit r x.1.tables) (sym (p ∙ e'))
          (commit_unless_known-IsSound encoded
            (get_evaluation_by_request_id ledger commit.runtime_id commit.request_id w)
            (encode_evaluation-IsEncoded commit encoded
              (ap (λ (x : Result EncodedEvaluation × World). x.0) e))
            (λ r stored q.
              resolve_existing-IsSound commit ledger w r stored storable.runtime_trimmed
                storable.request_trimmed q)
            r (ap (λ (x : Result DecisionRecord × World). x.0) (sym e') ∙ h'))
