-- ===== src/Storage/Ledger/Steps.antt =====
-- How the ledger's calls change the tables: as other processes do, or by one whole transaction.
use mathlib.Core.Path.{subst}
use agent_action_control.Strings.{trim_space, Unicode}
use agent_action_control.Domain.Canonical.{Digests}
use agent_action_control.Storage.Ledger.{
  commit_evaluation, insert_evaluation, commit_unless_known, after_insert, conclude, finish_commit,
  query_error, get_evaluation_by_request_id, resolve_or_fail, resolve_commit_race, query_evaluation,
  is_initialized, SqliteLedger, policy_effect_row, decision_row, action_request_row,
}
use agent_action_control.Storage.Database.{
  scan_rows, open_call, locked_call, commit_transaction, World,
}
use agent_action_control.Storage.Database.Calls.{
  after-keeps, if-keeps, insert_all-eq, on_error-state, open_call-ok, locked_call-ok,
}
use agent_action_control.Storage.Decode.{Times}
use agent_action_control.Application.Ports.{on_error}
use agent_action_control.Application.Evaluation.{DecisionRecord, StoredEvaluation, EvaluationCommit}
use agent_action_control.Storage.Encode.{encode_evaluation, EncodedEvaluation}
use agent_action_control.Prelude.{
  ap, ◌||◌, not, Bool, ◌==◌, sym, String, Option, ◌≡◌, ◌∷◌, true, refl, map, false, [], List, All,
}
use agent_action_control.Errors.{evaluation_not_found, ok, err, Result, Error, ledger_failure, is}
use agent_action_control.Storage.Tables.{
  insert_request, insert_effects, insert_decision, select_evaluation, insert_each, insert_all,
  Insertion, Checks, Tables,
}

-- What one commit of the ledger writes.
abbrev pub insertion : ⦃t : Times⦄ → EvaluationCommit → EncodedEvaluation → Insertion
insertion commit encoded = record {
  request = action_request_row commit encoded.action_json;
  decision = decision_row commit encoded;
  effects = map (policy_effect_row commit) encoded.effects;
}

module _ ⦃k : Checks⦄ (P : Tables → Type 0) (Q : Insertion → Type 0) where
  -- What the commits of other processes keep.
  abbrev pub Keeps : Type 0
  Keeps = (i : Insertion) (t : Tables) → Q i → P t → P (insert_all i t)

  -- The tables have the property, and other processes keep it.
  abbrev pub IsGood : World → Type 0
  IsGood w = P w.tables × All (λ e. All Q e.others) w.schedule

  insert_each-keeps :
      Keeps → (is : List Insertion) (t : Tables) → All Q is → P t → P (insert_each is t)
  unfolding insert_each
  insert_each-keeps keeps [] t all p = p
  insert_each-keeps keeps (i ∷ is) t all p =
      insert_each-keeps keeps is (insert_all i t) all.1 (keeps i t all.0 p)

  pub open_call-IsGood :
      {A : Type 0}
      → Keeps
      → (call : Tables → Result A) (w : World) → IsGood w
      → IsGood (open_call call w).1
  unfolding open_call insert_each
  open_call-IsGood keeps call w good =
      elim w.schedule
          as (λ es.
            P w.tables × All (λ e. All Q e.others) es
            → IsGood (open_call call (record { tables = w.tables; schedule = es })).1) [
              | [] ↦ λ g. (g.0, tt)
              | e ∷ es ↦ λ g. (insert_each-keeps keeps e.others w.tables g.1.0 g.0, g.1.1)
            ]
        good

  pub locked_call-IsGood :
      {A : Type 0} (call : Result A) (w : World) → IsGood w → IsGood (locked_call call w).1
  unfolding locked_call
  locked_call-IsGood call w good =
      elim w.schedule
          as (λ es.
            P w.tables × All (λ e. All Q e.others) es
            → IsGood (locked_call call (record { tables = w.tables; schedule = es })).1) [
              | [] ↦ λ g. (g.0, tt)
              | e ∷ es ↦ λ g. (g.0, g.1.1)
            ]
        good

  pub commit_transaction-IsGood :
      (tables : Tables) (w : World) → P tables → IsGood w → IsGood (commit_transaction tables w).1
  unfolding commit_transaction
  commit_transaction-IsGood tables w p good =
      elim w.schedule
          as (λ es.
            P w.tables × All (λ e. All Q e.others) es
            → IsGood (commit_transaction tables (record { tables = w.tables; schedule = es })).1) [
              | [] ↦ λ g. (p, tt)
              | e ∷ es ↦ λ g.
                  elim e.fails
                    as (λ f.
                      IsGood
                        (commit_transaction tables (record {
                          tables = w.tables;
                          schedule = record e { fails = f } ∷ es;
                        })).1) [
                          | false ↦ (p, g.1.1)
                          | true ↦
                              elim e.written
                                as (λ b.
                                  IsGood
                                    (commit_transaction tables (record {
                                      tables = w.tables;
                                      schedule =
                                          record { others = e.others; fails = true; written = b }
                                          ∷ es;
                                    })).1) [ true ↦ (p, g.1.1) | false ↦ (g.0, g.1.1) ]
                        ]
            ]
        good

  module _ ⦃u : Unicode⦄ ⦃d : Digests⦄ ⦃t : Times⦄ (ledger : Option SqliteLedger) where
    pub query_evaluation-IsGood :
        Keeps
        → (runtime_id request_id : String) (w : World) → IsGood w
        → IsGood (query_evaluation runtime_id request_id w).1
    unfolding query_evaluation
    query_evaluation-IsGood keeps runtime_id request_id w good =
        open_call-IsGood keeps
          (λ tables. scan_rows (select_evaluation runtime_id request_id tables)) w good

    pub get_evaluation_by_request_id-IsGood :
        Keeps
        → (runtime_id request_id : String) (w : World) → IsGood w
        → IsGood (get_evaluation_by_request_id ledger runtime_id request_id w).1
    unfolding get_evaluation_by_request_id
    get_evaluation_by_request_id-IsGood keeps runtime_id request_id w good =
        let asked =
          subst IsGood
            (sym (
              on_error-state query_error
                (query_evaluation (trim_space runtime_id) (trim_space request_id) w)))
            (query_evaluation-IsGood keeps (trim_space runtime_id) (trim_space request_id) w
              good) in
        if-keeps IsGood (not (is_initialized ledger)) _ _ good (
          if-keeps IsGood (trim_space runtime_id == "" || trim_space request_id == "") _ _ good (
            after-keeps IsGood
              (on_error query_error
                (query_evaluation (trim_space runtime_id) (trim_space request_id) w))
              _ asked λ rows e. asked))

    pub resolve_commit_race-IsGood :
        Keeps
        → (commit : EvaluationCommit) (w : World) → IsGood w
        → IsGood (resolve_commit_race ledger commit w).1
    unfolding resolve_commit_race
    resolve_commit_race-IsGood keeps commit w good =
        after-keeps IsGood
          (get_evaluation_by_request_id ledger commit.runtime_id commit.request_id w) _
          (get_evaluation_by_request_id-IsGood keeps commit.runtime_id commit.request_id w good)
          λ a e.
            get_evaluation_by_request_id-IsGood keeps commit.runtime_id commit.request_id w good

    pub resolve_or_fail-IsGood :
        Keeps
        → (commit : EvaluationCommit) (w : World) → IsGood w
        → IsGood (resolve_or_fail ledger commit w).1
    unfolding resolve_or_fail
    resolve_or_fail-IsGood keeps commit w good =
        subst (IsGood)
          (sym (on_error-state (λ e. ledger_failure ∷ []) (resolve_commit_race ledger commit w)))
          (resolve_commit_race-IsGood keeps commit w good)

    conclude-IsGood :
        Keeps
        → (commit : EvaluationCommit) (o : Result (Unit {0}) × World) → IsGood o.1
        → IsGood (conclude ledger commit o).1
    unfolding conclude
    conclude-IsGood keeps commit (ok done, w) good = good
    conclude-IsGood keeps commit (err e, w) good = resolve_or_fail-IsGood keeps commit w good

    finish_commit-IsGood :
        Keeps
        → (commit : EvaluationCommit) (encoded : EncodedEvaluation) (tables : Tables) (w : World)
        → Q (insertion commit encoded)
        → insert_request (action_request_row commit encoded.action_json) w.tables
          ≡ ok (true, tables)
        → IsGood w
        → IsGood (finish_commit ledger commit encoded tables w).1
    unfolding finish_commit
    finish_commit-IsGood keeps commit encoded tables w own first good =
        let wrap_failure = λ (e : Error). ledger_failure ∷ e in
        let call = insert_decision (decision_row commit encoded) tables in
        let o = on_error wrap_failure (locked_call call w) in
        let good' : IsGood o.1 =
          subst IsGood (sym (on_error-state wrap_failure (locked_call call w)))
            (locked_call-IsGood call w good) in
        after-keeps IsGood o _ good' λ tables' e.
          let call' = insert_effects (map (policy_effect_row commit) encoded.effects) tables' in
          let o' = on_error wrap_failure (locked_call call' o.1) in
          let good'' : IsGood o'.1 =
            subst IsGood (sym (on_error-state wrap_failure (locked_call call' o.1)))
              (locked_call-IsGood call' o.1 good') in
          after-keeps IsGood o' _ good'' λ tables'' e'.
            let second : call ≡ ok tables' = locked_call-ok call w tables' (ap (λ p. p.0) e) in
            let third : call' ≡ ok tables'' =
              locked_call-ok call' o.1 tables'' (ap (λ p. p.0) e') in
            let whole_tables : insert_all (insertion commit encoded) w.tables ≡ tables'' =
              insert_all-eq (insertion commit encoded) w.tables tables tables' tables'' first second
                third in
            conclude-IsGood keeps commit (commit_transaction tables'' o'.1) (
              commit_transaction-IsGood tables'' o'.1
                (subst P whole_tables (keeps (insertion commit encoded) w.tables own good.0))
                good'')

    after_insert-IsGood :
        Keeps
        → (commit : EvaluationCommit) (encoded : EncodedEvaluation)
          (o : Result (Bool × Tables) × World)
        → Q (insertion commit encoded)
        → ((r : Bool × Tables)
            → o.0 ≡ ok r
            → insert_request (action_request_row commit encoded.action_json) o.1.tables ≡ ok r)
        → IsGood o.1
        → IsGood (after_insert ledger commit encoded o).1
    unfolding after_insert
    after_insert-IsGood keeps commit encoded (err e, w) own first good =
        resolve_or_fail-IsGood keeps commit w good
    after_insert-IsGood keeps commit encoded (ok (false, tables), w) own first good =
        resolve_commit_race-IsGood keeps commit w good
    after_insert-IsGood keeps commit encoded (ok (true, tables), w) own first good =
        finish_commit-IsGood keeps commit encoded tables w own (first (true, tables) refl) good

    insert_evaluation-IsGood :
        Keeps
        → (commit : EvaluationCommit) (encoded : EncodedEvaluation) (w : World)
        → Q (insertion commit encoded)
        → IsGood w
        → IsGood (insert_evaluation ledger commit encoded w).1
    unfolding insert_evaluation
    insert_evaluation-IsGood keeps commit encoded w own good =
        let wrap_failure = λ (e : Error). ledger_failure ∷ e in
        let call = insert_request (action_request_row commit encoded.action_json) in
        let begin' = open_call (λ tables. ok tt) w in
        let o = on_error wrap_failure begin' in
        let good' : IsGood o.1 =
          subst IsGood (sym (on_error-state wrap_failure begin'))
            (open_call-IsGood keeps (λ tables. ok tt) w good) in
        after-keeps IsGood o _ good' λ begun e.
          after_insert-IsGood keeps commit encoded (open_call call o.1) own
            (λ r h. open_call-ok call o.1 r h) (open_call-IsGood keeps call o.1 good')

    commit_unless_known-IsGood :
        Keeps
        → (commit : EvaluationCommit) (encoded : EncodedEvaluation)
          (o : Result StoredEvaluation × World)
        → Q (insertion commit encoded)
        → IsGood o.1
        → IsGood (commit_unless_known ledger commit encoded o).1
    unfolding commit_unless_known
    commit_unless_known-IsGood keeps commit encoded (ok existing, w) own good = good
    commit_unless_known-IsGood keeps commit encoded (err e, w) own good =
        let answer : Bool → Result DecisionRecord × World =
          λ b. elim b [ true ↦ insert_evaluation ledger commit encoded w | false ↦ (err e, w) ] in
        elim (is e evaluation_not_found) as (λ b. IsGood (answer b).1) [
          | true ↦ insert_evaluation-IsGood keeps commit encoded w own good
          | false ↦ good
        ]

    -- A property of the tables that every transaction of other processes keeps, and that the whole
    -- transaction of this commit keeps, is kept by `CommitEvaluation`, whatever fails.
    pub commit_evaluation-IsGood :
        Keeps
        → (commit : EvaluationCommit) (w : World)
        → ((encoded : EncodedEvaluation)
            → encode_evaluation commit ≡ ok encoded
            → Q (insertion commit encoded))
        → IsGood w
        → IsGood (commit_evaluation ledger commit w).1
    unfolding commit_evaluation
    commit_evaluation-IsGood keeps commit w own good =
        if-keeps IsGood (not (is_initialized ledger)) _ _ good (
          after-keeps IsGood (encode_evaluation commit, w) _ good
            λ encoded e.
              commit_unless_known-IsGood keeps commit encoded
                (get_evaluation_by_request_id ledger commit.runtime_id commit.request_id w)
                (own encoded (ap (λ p. p.0) e))
                (get_evaluation_by_request_id-IsGood keeps commit.runtime_id commit.request_id w
                  good))
