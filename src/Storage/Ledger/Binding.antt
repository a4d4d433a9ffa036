-- ===== src/Storage/Ledger/Binding.antt =====
-- What the lookup has found.
use agent_action_control.Domain.Action.{parse_action_digest}
use agent_action_control.Storage.Database.Calls.{open_call-ok, on_error-ok}
use agent_action_control.Strings.{trim_space, Unicode}
use agent_action_control.Storage.Decode.{Times}
use agent_action_control.Application.Evaluation.{StoredEvaluation}
use agent_action_control.Application.Ports.{after, on_error, Run}
use agent_action_control.Domain.Canonical.{Digests}
use agent_action_control.Prelude.{
  ◌≡◌, ◌∷◌, ◌∙◌, ◌||◌, true, sym, some, refl, not, none, false, if◌then◌else◌, arith, ap, [],
  String, Option, Bool, ◌==◌,
}
use mathlib.Core.Path.{subst}
use agent_action_control.Errors.{invalid_input, ok, err, Result, Error, ledger_failure}
use agent_action_control.Storage.Ledger.{
  get_evaluation_by_request_id, restore_evaluation, query_evaluation, query_error, is_initialized,
  SqliteLedger,
}
use agent_action_control.Storage.Database.{scan_rows, World}
use agent_action_control.Storage.Tables.{
  select_evaluation, DecisionRow, Checks, ActionRequestRow, Tables,
}

pub after-ok :
    {S A B : Type 0} (o : Result A × S) (k : A → Run S B) (b : B)
    → (after o k).0 ≡ ok b
    → (a : A) × (o ≡ (ok a, o.1)) × (after o k ≡ k a o.1)
after-ok (ok a, s) k b h = (a, refl, refl)
after-ok (err e, s) k b h = absurd (ground arith)

pub if_err_else :
    {S A : Type 0} (b : Bool) (e : Error) (s : S) (y : Result A × S) (a : A)
    → (if b then (err e, s) else y).0 ≡ ok a
    → (if b then (err e, s) else y) ≡ y
if_err_else true e s y a h = absurd (ground arith)
if_err_else false e s y a h = refl

scan_rows-ok : {A : Type 0} (o : Option A) (a : A) → scan_rows o ≡ ok a → o ≡ some a
scan_rows-ok none a h = absurd (ground arith)
scan_rows-ok (some b) a h = ground arith

module _ ⦃k : Checks⦄ ⦃u : Unicode⦄ ⦃d : Digests⦄ ⦃t : Times⦄ where
  pub restore_evaluation-ok :
      (runtime_id request_id : String) (rows : ActionRequestRow × DecisionRow)
      (stored : StoredEvaluation)
      → restore_evaluation runtime_id request_id rows ≡ ok stored
      → (stored.decision.action_digest ≡ rows.0.action_digest)
        × (stored.decision.decision_id ≡ rows.1.decision_id)
        × (stored.decision.policy_version ≡ rows.1.policy_version)
        × (stored.runtime_id ≡ runtime_id)
        × (stored.request_id ≡ request_id)
  unfolding restore_evaluation parse_action_digest
  restore_evaluation-ok runtime_id request_id (a, row) stored h = ground arith

  query_evaluation-ok :
      (runtime_id request_id : String) (w : World) (rows : ActionRequestRow × DecisionRow)
      (w' : World)
      → query_evaluation runtime_id request_id w ≡ (ok rows, w')
      → select_evaluation runtime_id request_id w'.tables ≡ some rows
  unfolding query_evaluation
  query_evaluation-ok runtime_id request_id w rows w' q =
      let call = λ (tables : Tables). scan_rows (select_evaluation runtime_id request_id tables) in
      let found = open_call-ok call w rows (ap (λ o. o.0) q) in
      scan_rows-ok (select_evaluation runtime_id request_id w'.tables) rows
        (subst (λ (v : World). call v.tables ≡ ok rows) (ap (λ o. o.1) q) found)

  -- An evaluation that has been found is made of the rows of its key.
  pub get_evaluation_by_request_id-ok :
      (ledger : Option SqliteLedger) (runtime_id request_id : String) (w : World)
      (stored : StoredEvaluation)
      → (get_evaluation_by_request_id ledger runtime_id request_id w).0 ≡ ok stored
      → (rows : ActionRequestRow × DecisionRow) × (select_evaluation
            (trim_space runtime_id)
            (trim_space request_id)
            (get_evaluation_by_request_id ledger runtime_id request_id w).1.tables
          ≡ some rows)
        × (restore_evaluation (trim_space runtime_id) (trim_space request_id) rows ≡ ok stored)
  unfolding get_evaluation_by_request_id
  get_evaluation_by_request_id-ok ledger runtime_id request_id w stored h =
      let rt = trim_space runtime_id in
      let rq = trim_space request_id in
      let found = on_error query_error (query_evaluation rt rq w) in
      let answer = after found λ rows. λ (s : World). (restore_evaluation rt rq rows, s) in
      let inner = if rt == "" || rq == "" then (err (invalid_input ∷ []), w) else answer in
      let p = if_err_else (not (is_initialized ledger)) (ledger_failure ∷ []) w inner stored h in
      let h' : inner.0 ≡ ok stored = subst (λ o. o.0 ≡ ok stored) p h in
      let p' = if_err_else (rt == "" || rq == "") (invalid_input ∷ []) w answer stored h' in
      let h'' : answer.0 ≡ ok stored = subst (λ o. o.0 ≡ ok stored) p' h' in
      let (rows, e, e') = after-ok found _ stored h'' in
      let q = on_error-ok query_error (query_evaluation rt rq w) rows found.1 e in
      let selected : select_evaluation rt rq found.1.tables ≡ some rows =
        query_evaluation-ok rt rq w rows found.1 q in
      let restored : restore_evaluation rt rq rows ≡ ok stored = ap (λ o. o.0) (sym e') ∙ h'' in
      (
        rows,
        subst (λ o. select_evaluation rt rq o.1.tables ≡ some rows) (sym (p ∙ p' ∙ e')) selected,
        restored,
      )
