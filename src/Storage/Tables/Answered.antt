-- ===== src/Storage/Tables/Answered.antt =====
-- Every request of the tables has its decision, and transactions keep it.
use mathlib.Core.Path.{subst}
use agent_action_control.Prelude.{
  any, sym, ap₂, eq_refl, arith, All, ◌≡◌, ◌∷◌, true, false, refl, [], inl, inr, List, Bool,
}
use agent_action_control.Errors.{Result-cases, ok, err, Result}
use agent_action_control.Storage.Tables.{
  insert_rest, insert_effects, insert_decision, insert_all, Insertion, is_decision_of,
  insert_request, DecisionRow, Checks, ActionRequestRow, Tables,
}
use agent_action_control.Storage.Tables.Transactions.{insert_transaction}

-- Each of the requests has a decision among these.
abbrev pub AnsweredBy : List DecisionRow → List ActionRequestRow → Type 0
AnsweredBy ds =
    All λ (row : ActionRequestRow). any (is_decision_of row.runtime_id row.request_id) ds ≡ true

abbrev pub IsAnswered : Tables → Type 0
IsAnswered t = AnsweredBy t.decisions t.action_requests

-- A transaction whose decision answers its own request.
pub record AnswersItself (i : Insertion) : Type 0 where
  pub runtime : i.decision.runtime_id ≡ i.request.runtime_id
  pub request : i.decision.request_id ≡ i.request.request_id

AnsweredBy-more :
    (d : DecisionRow) (ds : List DecisionRow) (rs : List ActionRequestRow)
    → AnsweredBy ds rs
    → AnsweredBy (d ∷ ds) rs
AnsweredBy-more d ds [] h = tt
AnsweredBy-more d ds (r ∷ rs) h = let first = h.0 in (ground arith, AnsweredBy-more d ds rs h.1)

module _ ⦃k : Checks⦄ where
  insert_rest-IsAnswered :
      (i : Insertion) (t : Tables) (r : Result (Bool × Tables))
      → AnswersItself i
      → insert_request i.request t ≡ r
      → IsAnswered t
      → IsAnswered (insert_rest i t r)
  unfolding insert_rest
  insert_rest-IsAnswered i t (err e) own h good = good
  insert_rest-IsAnswered i t (ok (false, t1)) own h good = good
  insert_rest-IsAnswered i t (ok (true, t1)) own h good =
      elim (Result-cases (insert_decision i.decision t1)) [
        | inr (e, run) ↦ rw run good
        | inl (t2, run) ↦ elim (Result-cases (insert_effects i.effects t2)) [
          | inr (e, run') ↦ rw (run, run') good
          | inl (t3, run') ↦
              let (requests, decisions) = insert_transaction i t t1 t2 t3 h run run' in
              let runtime = own.runtime in
              let request = own.request in
              let own_decision : any (is_decision_of i.request.runtime_id i.request.request_id)
                    (i.decision ∷ t.decisions)
                  ≡ true =
                ground (arith, eq_refl i.request.runtime_id, eq_refl i.request.request_id) in
              rw (run, run')
                (subst (λ (z : List DecisionRow × List ActionRequestRow). AnsweredBy z.0 z.1)
                  (ap₂ (λ x y. (x, y)) (sym decisions) (sym requests))
                  (own_decision, AnsweredBy-more i.decision t.decisions t.action_requests good))
        ]
      ]

  -- A transaction that answers its own request leaves no request without its decision.
  pub insert_all-IsAnswered :
      (i : Insertion) (t : Tables) → AnswersItself i → IsAnswered t → IsAnswered (insert_all i t)
  unfolding insert_all
  insert_all-IsAnswered i t own good =
      insert_rest-IsAnswered i t (insert_request i.request t) own refl good
