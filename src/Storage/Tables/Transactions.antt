-- ===== src/Storage/Tables/Transactions.antt =====
-- What a whole transaction makes of the tables.
use agent_action_control.Prelude.{
  ◌≡◌, ◌∷◌, true, refl, inr, inl, false, eq_refl, arith, [], List, Bool,
}
use agent_action_control.Errors.{Result-cases, ok, err, Result}
use agent_action_control.Storage.Tables.{
  insert_rest, insert_request, insert_effects, insert_effect, insert_decision, insert_all,
  has_request, PolicyEffectRow, Insertion, Checks, Tables,
}
use agent_action_control.Storage.Tables.Invariant.{
  insert_request-ok, insert_effect-ok, insert_decision-ok,
}

module _ ⦃k : Checks⦄ where
  -- The effects stand in a table of their own.
  pub insert_effects-tables :
      (rows : List PolicyEffectRow) (t t' : Tables)
      → insert_effects rows t ≡ ok t'
      → (t.action_requests ≡ t'.action_requests) × (t.decisions ≡ t'.decisions)
  unfolding insert_effects
  insert_effects-tables [] t t' h = ground arith
  insert_effects-tables (row ∷ rows) t t' h = elim (Result-cases (insert_effect row t)) [
    | inr (e, run) ↦ absurd (ground arith)
    | inl (t1, run) ↦
        let (fresh, there, made) = insert_effect-ok row t t1 run in
        let (requests, decisions) = insert_effects-tables rows t1 t' (ground arith) in ground arith
  ]

  -- The rows behind a transaction that has gone through.
  pub insert_transaction :
      (i : Insertion) (t t1 t2 t3 : Tables)
      → insert_request i.request t ≡ ok (true, t1)
      → insert_decision i.decision t1 ≡ ok t2
      → insert_effects i.effects t2 ≡ ok t3
      → (t3.action_requests ≡ i.request ∷ t.action_requests)
        × (t3.decisions ≡ i.decision ∷ t.decisions)
  insert_transaction i t t1 t2 t3 a b c =
      let (fresh, fresh_id, there, made) = insert_decision-ok i.decision t1 t2 b in
      let (requests, decisions) = insert_effects-tables i.effects t2 t3 c in
      elim (insert_request-ok i.request t t1 true a) [
        | inl (e, same, found) ↦ absurd (ground arith)
        | inr (e, new, made') ↦ ground arith
      ]

  -- A request that has a row is not inserted.
  insert_rest-known :
      (i : Insertion) (t : Tables)
      → has_request i.request.runtime_id i.request.request_id t ≡ true
      → insert_all i t ≡ t
  unfolding insert_all insert_rest insert_request
  insert_rest-known i t h = ground arith

  insert_rest_idem :
      (i : Insertion) (t : Tables) (r : Result (Bool × Tables))
      → insert_request i.request t ≡ r
      → insert_all i (insert_rest i t r) ≡ insert_rest i t r
  unfolding insert_rest
  insert_rest_idem i t (err e) h = unfold insert_all in rw h refl
  insert_rest_idem i t (ok (false, t1)) h = unfold insert_all in rw h refl
  insert_rest_idem i t (ok (true, t1)) h = elim (Result-cases (insert_decision i.decision t1)) [
    | inr (e, run) ↦ rw run (unfold insert_all in rw (h, run) refl)
    | inl (t2, run) ↦ elim (Result-cases (insert_effects i.effects t2)) [
      | inr (e, run') ↦ rw (run, run') (unfold insert_all in rw (h, run, run') refl)
      | inl (t3, run') ↦
          let (requests, decisions) = insert_transaction i t t1 t2 t3 h run run' in
          rw (run, run')
            (insert_rest-known i t3 (
              unfold has_request in
              ground (arith, eq_refl i.request.runtime_id, eq_refl i.request.request_id)))
    ]
  ]

  -- A transaction that is run twice does what it does once.
  pub insert_all_idem :
      (i : Insertion) (t : Tables) → insert_all i (insert_all i t) ≡ insert_all i t
  insert_all_idem i t =
      let again = insert_rest_idem i t (insert_request i.request t) refl in
      unfold insert_all in again
