-- ===== src/Storage/Tables/Invariant.antt =====
-- What the keys and the references of the tables rule out, and that transactions keep it.
use mathlib.Core.Path.{subst}
use agent_action_control.Prelude.{
  any, ◌⊎◌, refl, inr, inl, arith, All, ◌≡◌, ◌∷◌, ◌||◌, true, false, [], List, Bool, ◌==◌,
}
use agent_action_control.Errors.{Result-cases, ok, err, Result}
use agent_action_control.Storage.Tables.{
  insert_rest, insert_effects, insert_effect, insert_decision, insert_all, has_effect, has_decision,
  Insertion, is_request_of, is_decision_of, insert_request, has_request, has_decision_id,
  PolicyEffectRow, DecisionRow, Checks, ActionRequestRow, Tables,
}

abbrev pub RequestsDistinct : List ActionRequestRow → Type 0
RequestsDistinct [] = Unit
RequestsDistinct (r ∷ rs) =
    (any (is_request_of r.runtime_id r.request_id) rs ≡ false) × RequestsDistinct rs

abbrev pub DecisionsDistinct : List DecisionRow → Type 0
DecisionsDistinct [] = Unit
DecisionsDistinct (r ∷ rs) =
    (any (is_decision_of r.runtime_id r.request_id) rs ≡ false)
    × (any (λ row. row.decision_id == r.decision_id) rs ≡ false)
    × DecisionsDistinct rs

abbrev pub EffectsDistinct : List PolicyEffectRow → Type 0
EffectsDistinct [] = Unit
EffectsDistinct (r ∷ rs) =
    (any (λ row. row.effect_id == r.effect_id || row.idempotency_key == r.idempotency_key) rs
      ≡ false)
    × EffectsDistinct rs

-- No key stands twice, and every reference leads to a row.
pub record IsTables (t : Tables) : Type 0 where
  pub requests : RequestsDistinct t.action_requests
  pub decisions_once : DecisionsDistinct t.decisions
  pub effects_once : EffectsDistinct t.policy_effects
  pub decisions_refer : All (λ row. has_request row.runtime_id row.request_id t ≡ true) t.decisions
  pub effects_refer : All (λ row. has_decision_id row.decision_id t ≡ true) t.policy_effects

All-map :
    {A : Type 0} (P Q : A → Type 0) → ((x : A) → P x → Q x) → (xs : List A) → All P xs → All Q xs
All-map P Q f [] all = tt
All-map P Q f (x ∷ xs) all = (f x all.0, All-map P Q f xs all.1)

-- A row more.
abbrev pub add_request : ActionRequestRow → Tables → Tables
add_request row t = record t { action_requests = row ∷ t.action_requests }

abbrev pub add_decision : DecisionRow → Tables → Tables
add_decision row t = record t { decisions = row ∷ t.decisions }

abbrev pub add_effect : PolicyEffectRow → Tables → Tables
add_effect row t = record t { policy_effects = row ∷ t.policy_effects }

add_request-IsTables :
    (row : ActionRequestRow) (t : Tables)
    → has_request row.runtime_id row.request_id t ≡ false
    → IsTables t
    → IsTables (add_request row t)
unfolding has_request has_decision_id
add_request-IsTables row t fresh good = record {
  requests = (fresh, good.requests);
  decisions_once = good.decisions_once;
  effects_once = good.effects_once;
  decisions_refer =
      All-map (λ (r : DecisionRow). has_request r.runtime_id r.request_id t ≡ true)
        (λ (r : DecisionRow). has_request r.runtime_id r.request_id (add_request row t) ≡ true)
        (λ r h. ground arith) t.decisions good.decisions_refer;
  effects_refer = good.effects_refer;
}

add_decision-IsTables :
    (row : DecisionRow) (t : Tables)
    → has_decision row.runtime_id row.request_id t ≡ false
    → has_decision_id row.decision_id t ≡ false
    → has_request row.runtime_id row.request_id t ≡ true
    → IsTables t
    → IsTables (add_decision row t)
unfolding has_request has_decision_id has_decision
add_decision-IsTables row t fresh fresh_id there good = record {
  requests = good.requests;
  decisions_once = (fresh, fresh_id, good.decisions_once);
  effects_once = good.effects_once;
  decisions_refer = (there, good.decisions_refer);
  effects_refer =
      All-map (λ (r : PolicyEffectRow). has_decision_id r.decision_id t ≡ true)
        (λ (r : PolicyEffectRow). has_decision_id r.decision_id (add_decision row t) ≡ true)
        (λ r h. ground arith) t.policy_effects good.effects_refer;
}

add_effect-IsTables :
    (row : PolicyEffectRow) (t : Tables)
    → has_effect row.effect_id row.idempotency_key t ≡ false
    → has_decision_id row.decision_id t ≡ true
    → IsTables t
    → IsTables (add_effect row t)
unfolding has_effect has_request has_decision_id
add_effect-IsTables row t fresh there good = record {
  requests = good.requests;
  decisions_once = good.decisions_once;
  effects_once = (fresh, good.effects_once);
  decisions_refer = good.decisions_refer;
  effects_refer = (there, good.effects_refer);
}

module _ ⦃k : Checks⦄ where
  -- What an insert that does not fail has found, and what it makes.
  pub insert_request-ok :
      (row : ActionRequestRow) (t t' : Tables) (b : Bool)
      → insert_request row t ≡ ok (b, t')
      → ((b ≡ false) × (t ≡ t') × (has_request row.runtime_id row.request_id t ≡ true))
        ⊎ ((b ≡ true)
            × (has_request row.runtime_id row.request_id t ≡ false)
            × (add_request row t ≡ t'))
  unfolding insert_request
  insert_request-ok row t t' b h = ground arith

  pub insert_decision-ok :
      (row : DecisionRow) (t t' : Tables)
      → insert_decision row t ≡ ok t'
      → (has_decision row.runtime_id row.request_id t ≡ false)
        × (has_decision_id row.decision_id t ≡ false)
        × (has_request row.runtime_id row.request_id t ≡ true)
        × (add_decision row t ≡ t')
  unfolding insert_decision
  insert_decision-ok row t t' h = ground arith

  pub insert_effect-ok :
      (row : PolicyEffectRow) (t t' : Tables)
      → insert_effect row t ≡ ok t'
      → (has_effect row.effect_id row.idempotency_key t ≡ false)
        × (has_decision_id row.decision_id t ≡ true)
        × (add_effect row t ≡ t')
  unfolding insert_effect
  insert_effect-ok row t t' h = ground arith

  insert_request-IsTables :
      (row : ActionRequestRow) (t t' : Tables) (b : Bool)
      → insert_request row t ≡ ok (b, t')
      → IsTables t
      → IsTables t'
  insert_request-IsTables row t t' b h good = elim (insert_request-ok row t t' b h) [
    | inl (e, same, there) ↦ subst IsTables same good
    | inr (e, fresh, made) ↦ subst IsTables made (add_request-IsTables row t fresh good)
  ]

  insert_decision-IsTables :
      (row : DecisionRow) (t t' : Tables) → insert_decision row t ≡ ok t' → IsTables t → IsTables t'
  insert_decision-IsTables row t t' h good =
      let (fresh, fresh_id, there, made) = insert_decision-ok row t t' h in
      subst IsTables made (add_decision-IsTables row t fresh fresh_id there good)

  insert_effects-IsTables :
      (rows : List PolicyEffectRow) (t t' : Tables)
      → insert_effects rows t ≡ ok t'
      → IsTables t
      → IsTables t'
  unfolding insert_effects
  insert_effects-IsTables [] t t' h good = let e : t ≡ t' = ground arith in subst IsTables e good
  insert_effects-IsTables (row ∷ rows) t t' h good = elim (Result-cases (insert_effect row t)) [
    | inr (e, run) ↦ absurd (ground arith)
    | inl (t1, run) ↦
        let (fresh, there, made) = insert_effect-ok row t t1 run in
        insert_effects-IsTables rows t1 t' (ground arith)
          (subst IsTables made (add_effect-IsTables row t fresh there good))
  ]

  insert_rest-IsTables :
      (i : Insertion) (t : Tables) (r : Result (Bool × Tables))
      → insert_request i.request t ≡ r
      → IsTables t
      → IsTables (insert_rest i t r)
  unfolding insert_rest
  insert_rest-IsTables i t (err e) h good = good
  insert_rest-IsTables i t (ok (false, t1)) h good = good
  insert_rest-IsTables i t (ok (true, t1)) h good =
      elim (Result-cases (insert_decision i.decision t1)) [
        | inr (e, run) ↦ rw run good
        | inl (t2, run) ↦ elim (Result-cases (insert_effects i.effects t2)) [
          | inr (e, run') ↦ rw (run, run') good
          | inl (t3, run') ↦
              rw (run, run')
                (insert_effects-IsTables i.effects t2 t3 run' (
                  insert_decision-IsTables i.decision t1 t2 run
                    (insert_request-IsTables i.request t t1 true h good)))
        ]
      ]

  -- A transaction keeps the keys apart and the references whole.
  pub insert_all-IsTables : (i : Insertion) (t : Tables) → IsTables t → IsTables (insert_all i t)
  unfolding insert_all
  insert_all-IsTables i t good = insert_rest-IsTables i t (insert_request i.request t) refl good
