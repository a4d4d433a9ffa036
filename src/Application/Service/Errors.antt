-- ===== src/Application/Service/Errors.antt =====
-- The errors of the decision service, step by step.
use agent_action_control.Application.Composer.{compose}
use agent_action_control.Application.Normalizer.{normalize}
use agent_action_control.Application.Normalizer.Guarantees.{normalize-error}
use agent_action_control.Strings.{Unicode}
use agent_action_control.Domain.ProposedAction.{ProposedAction}
use agent_action_control.Domain.Effect.{PolicyEffect}
use agent_action_control.Application.Ports.{id_policy_effect, id_decision, Outcome-cases}
use agent_action_control.Application.Service.Laws.{validate_policy_evaluation-Fails, Fails}
use agent_action_control.Errors.{
  same, request_id_conflict, policy_unavailable, ok, ledger_failure, is, invalid_input,
  id_generation, evaluation_not_found, err, clock_failure, Result-cases, Result, Error,
}
use agent_action_control.Domain.Canonical.{compute_action_digest, Digests}
use agent_action_control.Application.Service.{
  evaluate, prepare, decide, continue, wrap_ledger_error, wrap_commit_error,
  validate_policy_evaluation, validate_authoritative_decision, valid_policy_effect,
  resolve_stored_evaluation, read_clock, prepare_policy_effects, normalize_decision_request_id,
  new_required_id, new_commit, evaluate_with, evaluate_new, EvaluateActionCommand, DecisionService,
}
use agent_action_control.Application.Evaluation.{StoredEvaluation, PolicyEvaluation, DecisionRecord}
use agent_action_control.Domain.Decision.{Decision}
use agent_action_control.Prelude.{
  ◌≡◌, ◌∷◌, ◌||◌, true, some, none, inr, inl, arith, [], String, Option, List, Bool-cases, Bool,
}
use agent_action_control.Application.Runtime.{AuthenticatedRuntime}

-- One of the sentinels that `Evaluate` answers with is on the chain.
abbrev pub is_classified : Error → Bool
is_classified e =
    is e invalid_input
    || is e request_id_conflict
    || is e policy_unavailable
    || is e ledger_failure
    || is e id_generation
    || is e clock_failure

normalize_decision_request_id-Fails :
    (v : String) → Fails (normalize_decision_request_id v) invalid_input
unfolding normalize_decision_request_id is same
normalize_decision_request_id-Fails v e h = ground arith

prepare-fails :
    ⦃u : Unicode⦄ ⦃d : Digests⦄ (caller : AuthenticatedRuntime) (c : EvaluateActionCommand)
    (e : Error)
    → prepare caller c ≡ err e
    → is e invalid_input ≡ true
unfolding prepare is same
prepare-fails caller c e h = elim (Result-cases (normalize_decision_request_id c.request_id)) [
  | inr (x, q) ↦ ground (arith, normalize_decision_request_id-Fails c.request_id x q)
  | inl (r, q) ↦ elim (Result-cases (normalize caller c.proposed_action)) [
    | inr (x, k) ↦ ground (arith, normalize-error caller c.proposed_action x k)
    | inl (a, k) ↦ elim (Result-cases (compute_action_digest a)) [
      | inr (x, l) ↦ ground arith
      | inl (x, l) ↦ absurd (ground arith)
    ]
  ]
]

module _ {S : Type 0} (service : DecisionService S) where
  new_required_id-fails :
      (kind : String) (s s' : S) (e : Error)
      → new_required_id service kind s ≡ (err e, s')
      → is e id_generation ≡ true
  unfolding new_required_id is same
  new_required_id-fails kind s s' e h = elim (Outcome-cases (service.id_generator kind s)) [
    | inl (v, t, q) ↦ ground arith
    | inr (x, t, q) ↦ ground arith
  ]

  prepare_policy_effects-fails :
      (effects : List PolicyEffect) (s s' : S) (e : Error)
      → prepare_policy_effects service effects s ≡ (err e, s')
      → (is e policy_unavailable || is e id_generation) ≡ true
  unfolding prepare_policy_effects is same
  prepare_policy_effects-fails [] s s' e h = absurd (ground arith)
  prepare_policy_effects-fails (x ∷ effects) s s' e h = elim (Bool-cases (valid_policy_effect x)) [
    | inr v ↦ ground arith
    | inl v ↦ elim (Outcome-cases (new_required_id service id_policy_effect s)) [
      | inr (y, t, q) ↦ ground (arith, new_required_id-fails id_policy_effect s t y q)
      | inl (id, t, q) ↦ elim (Outcome-cases (prepare_policy_effects service effects t)) [
        | inr (y, t', k) ↦ ground (arith, prepare_policy_effects-fails effects t t' y k)
        | inl (y, t', k) ↦ absurd (ground arith)
      ]
    ]
  ]

  read_clock-fails :
      (s s' : S) (e : Error) → read_clock service s ≡ (err e, s') → is e clock_failure ≡ true
  unfolding read_clock is same
  read_clock-fails s s' e h = ground arith

  pub decide-fails :
      (a : ProposedAction) (s s' : S) (e : Error)
      → decide service a s ≡ (err e, s')
      → is e policy_unavailable ≡ true
  unfolding decide is same
  decide-fails a s s' e h = elim (Outcome-cases (service.policy_evaluator a s)) [
    | inr (x, t, q) ↦ ground arith
    | inl (v, t, q) ↦ elim (Result-cases (validate_policy_evaluation v)) [
      | inr (x, k) ↦ ground (arith, validate_policy_evaluation-Fails v x k)
      | inl (x, k) ↦ elim (Result-cases (compose v)) [
        | inr (y, l) ↦ ground arith
        | inl (y, l) ↦ absurd (ground arith)
      ]
    ]
  ]

  new_commit-fails :
      (caller : AuthenticatedRuntime) (request : String) (a : ProposedAction) (digest : String)
      (v : PolicyEvaluation) (decision : Decision) (s s' : S) (e : Error)
      → new_commit service caller request a digest v decision s ≡ (err e, s')
      → is_classified e ≡ true
  unfolding new_commit
  new_commit-fails caller request a digest v decision s s' e h =
      elim (Outcome-cases (new_required_id service id_decision s)) [
        | inr (x, t, q) ↦ ground (arith, new_required_id-fails id_decision s t x q)
        | inl (id, t, q) ↦ elim (Outcome-cases (prepare_policy_effects service v.effects t)) [
          | inr (x, t', k) ↦ ground (arith, prepare_policy_effects-fails v.effects t t' x k)
          | inl (fx, t', k) ↦ elim (Outcome-cases (read_clock service t')) [
            | inr (x, t'', l) ↦ ground (arith, read_clock-fails t' t'' x l)
            | inl (x, t'', l) ↦ absurd (ground arith)
          ]
        ]
      ]

  wrap_ledger_error-fails : (e : Error) → is (wrap_ledger_error e) ledger_failure ≡ true
  unfolding wrap_ledger_error is same
  wrap_ledger_error-fails e = ground arith

  wrap_commit_error-fails : (e : Error) → is_classified (wrap_commit_error e) ≡ true
  unfolding wrap_commit_error
  wrap_commit_error-fails e = ground (arith, wrap_ledger_error-fails e)

  validate_authoritative_decision-fails :
      (r : DecisionRecord) (digest : String) (e : Error)
      → validate_authoritative_decision r digest ≡ err e
      → is e ledger_failure ≡ true
  unfolding validate_authoritative_decision is same
  validate_authoritative_decision-fails r digest e h = ground arith

  resolve_stored_evaluation-fails :
      (existing : Option StoredEvaluation) (caller request digest : String) (e : Error)
      → resolve_stored_evaluation existing caller request digest ≡ err e
      → is_classified e ≡ true
  unfolding resolve_stored_evaluation is same
  resolve_stored_evaluation-fails none caller request digest e h = ground arith
  resolve_stored_evaluation-fails (some stored) caller request digest e h =
      elim (Result-cases (validate_authoritative_decision stored.decision digest)) [
        | inr (x, run) ↦
            ground (arith, validate_authoritative_decision-fails stored.decision digest x run)
        | inl (x, run) ↦ ground arith
      ]

  evaluate_new-fails :
      (caller : AuthenticatedRuntime) (request : String) (a : ProposedAction) (digest : String)
      (s s' : S) (e : Error)
      → evaluate_new service caller request a digest s ≡ (err e, s')
      → is_classified e ≡ true
  unfolding evaluate_new
  evaluate_new-fails caller request a digest s s' e h = elim (Outcome-cases (decide service a s)) [
    | inr (x, t, q) ↦ ground (arith, decide-fails a s t x q)
    | inl ((v, decision), t, q) ↦
        elim (Outcome-cases (new_commit service caller request a digest v decision t)) [
          | inr (x, t', k) ↦
              ground (arith, new_commit-fails caller request a digest v decision t t' x k)
          | inl (c, t', k) ↦ elim (Outcome-cases (service.decision_ledger.commit_evaluation c t')) [
            | inr (x, t'', l) ↦ ground (arith, wrap_commit_error-fails x)
            | inl (r, t'', l) ↦ elim (Result-cases (validate_authoritative_decision r digest)) [
              | inr (x, m) ↦ ground (arith, validate_authoritative_decision-fails r digest x m)
              | inl (x, m) ↦ absurd (ground arith)
            ]
          ]
        ]
  ]

  continue-fails :
      (caller : AuthenticatedRuntime) (request : String) (a : ProposedAction) (digest : String)
      (found : Result (Option StoredEvaluation) × S) (s' : S) (e : Error)
      → continue service caller request a digest found ≡ (err e, s')
      → is_classified e ≡ true
  unfolding continue
  continue-fails caller request a digest (ok existing, s) s' e h =
      ground (arith, resolve_stored_evaluation-fails existing caller.runtime_id request digest e)
  continue-fails caller request a digest (err x, s) s' e h =
      elim (Bool-cases (is x evaluation_not_found)) [
        | inl q ↦ evaluate_new-fails caller request a digest s s' e (ground arith)
        | inr q ↦ ground (arith, wrap_ledger_error-fails x)
      ]

-- Whatever the policy, the ledger, the clock and the generator of identifiers answer, an error of
-- the service is classified: an invalid input, a request conflict, an unavailable policy, a failure
-- of the ledger, of a generated identifier or of the clock.
pub evaluate-classified :
    {S : Type 0} ⦃u : Unicode⦄ ⦃d : Digests⦄ (service : Option (DecisionService S))
    (caller : AuthenticatedRuntime) (command : EvaluateActionCommand) (s s' : S) (e : Error)
    → evaluate service caller command s ≡ (err e, s')
    → is_classified e ≡ true
unfolding evaluate evaluate_with is same
evaluate-classified none caller command s s' e h = ground arith
evaluate-classified (some service) caller command s s' e h =
    elim (Result-cases (prepare caller command)) [
      | inr (x, q) ↦ ground (arith, prepare-fails caller command x q)
      | inl ((request, a, digest), q) ↦
          continue-fails service caller request a digest
            (service.decision_ledger.get_evaluation_by_request_id caller.runtime_id request s) s' e
            (ground arith)
    ]
