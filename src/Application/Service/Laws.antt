-- ===== src/Application/Service/Laws.antt =====
-- What each step of the decision service guarantees.
use agent_action_control.Time.{is_zero}
use agent_action_control.Domain.Identifier.{is_blank}
use agent_action_control.Domain.Decision.{decision_type_valid}
use agent_action_control.Application.Service.{
  validate_policy_evaluation, validate_authoritative_decision, resolve_stored_evaluation,
  check_rule_ids, check_effects,
}
use agent_action_control.Domain.Effect.{PolicyEffect}
use agent_action_control.Prelude.{
  ◌≡◌, ◌∷◌, true, some, none, inr, inl, false, eq_iff, arith, [], String, Option, List,
}
use agent_action_control.Errors.{
  identity, same, policy_unavailable, ok, is, err, Sentinel, Result-cases, Result, Error,
}
use agent_action_control.Application.Evaluation.{StoredEvaluation, PolicyEvaluation, DecisionRecord}
use agent_action_control.Domain.Action.{ActionDigest}

-- Accepted as authoritative for a digest: what `validateAuthoritativeDecision` accepts.
pub record IsAuthoritative (r : DecisionRecord) (digest : ActionDigest) : Type 0 where
  pub identified : is_blank r.decision_id ≡ false
  pub typed : decision_type_valid r.decision.typ ≡ true
  pub bound : r.action_digest ≡ digest
  pub versioned : is_blank r.policy_version ≡ false
  pub timed : is_zero r.evaluated_at ≡ false

pub validate_authoritative_decision-IsAuthoritative :
    (r : DecisionRecord) (digest : ActionDigest)
    → validate_authoritative_decision r digest ≡ ok tt
    → IsAuthoritative r digest
unfolding validate_authoritative_decision is_blank
validate_authoritative_decision-IsAuthoritative r digest h = record {
  identified = ground arith;
  typed = ground arith;
  bound = ground (arith, eq_iff r.action_digest digest);
  versioned = ground arith;
  timed = ground arith;
}

pub validate_authoritative_decision_of_IsAuthoritative :
    (r : DecisionRecord) (digest : ActionDigest)
    → IsAuthoritative r digest
    → validate_authoritative_decision r digest ≡ ok tt
unfolding validate_authoritative_decision is_blank
validate_authoritative_decision_of_IsAuthoritative r digest h =
    let a = h.identified in
    let b = h.typed in
    let c = h.bound in
    let d = h.versioned in let e = h.timed in ground (arith, eq_iff r.action_digest digest)

-- A stored evaluation that the service returns: it is the ledger's, for this very request, and
-- authoritative for the digest.
pub resolve_stored_evaluation-IsAuthoritative :
    (existing : Option StoredEvaluation) (caller request : String) (digest : ActionDigest)
    (r : DecisionRecord)
    → resolve_stored_evaluation existing caller request digest ≡ ok r
    → IsAuthoritative r digest
unfolding resolve_stored_evaluation
resolve_stored_evaluation-IsAuthoritative none caller request digest r h = absurd (ground arith)
resolve_stored_evaluation-IsAuthoritative (some stored) caller request digest r h =
    elim (Result-cases (validate_authoritative_decision stored.decision digest)) [
      | inr (e, run) ↦ absurd (ground arith)
      | inl (x, run) ↦
          let q : stored.decision ≡ r = ground arith in
          rw (← q) (validate_authoritative_decision-IsAuthoritative stored.decision digest run)
    ]

-- The error that a step gives in its own name.
abbrev pub Fails {ℓ} : {A : Type ℓ} → Result A → Sentinel → Type ℓ
Fails r s = (e : Error) → r ≡ err e → is e s ≡ true

check_rule_ids-Fails : (ids : List String) → Fails (check_rule_ids ids) policy_unavailable
unfolding check_rule_ids is same identity
check_rule_ids-Fails [] e h = absurd (ground arith)
check_rule_ids-Fails (r ∷ ids) e h = ground (arith, check_rule_ids-Fails ids e)

check_effects-Fails : (es : List PolicyEffect) → Fails (check_effects es) policy_unavailable
unfolding check_effects is same identity
check_effects-Fails [] e h = absurd (ground arith)
check_effects-Fails (x ∷ es) e h = ground (arith, check_effects-Fails es e)

pub validate_policy_evaluation-Fails :
    (v : PolicyEvaluation) → Fails (validate_policy_evaluation v) policy_unavailable
unfolding validate_policy_evaluation is same identity
validate_policy_evaluation-Fails v e h =
    ground (arith, check_rule_ids-Fails v.matched_rule_ids e, check_effects-Fails v.effects e)
