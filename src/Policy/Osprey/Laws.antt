-- ===== src/Policy/Osprey/Laws.antt =====
-- The decisions that Osprey's verdicts lead to.
use agent_action_control.Application.Composer.{without_reason, contains_terminal_reason, compose}
use agent_action_control.Containers.{contains}
use agent_action_control.Application.Composer.Laws.{
  compose-IsDecision, precedence, compose-eq-precedence,
}
use agent_action_control.Policy.Osprey.{
  fail_closed, evaluate_answer, terminal_deny_prefix, parse_terminal_reason,
  new_safety_review_effect, map_verdicts_loop, map_verdicts, approval_prefix, apply_verdict,
}
use agent_action_control.Domain.Decision.Laws.{is_empty, all_valid}
use agent_action_control.Strings.{trim_prefix, has_prefix, Unicode}
use agent_action_control.Errors.{err, Result, Error, ◌>>=◌, ok, Result-cases}
use agent_action_control.Domain.Decision.{
  reason_policy_unavailable, decision_deny, decision_allow, Decision,
  reason_delegator_approval_required, reason_code_valid, parse_reason_code, ReasonCode,
}
use agent_action_control.Application.Evaluation.{PolicyEvaluation}
use agent_action_control.Prelude.{
  ◌∙◌, ◌≡◌, ◌∷◌, ◌||◌, true, refl, not, inr, inl, false, eq_iff, arith, [], String, List,
  Bool-cases, Bool, ◌==◌, ◌++◌, ◌&&◌,
}

-- A verdict that forbids the action or asks for approval.
abbrev pub is_blocking : String → Bool
is_blocking verdict = has_prefix verdict terminal_deny_prefix || has_prefix verdict approval_prefix

abbrev pub any_blocking : List String → Bool
any_blocking [] = false
any_blocking (v ∷ vs) = is_blocking v || any_blocking vs

any_blocking_of_contains :
    (v : String) (vs : List String)
    → contains v vs ≡ true
    → is_blocking v ≡ true
    → any_blocking vs ≡ true
any_blocking_of_contains v [] h k = absurd (ground arith)
any_blocking_of_contains v (w ∷ vs) h k = elim (Bool-cases (w == v)) [
  | inl e ↦ let q : w ≡ v = (eq_iff w v).0 e in rw (q, k) refl
  | inr e ↦ ground (arith, any_blocking_of_contains v vs)
]

all_valid-append_one :
    (cs : List ReasonCode) (c : ReasonCode)
    → all_valid (cs ++ c ∷ []) ≡ (all_valid cs && reason_code_valid c)
all_valid-append_one [] c = ground arith
all_valid-append_one (d ∷ cs) c = ground (arith, all_valid-append_one cs c)

is_empty-append_one : (cs : List ReasonCode) (c : ReasonCode) → is_empty (cs ++ c ∷ []) ≡ false
is_empty-append_one [] c = refl
is_empty-append_one (d ∷ cs) c = refl

module _ ⦃u : Unicode⦄ where
  parse_terminal_reason-valid :
      (v : String) (r : ReasonCode) → parse_terminal_reason v ≡ ok r → reason_code_valid r ≡ true
  unfolding parse_terminal_reason parse_reason_code
  parse_terminal_reason-valid v r h = ground arith

  -- One verdict leaves the reasons known, and leaves some if it blocks or if there were some.
  apply_verdict-reasons :
      (v : String) (e : PolicyEvaluation) (created : Bool) (f : PolicyEvaluation) (b : Bool)
      → apply_verdict v e created ≡ ok (f, b)
      → all_valid e.deny_reason_codes ≡ true
      → (all_valid f.deny_reason_codes ≡ true)
        × (is_empty f.deny_reason_codes ≡ (is_empty e.deny_reason_codes && not (is_blocking v)))
  unfolding apply_verdict reason_code_valid
  apply_verdict-reasons v e created f b h k =
      elim (Bool-cases (has_prefix v terminal_deny_prefix)) [
        | inl p ↦ elim (Result-cases (parse_terminal_reason (trim_prefix v terminal_deny_prefix))) [
          | inr (x, q) ↦ absurd (ground arith)
          | inl (r, q) ↦
              let q' : e.deny_reason_codes ++ r ∷ [] ≡ f.deny_reason_codes = ground arith in
              let valid : reason_code_valid r ≡ true =
                parse_terminal_reason-valid (trim_prefix v terminal_deny_prefix) r q in
              (
                rw (← q', all_valid-append_one e.deny_reason_codes r, k) valid,
                rw (← q', is_empty-append_one e.deny_reason_codes r, p) (ground arith),
              )
        ]
        | inr p ↦ elim (Bool-cases (has_prefix v approval_prefix)) [
          | inl q ↦
              let q' : e.deny_reason_codes ++ reason_delegator_approval_required ∷ []
                  ≡ f.deny_reason_codes =
                ground arith in
              (
                rw
                    (
                      ← q',
                      all_valid-append_one e.deny_reason_codes reason_delegator_approval_required,
                      k,
                    )
                    refl,
                rw
                    (
                      ← q',
                      is_empty-append_one e.deny_reason_codes reason_delegator_approval_required,
                      p,
                      q,
                    )
                    (ground arith),
              )
          | inr q ↦ elim (Result-cases new_safety_review_effect) [
            | inr (x, r) ↦
                let q' : e.deny_reason_codes ≡ f.deny_reason_codes = ground arith in
                (rw (← q') k, rw (← q', p, q) (ground arith))
            | inl (x, r) ↦
                let q' : e.deny_reason_codes ≡ f.deny_reason_codes = ground arith in
                (rw (← q') k, rw (← q', p, q) (ground arith))
          ]
        ]
      ]

  map_verdicts_loop-reasons :
      (vs seen : List String) (e : PolicyEvaluation) (created : Bool) (f : PolicyEvaluation)
      → (any_blocking seen ≡ true → is_empty e.deny_reason_codes ≡ false)
      → all_valid e.deny_reason_codes ≡ true
      → map_verdicts_loop vs seen e created ≡ ok f
      → (all_valid f.deny_reason_codes ≡ true)
        × (is_empty f.deny_reason_codes ≡ (is_empty e.deny_reason_codes && not (any_blocking vs)))
  unfolding map_verdicts_loop
  map_verdicts_loop-reasons [] seen e created f inv k h =
      let q : e ≡ f = ground arith in rw (← q) (k, ground arith)
  map_verdicts_loop-reasons (v ∷ vs) seen e created f inv k h =
      elim (Bool-cases (contains v seen)) [
        | inl c ↦ ground (
          arith,
          map_verdicts_loop-reasons vs seen e created f inv k,
          any_blocking_of_contains v seen c,
        )
        | inr c ↦ elim (Result-cases (apply_verdict v e created)) [
          | inr (x, q) ↦ absurd (ground arith)
          | inl ((g, b), q) ↦
              let step = apply_verdict-reasons v e created g b q k in
              let next : PolicyEvaluation = record g {
                matched_rule_ids = g.matched_rule_ids ++ v ∷ [];
              } in
              ground (
                arith,
                step.0,
                step.1,
                map_verdicts_loop-reasons vs (v ∷ seen) next b f
                    (λ (some_blocking : any_blocking (v ∷ seen) ≡ true).
                      ground (arith, step.1, inv))
                    step.0,
              )
        ]
      ]

  map_verdicts-reasons :
      (version : String) (vs : List String) (e : PolicyEvaluation)
      → map_verdicts version vs ≡ ok e
      → (all_valid e.deny_reason_codes ≡ true)
        × (is_empty e.deny_reason_codes ≡ not (any_blocking vs))
  unfolding map_verdicts
  map_verdicts-reasons version vs e h =
      map_verdicts_loop-reasons vs []
        (record {
          deny_reason_codes = [];
          effects = [];
          matched_rule_ids = [];
          policy_version = version;
        })
        false e (λ h. absurd (ground arith)) refl h

  -- Verdicts that are accepted are composed to a decision, and the decision allows the action
  -- exactly if no verdict begins with one of the two prefixes that deny it or ask for approval.
  pub compose-map_verdicts :
      (version : String) (vs : List String) (e : PolicyEvaluation)
      → map_verdicts version vs ≡ ok e
      → (d : Decision) × (compose e ≡ ok d) × ((d.typ == decision_allow) ≡ not (any_blocking vs))
  compose-map_verdicts version vs e h =
      let (valid, blocked) = map_verdicts-reasons version vs e h in
      let run : compose e ≡ ok (precedence e.deny_reason_codes) =
        rw (compose-eq-precedence e, valid) refl in
      (
        precedence e.deny_reason_codes,
        run,
        (compose-IsDecision e (precedence e.deny_reason_codes) run).1 ∙ blocked,
      )

  -- Osprey fails closed. An error of the coordinator is composed to the decision that denies the
  -- action because the policy is unavailable, and so are verdicts of which one is refused.
  pub compose-evaluate_answer :
      (version : String) (answer : Result (List String)) (e : Error)
      → (answer >>= map_verdicts version) ≡ err e
      → compose (evaluate_answer version answer)
        ≡ ok (record {
          typ = decision_deny;
          reason_codes = reason_policy_unavailable ∷ [];
          required_actions = [];
        })
  unfolding evaluate_answer fail_closed contains_terminal_reason without_reason reason_code_valid
  compose-evaluate_answer version (err x) e h =
      compose-eq-precedence (evaluate_answer version (err x))
  compose-evaluate_answer version (ok vs) e h =
      let refused : map_verdicts version vs ≡ err e = h in
      let q : evaluate_answer version (ok vs) ≡ fail_closed version = ground arith in
      rw (evaluate_answer, q) (compose-eq-precedence (fail_closed version))
