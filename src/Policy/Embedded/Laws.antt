-- ===== src/Policy/Embedded/Laws.antt =====
-- The decisions that the embedded rules lead to.
use agent_action_control.Domain.Principal.{principal_runtime}
use agent_action_control.Domain.Effect.{
  safety_review_high, new_safety_review_requirement, new_create_safety_review_effect,
}
use agent_action_control.Application.Composer.{compose, without_reason, contains_terminal_reason}
use agent_action_control.Application.Composer.Laws.{precedence, compose-eq-precedence}
use agent_action_control.Errors.{ok, Result-cases}
use agent_action_control.Domain.Decision.Laws.{all_valid, is_empty}
use agent_action_control.Policy.Embedded.{
  evaluate, scope_matches_parameters, scope_matches_action, is_high_impact_visibility_expansion,
  has_matching_runtime_evidence, evaluate_permission, evaluate_action_rules,
}
use agent_action_control.Domain.ProposedAction.{ProposedAction}
use agent_action_control.Application.Evaluation.{PolicyEvaluation}
use agent_action_control.Domain.Decision.{
  reason_code_valid, reason_visibility_expansion, reason_external_destination,
  reason_destructive_operation, reason_delegator_approval_required, reason_actor_not_authorized,
  new_require_approval_action, new_allow_decision, decision_deny, ReasonCode, Decision,
}
use agent_action_control.Domain.Evidence.{AuthorizationEvidence, AuthorizationScope}
use agent_action_control.Domain.Parameters.{
  delete, update_resource_access, external_send, destination_external, delete_hard,
  access_workspace, access_public, access_private, ActionParameters,
}
use agent_action_control.Prelude.{
  Some, any, ◌∙◌, ◌↔◌, map, eq_iff, not, ◌&&◌, ◌≡◌, ◌∷◌, ◌||◌, true, some, refl, none, ltb, length,
  inr, inl, false, eqb, if◌then◌else◌, arith, [], Option, List, Bool-cases, Bool, ◌==◌,
}

-- What the action would do is what the scope is for.
abbrev pub covers : AuthorizationScope → Option ActionParameters → Bool
covers scope none = false
covers scope (some (external_send p)) = scope.destination_scope == p.destination_scope
covers scope (some (update_resource_access p)) = scope.requested_scope == p.requested_scope
covers scope (some (delete p)) = scope.delete_mode == p.mode

-- `item` was issued by the runtime that acts, for this type of action and what it would do.
abbrev pub authorizes : ProposedAction → AuthorizationEvidence → Bool
authorizes a item =
    item.issued_by.typ == principal_runtime
    && item.issued_by.id == a.actor.runtime_id
    && item.scope.action_type == a.typ
    && covers item.scope a.parameters

-- `a` carries evidence, and no item of it authorises the action.
abbrev pub is_unauthorized : ProposedAction → Bool
is_unauthorized a = not (is_empty a.evidence) && not (any (authorizes a) a.evidence)

scope_matches_parameters-eq-covers :
    (scope : AuthorizationScope) (p : Option ActionParameters)
    → scope_matches_parameters scope p ≡ covers scope p
unfolding scope_matches_parameters
scope_matches_parameters-eq-covers scope none = refl
scope_matches_parameters-eq-covers scope (some (external_send p)) = refl
scope_matches_parameters-eq-covers scope (some (update_resource_access p)) = refl
scope_matches_parameters-eq-covers scope (some (delete p)) = refl

has_matching_runtime_evidence-eq-any :
    (a : ProposedAction) (es : List AuthorizationEvidence)
    → has_matching_runtime_evidence a es ≡ any (authorizes a) es
unfolding has_matching_runtime_evidence scope_matches_action
has_matching_runtime_evidence-eq-any a [] = refl
has_matching_runtime_evidence-eq-any a (x ∷ es) = ground (
  arith,
  has_matching_runtime_evidence-eq-any a es,
  scope_matches_parameters-eq-covers x.scope a.parameters,
)

-- The reason beside the delegator's approval for which `a` has to wait for it.
abbrev pub risk_of : Bool → Option ActionParameters → Option ReasonCode
risk_of evidenced none = none
risk_of evidenced (some (external_send p)) =
    if p.destination_scope == destination_external && not evidenced
    then some reason_external_destination
    else none
risk_of evidenced (some (update_resource_access p)) =
    if p.current_scope == access_private
      && (p.requested_scope == access_workspace || p.requested_scope == access_public)
    then some reason_visibility_expansion
    else none
risk_of evidenced (some (delete p)) =
    if p.mode == delete_hard || not p.recoverable then some reason_destructive_operation else none

abbrev pub ruling_of : Bool → Option ReasonCode → Decision
ruling_of true risk = record {
  typ = decision_deny;
  reason_codes = reason_actor_not_authorized ∷ [];
  required_actions = [];
}
ruling_of false none = new_allow_decision
ruling_of false (some reason) = record {
  typ = decision_deny;
  reason_codes = reason_delegator_approval_required ∷ reason ∷ [];
  required_actions = new_require_approval_action ∷ [];
}

-- The decision on `a` that the rules mean.
abbrev pub ruling : ProposedAction → Decision
ruling a = ruling_of (is_unauthorized a) (risk_of (not (is_empty a.evidence)) a.parameters)

-- The reasons that stand for a decision.
abbrev pub reasons_of : Bool → Option ReasonCode → List ReasonCode
reasons_of true risk = reason_actor_not_authorized ∷ []
reasons_of false none = []
reasons_of false (some reason) = reason_delegator_approval_required ∷ reason ∷ []

ltb-length : (es : List AuthorizationEvidence) → ltb 0 (length es) ≡ not (is_empty es)
ltb-length [] = refl
ltb-length (e ∷ es) = ground arith

eqb-length : (es : List AuthorizationEvidence) → eqb (length es) 0 ≡ is_empty es
eqb-length [] = refl
eqb-length (e ∷ es) = ground arith

evaluate_action_rules-reasons :
    (p : Option ActionParameters) (a : ProposedAction) (e : PolicyEvaluation)
    → a.parameters ≡ p
    → e.deny_reason_codes ≡ []
    → (evaluate_action_rules a a.evidence e).deny_reason_codes
      ≡ reasons_of false (risk_of (not (is_empty a.evidence)) p)
unfolding evaluate_action_rules is_high_impact_visibility_expansion
evaluate_action_rules-reasons none a e h k = rw (h, k) refl
evaluate_action_rules-reasons (some (external_send p)) a e h k =
    rw h (ground (arith, eqb-length a.evidence))
evaluate_action_rules-reasons (some (update_resource_access p)) a e h k = rw h (ground arith)
evaluate_action_rules-reasons (some (delete p)) a e h k = rw h (ground arith)

evaluate_permission-reasons :
    (a : ProposedAction)
    → (evaluate_permission a).deny_reason_codes
      ≡ reasons_of (is_unauthorized a) (risk_of (not (is_empty a.evidence)) a.parameters)
unfolding evaluate_permission
evaluate_permission-reasons a =
    rw (ltb-length a.evidence, has_matching_runtime_evidence-eq-any a a.evidence)
      (elim (Bool-cases (is_unauthorized a)) [
        | inl u ↦ rw (u) refl
        | inr u ↦ rw (u) (evaluate_action_rules-reasons a.parameters a _ refl refl)
      ])

-- One of the reasons that are not terminal beside the approval reason.
abbrev is_approval_risk : ReasonCode → Bool
is_approval_risk r =
    r == reason_external_destination
    || r == reason_visibility_expansion
    || r == reason_destructive_operation

abbrev all_risks : Option ReasonCode → Bool
all_risks none = true
all_risks (some r) = is_approval_risk r

all_risks-risk_of : (b : Bool) (p : Option ActionParameters) → all_risks (risk_of b p) ≡ true
all_risks-risk_of b none = refl
all_risks-risk_of b (some (external_send p)) = ground arith
all_risks-risk_of b (some (update_resource_access p)) = ground arith
all_risks-risk_of b (some (delete p)) = ground arith

precedence-reasons_of :
    (u : Bool) (risk : Option ReasonCode)
    → all_risks risk ≡ true
    → (all_valid (reasons_of u risk) ≡ true) × (precedence (reasons_of u risk) ≡ ruling_of u risk)
unfolding reason_code_valid contains_terminal_reason without_reason
precedence-reasons_of true risk h = (refl, refl)
precedence-reasons_of false none h = (refl, refl)
precedence-reasons_of false (some r) h = elim (Bool-cases (r == reason_external_destination)) [
  | inl k ↦ rw ((eq_iff r reason_external_destination).0 k) (refl, refl)
  | inr k ↦ elim (Bool-cases (r == reason_visibility_expansion)) [
    | inl l ↦ rw ((eq_iff r reason_visibility_expansion).0 l) (refl, refl)
    | inr l ↦
        let q : r ≡ reason_destructive_operation =
          ground (arith, eq_iff r reason_destructive_operation) in
        rw q (refl, refl)
  ]
]

compose-reasons_of :
    (e : PolicyEvaluation) (u b : Bool) (p : Option ActionParameters)
    → e.deny_reason_codes ≡ reasons_of u (risk_of b p)
    → compose e ≡ ok (ruling_of u (risk_of b p))
compose-reasons_of e u b p h =
    let (known, same) = precedence-reasons_of u (risk_of b p) (all_risks-risk_of b p) in
    rw (compose-eq-precedence e, h, known, same) refl

-- The review of a secret payload changes no reason.
evaluate-reasons :
    (a : ProposedAction) (e : PolicyEvaluation)
    → evaluate a ≡ ok e
    → e.deny_reason_codes ≡ (evaluate_permission a).deny_reason_codes
unfolding evaluate
evaluate-reasons a e h =
    elim (Result-cases (
      new_safety_review_requirement safety_review_high
        (map (λ (item : AuthorizationEvidence). item.id) a.evidence))) [
          | inr (x, q) ↦ ground arith
          | inl (r, q) ↦ elim (Result-cases (new_create_safety_review_effect r)) [
            | inr (x, k) ↦ ground arith
            | inl (f, k) ↦ ground arith
          ]
        ]

-- Whatever the embedded policy evaluates, the composer decides, and the decision is the one that
-- the rules mean: evidence that does not match denies the action for good; an action that is risky
-- waits for the delegator's approval, with the reason for it; all else is allowed.
pub compose-evaluate :
    (a : ProposedAction) (e : PolicyEvaluation) → evaluate a ≡ ok e → compose e ≡ ok (ruling a)
compose-evaluate a e h =
    compose-reasons_of e (is_unauthorized a) (not (is_empty a.evidence)) a.parameters
      (evaluate-reasons a e h ∙ evaluate_permission-reasons a)

-- The item is for what the action would do.
abbrev pub Covers : AuthorizationScope → Option ActionParameters → Type 0
Covers scope none = ⊥
Covers scope (some (external_send p)) = scope.destination_scope ≡ p.destination_scope
Covers scope (some (update_resource_access p)) = scope.requested_scope ≡ p.requested_scope
Covers scope (some (delete p)) = scope.delete_mode ≡ p.mode

-- `item` was issued by the runtime that acts, for this type of action and what it would do.
pub record Authorizes (a : ProposedAction) (item : AuthorizationEvidence) : Type 0 where
  pub by_runtime : item.issued_by.typ ≡ principal_runtime
  pub by_caller : item.issued_by.id ≡ a.actor.runtime_id
  pub same_type : item.scope.action_type ≡ a.typ
  pub same_scope : Covers item.scope a.parameters

covers_iff :
    (scope : AuthorizationScope) (p : Option ActionParameters)
    → (covers scope p ≡ true) ↔ Covers scope p
covers_iff scope none = (λ h. absurd (ground arith), λ h. absurd h)
covers_iff scope (some (external_send p)) = eq_iff scope.destination_scope p.destination_scope
covers_iff scope (some (update_resource_access p)) = eq_iff scope.requested_scope p.requested_scope
covers_iff scope (some (delete p)) = eq_iff scope.delete_mode p.mode

-- The Boolean test of an item means what it says.
authorizes_iff :
    (a : ProposedAction) (x : AuthorizationEvidence) → (authorizes a x ≡ true) ↔ Authorizes a x
authorizes_iff a x = (
  λ h. record {
    by_runtime = ground (arith, eq_iff x.issued_by.typ principal_runtime);
    by_caller = ground (arith, eq_iff x.issued_by.id a.actor.runtime_id);
    same_type = ground (arith, eq_iff x.scope.action_type a.typ);
    same_scope = (covers_iff x.scope a.parameters).0 (ground arith);
  },
  λ h.
      let p = h.by_runtime in
      let q = h.by_caller in
      let r = h.same_type in
      let s = (covers_iff x.scope a.parameters).1 h.same_scope in
      ground (
        arith,
        eq_iff x.issued_by.typ principal_runtime,
        eq_iff x.issued_by.id a.actor.runtime_id,
        eq_iff x.scope.action_type a.typ,
      ),
)

any→Some :
    (a : ProposedAction) (es : List AuthorizationEvidence)
    → any (authorizes a) es ≡ true
    → Some (Authorizes a) es
any→Some a [] h = cc
any→Some a (x ∷ es) h = elim (Bool-cases (authorizes a x)) [
  | inl k ↦ inl ((authorizes_iff a x).0 k)
  | inr k ↦ inr (any→Some a es (ground arith))
]

Some→any :
    (a : ProposedAction) (es : List AuthorizationEvidence)
    → Some (Authorizes a) es
    → any (authorizes a) es ≡ true
Some→any a [] k = absurd k
Some→any a (x ∷ es) (inl k) = rw ((authorizes_iff a x).1 k) refl
Some→any a (x ∷ es) (inr k) = ground (arith, Some→any a es k)

-- A list of evidence authorises an action exactly if one of its items was issued by the runtime
-- that acts, for the action's type, and for its destination, its requested access or its way of
-- deleting.
pub has_matching_runtime_evidence_iff :
    (a : ProposedAction) (es : List AuthorizationEvidence)
    → (has_matching_runtime_evidence a es ≡ true) ↔ Some (Authorizes a) es
has_matching_runtime_evidence_iff a es =
    rw (has_matching_runtime_evidence-eq-any a es) (any→Some a es, Some→any a es)
