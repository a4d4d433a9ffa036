-- ===== src/Application/Composer/Laws.antt =====
-- The precedence of the composer: no reason, a terminal reason, approval, other reasons.
use agent_action_control.Prelude.{
  Bool, any, not, sym, suc, eqb, ℕ, length, inr, ◌∙◌, inl, Bool-cases, if◌then◌else◌, ◌≡◌, refl,
  true, false, ◌||◌, ◌==◌, List, [], ◌∷◌, arith, ap,
}
use agent_action_control.Containers.{contains}
use agent_action_control.Errors.{invalid_reason_code, err, ok}
use agent_action_control.Domain.Decision.{
  RequiredAction, decision_allow, decision_deny, new_allow_decision, new_deny_decision, Decision,
  required_action_valid, required_action_type_valid, ReasonCode, reason_delegator_approval_required,
  reason_code_valid, new_require_approval_action, reason_external_destination,
  reason_visibility_expansion, reason_destructive_operation,
}
use agent_action_control.Domain.Decision.Laws.{
  new_deny_decision-IsDeny, first_seen, IsDecision, all_valid, is_empty, new_deny_decision-eq,
}
use agent_action_control.Application.Evaluation.{PolicyEvaluation}
use agent_action_control.Application.Composer.{
  contains_reason, contains_terminal_reason, without_reason, compose,
}

contains_reason-eq-contains :
    (reasons : List ReasonCode) (r : ReasonCode) → contains_reason reasons r ≡ contains r reasons
unfolding contains_reason
contains_reason-eq-contains [] r = refl
contains_reason-eq-contains (c ∷ cs) r = ap (λ b. c == r || b) (contains_reason-eq-contains cs r)

contains-without_reason :
    (reasons : List ReasonCode) (r : ReasonCode) → contains r (without_reason reasons r) ≡ false
unfolding without_reason
contains-without_reason [] r = refl
contains-without_reason (c ∷ cs) r = ground (arith, contains-without_reason cs r)

-- Leaving out the approval reason leaves the validity of the reasons as it was.
all_valid-without_reason :
    (reasons : List ReasonCode)
    → all_valid (without_reason reasons reason_delegator_approval_required) ≡ all_valid reasons
unfolding without_reason reason_code_valid
all_valid-without_reason [] = refl
all_valid-without_reason (c ∷ cs) = ground (arith, all_valid-without_reason cs)

-- A terminal reason is still there when the approval reason is left out.
is_empty-without_reason :
    (reasons : List ReasonCode)
    → contains_terminal_reason reasons ≡ true
    → is_empty (without_reason reasons reason_delegator_approval_required) ≡ false
unfolding without_reason contains_terminal_reason
is_empty-without_reason [] h = cc
is_empty-without_reason (c ∷ cs) h = ground (arith, is_empty-without_reason cs)

-- `NewDenyDecision` where the required actions fit the reasons.
deny_plain :
    (cs : List ReasonCode)
    → is_empty cs ≡ false
    → contains reason_delegator_approval_required cs ≡ false
    → new_deny_decision cs [] ≡ (
        if all_valid cs
        then ok
            (record { typ = decision_deny; reason_codes = first_seen [] cs; required_actions = [] })
        else err (invalid_reason_code ∷ []))
deny_plain cs h k = rw (new_deny_decision-eq cs []) (ground arith)

deny_approval :
    (cs : List ReasonCode)
    → is_empty cs ≡ false
    → contains reason_delegator_approval_required cs ≡ true
    → new_deny_decision cs (new_require_approval_action ∷ []) ≡ (
        if all_valid cs
        then ok (record {
          typ = decision_deny;
          reason_codes = first_seen [] cs;
          required_actions = new_require_approval_action ∷ [];
        })
        else err (invalid_reason_code ∷ []))
unfolding required_action_valid required_action_type_valid
deny_approval cs h k =
    rw (new_deny_decision-eq cs (new_require_approval_action ∷ [])) (ground arith)

-- The reasons that are no refusal for good: the approval that is asked for, and what makes it
-- necessary.
abbrev pub is_approvable : ReasonCode → Bool
is_approvable r =
    r == reason_delegator_approval_required
    || r == reason_external_destination
    || r == reason_visibility_expansion
    || r == reason_destructive_operation

abbrev pub is_terminal : ReasonCode → Bool
is_terminal r = not (is_approvable r)

-- The reasons but the approval.
abbrev pub final_reasons : List ReasonCode → List ReasonCode
final_reasons [] = []
final_reasons (c ∷ cs) =
    if c == reason_delegator_approval_required then final_reasons cs else c ∷ final_reasons cs

contains_terminal_reason-eq-any :
    (cs : List ReasonCode) → contains_terminal_reason cs ≡ any is_terminal cs
unfolding contains_terminal_reason
contains_terminal_reason-eq-any [] = refl
contains_terminal_reason-eq-any (c ∷ cs) = ground (arith, contains_terminal_reason-eq-any cs)

without_reason-eq-final_reasons :
    (cs : List ReasonCode) → without_reason cs reason_delegator_approval_required ≡ final_reasons cs
unfolding without_reason
without_reason-eq-final_reasons [] = refl
without_reason-eq-final_reasons (c ∷ cs) = ground (arith, without_reason-eq-final_reasons cs)

-- The public decision for known reasons: the first occurrences, without the approval reason if a
-- terminal reason is among them.
abbrev pub precedence : List ReasonCode → Decision
precedence [] = new_allow_decision
precedence (c ∷ cs) =
    if any is_terminal (c ∷ cs)
    then record {
      typ = decision_deny;
      reason_codes = first_seen [] (final_reasons (c ∷ cs));
      required_actions = [];
    }
    else record {
      typ = decision_deny;
      reason_codes = first_seen [] (c ∷ cs);
      required_actions =
          if contains reason_delegator_approval_required (c ∷ cs)
          then new_require_approval_action ∷ []
          else [];
    }

suc-ne-zero : (n : ℕ) → eqb (suc n) 0 ≡ false
suc-ne-zero n = ground arith

compose-reasons :
    (cs : List ReasonCode) (e : PolicyEvaluation)
    → e.deny_reason_codes ≡ cs
    → compose e ≡ (if all_valid cs then ok (precedence cs) else err (invalid_reason_code ∷ []))
unfolding compose
compose-reasons [] e h = rw h refl
compose-reasons (c ∷ cs) e h =
    rw (h, suc-ne-zero (length cs))
      (elim (Bool-cases (contains_terminal_reason (c ∷ cs))) [
        | inl t ↦
            let same = without_reason-eq-final_reasons (c ∷ cs) in
            let t' : any is_terminal (c ∷ cs) ≡ true =
              sym (contains_terminal_reason-eq-any (c ∷ cs)) ∙ t in
            rw (t, t', ← same)
              (deny_plain (without_reason (c ∷ cs) reason_delegator_approval_required)
                  (is_empty-without_reason (c ∷ cs) t)
                  (contains-without_reason (c ∷ cs) reason_delegator_approval_required)
                ∙ rw (all_valid-without_reason (c ∷ cs)) refl)
        | inr t ↦
            let t' : any is_terminal (c ∷ cs) ≡ false =
              sym (contains_terminal_reason-eq-any (c ∷ cs)) ∙ t in
            rw (t, t', contains_reason-eq-contains (c ∷ cs) reason_delegator_approval_required)
              (elim (Bool-cases (contains reason_delegator_approval_required (c ∷ cs))) [
                | inl k ↦ rw k (deny_approval (c ∷ cs) refl k)
                | inr k ↦ rw k (deny_plain (c ∷ cs) refl k)
              ])
      ])

-- What the composer answers to every policy result: it fails exactly on a reason code that is not
-- one of the known six, and otherwise follows the precedence.
pub compose-eq-precedence :
    (e : PolicyEvaluation)
    → compose e ≡ (
        if all_valid e.deny_reason_codes
        then ok (precedence e.deny_reason_codes)
        else err (invalid_reason_code ∷ []))
compose-eq-precedence e = compose-reasons e.deny_reason_codes e refl

IsDeny-result :
    (cs : List ReasonCode) (d : Decision) (reasons : List ReasonCode)
    (actions : List RequiredAction)
    → is_empty cs ≡ false
    → new_deny_decision reasons actions ≡ ok d
    → IsDecision d × ((d.typ == decision_allow) ≡ is_empty cs)
IsDeny-result cs d reasons actions some_reason h =
    let deny = new_deny_decision-IsDeny reasons actions d h in
    (inr deny, rw deny.denied (sym some_reason))

compose_list-IsDecision :
    (cs : List ReasonCode) (e : PolicyEvaluation) (d : Decision)
    → e.deny_reason_codes ≡ cs
    → compose e ≡ ok d
    → IsDecision d × ((d.typ == decision_allow) ≡ is_empty cs)
unfolding compose
compose_list-IsDecision [] e d q h =
    let allow : d ≡ new_allow_decision = ground arith in (inl allow, rw allow refl)
compose_list-IsDecision (c ∷ cs) e d q h = elim (Bool-cases (contains_terminal_reason (c ∷ cs))) [
  | inl t ↦
      IsDeny-result (c ∷ cs) d (without_reason (c ∷ cs) reason_delegator_approval_required) [] refl
        (ground arith)
  | inr t ↦ elim (Bool-cases (contains_reason (c ∷ cs) reason_delegator_approval_required)) [
    | inl k ↦
        IsDeny-result (c ∷ cs) d (c ∷ cs) (new_require_approval_action ∷ []) refl (ground arith)
    | inr k ↦ IsDeny-result (c ∷ cs) d (c ∷ cs) [] refl (ground arith)
  ]
]

-- Every composed decision satisfies the invariant of decisions, and it allows the action exactly if
-- the policy gave no reason to deny it.
pub compose-IsDecision :
    (e : PolicyEvaluation) (d : Decision)
    → compose e ≡ ok d
    → IsDecision d × ((d.typ == decision_allow) ≡ is_empty e.deny_reason_codes)
compose-IsDecision e d h = compose_list-IsDecision e.deny_reason_codes e d refl h
