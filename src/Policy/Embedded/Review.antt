-- ===== src/Policy/Embedded/Review.antt =====
-- The safety review that the embedded policy asks for when a payload is secret.
use agent_action_control.Containers.{contains}
use agent_action_control.Domain.Identifier.{not-is_blank_of_IsIdentifier}
use agent_action_control.Errors.{discard, ok, invalid_argument, err}
use agent_action_control.Policy.Embedded.{
  evaluate, evaluate_permission, evaluate_action_rules, contains_classification,
}
use agent_action_control.Domain.Effect.{
  priority_valid, validate_effect, safety_review_high, new_safety_review_requirement,
  new_create_safety_review_effect, create_safety_review, check_refs,
}
use agent_action_control.Strings.{Unicode}
use agent_action_control.Domain.ProposedAction.{ProposedAction}
use agent_action_control.Application.Evaluation.{PolicyEvaluation}
use agent_action_control.Domain.Evidence.Laws.{IsEvidence}
use agent_action_control.Domain.ProposedAction.Laws.{IsAction}
use agent_action_control.Domain.Evidence.{AuthorizationEvidence}
use agent_action_control.Prelude.{
  ◌≡◌, ◌∷◌, true, refl, not, map, if◌then◌else◌, arith, [], String, List, Bool, All, ◌&&◌,
}

-- The strings are distinct, and none is among those seen.
abbrev pub all_distinct : List String → List String → Bool
all_distinct seen [] = true
all_distinct seen (x ∷ xs) = not (contains x seen) && all_distinct (x ∷ seen) xs

abbrev pub evidence_ids : List AuthorizationEvidence → List String
evidence_ids = map (λ (item : AuthorizationEvidence). item.id)

abbrev pub is_secret : ProposedAction → Bool
is_secret a = contains "SECRET" a.payload.classification

contains_classification-eq-contains :
    (values : List String) (target : String)
    → contains_classification values target ≡ contains target values
unfolding contains_classification
contains_classification-eq-contains [] target = refl
contains_classification-eq-contains (x ∷ xs) target =
    ground (arith, contains_classification-eq-contains xs target)

check_refs-evidence_ids :
    ⦃u : Unicode⦄ (es : List AuthorizationEvidence) (seen : List String)
    → All IsEvidence es
    → check_refs (evidence_ids es) seen
      ≡ (if all_distinct seen (evidence_ids es) then ok tt else err (invalid_argument ∷ []))
unfolding check_refs
check_refs-evidence_ids [] seen h = refl
check_refs-evidence_ids (x ∷ es) seen h =
    let id = h.0.identified in
    ground
      (arith, not-is_blank_of_IsIdentifier x.id id, check_refs-evidence_ids es (x.id ∷ seen) h.1)

-- The embedded policy answers every normal action, except a secret payload whose items of evidence
-- share an identifier: evidence is told apart by its type and identifier, references by the
-- identifier alone, and the evaluator then fails with an invalid argument.
pub evaluate-fails :
    ⦃u : Unicode⦄ (a : ProposedAction)
    → IsAction a
    → discard (evaluate a) ≡ (
        if is_secret a && not (all_distinct [] (evidence_ids a.evidence))
        then err (invalid_argument ∷ [])
        else ok tt)
unfolding evaluate new_safety_review_requirement new_create_safety_review_effect validate_effect
    priority_valid
evaluate-fails a h =
    let all = h.evidence.evidence in
    let refs = check_refs-evidence_ids a.evidence [] all in
    let secret = contains_classification-eq-contains a.payload.classification "SECRET" in
    ground arith

-- An evaluation asks for one safety review, of high priority and about all the evidence in its
-- order, if the payload is secret, and has no other effect.
pub evaluate-effects :
    (a : ProposedAction) (e : PolicyEvaluation)
    → evaluate a ≡ ok e
    → e.effects ≡ (
        if is_secret a
        then create_safety_review (record {
          requirement = record {
            priority = safety_review_high;
            evidence_refs = evidence_ids a.evidence;
          };
        })
          ∷ []
        else [])
unfolding evaluate new_safety_review_requirement new_create_safety_review_effect validate_effect
    evaluate_permission evaluate_action_rules
evaluate-effects a e h =
    let secret = contains_classification-eq-contains a.payload.classification "SECRET" in
    ground arith
