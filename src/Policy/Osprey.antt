-- ===== src/Policy/Osprey.antt =====
-- internal/policy/osprey/evaluator.go: verdicts of an Osprey coordinator as a policy evaluation. The
-- deadline of the call is left out: to the evaluator it is one more error of the coordinator.
pub mod Facts
pub mod Coordinator
pub mod Stated
pub mod Sent
pub mod Laws
use agent_action_control.Containers.{contains}
use agent_action_control.Strings.{trim_prefix, to_upper, has_prefix, Unicode}
use agent_action_control.Domain.Decision.{
  reason_policy_unavailable, reason_delegator_approval_required, parse_reason_code, ReasonCode,
}
use agent_action_control.Application.Evaluation.{PolicyEvaluation}
use agent_action_control.Domain.Effect.{
  safety_review_high, new_safety_review_requirement, new_create_safety_review_effect,
  create_safety_review, PolicyEffect,
}
use agent_action_control.Errors.{plain, refuse_if, ◌>>◌, ◌>>=◌, ok, err, Result, ◌>>=◌}
use agent_action_control.Prelude.{
  false, ◌∷◌, ℕ, ◌||◌, zero, true, suc, not, leb, eqb, if◌then◌else◌, code, [], String, List, Bool,
  ◌==◌, ◌++◌, ◌&&◌,
}
use Prim.Native.String

abbrev pub terminal_deny_prefix : String
terminal_deny_prefix = "deny."

abbrev pub approval_prefix : String
approval_prefix = "require_delegator_approval."

abbrev pub safety_review_prefix : String
safety_review_prefix = "create_safety_review."

-- `[a-z0-9]`
abbrev pub is_key_start : ℕ → Bool
is_key_start c = (leb b'a' c && leb c b'z') || (leb b'0' c && leb c b'9')

-- `[a-z0-9_-]{0,n}$`
unfoldable pub matches_key_tail : ℕ → String → Bool
matches_key_tail n String.[] = true
matches_key_tail zero (String.◌∷◌ c s) = false
matches_key_tail (suc n) (String.◌∷◌ c s) =
    let rest = matches_key_tail n s in
    (is_key_start (code c) || eqb (code c) b'_' || eqb (code c) b'-') && rest

-- `^[a-z0-9][a-z0-9_-]{0,127}$`
unfoldable pub valid_policy_key : String → Bool
valid_policy_key String.[] = false
valid_policy_key (String.◌∷◌ c s) = is_key_start (code c) && matches_key_tail 127 s

unfoldable pub new_safety_review_effect : Result PolicyEffect
new_safety_review_effect = do
  requirement ← new_safety_review_requirement safety_review_high []
  effect ← new_create_safety_review_effect requirement
  ok (create_safety_review effect)

module _ ⦃u : Unicode⦄ where
  unfoldable pub parse_terminal_reason : String → Result ReasonCode
  parse_terminal_reason value = do
    refuse_if (not (valid_policy_key value)) plain
    elim (parse_reason_code (to_upper value)) [
      | err e ↦ err plain
      | ok reason ↦
          if reason == reason_delegator_approval_required || reason == reason_policy_unavailable
          then err plain
          else ok reason
    ]

  -- The switch on one verdict. The Boolean is `safetyReviewCreated`.
  unfoldable pub apply_verdict : String → PolicyEvaluation → Bool → Result (PolicyEvaluation × Bool)
  apply_verdict verdict evaluation created =
      if has_prefix verdict terminal_deny_prefix
      then (do
        reason ← parse_terminal_reason (trim_prefix verdict terminal_deny_prefix)
        ok (
          record evaluation { deny_reason_codes = evaluation.deny_reason_codes ++ reason ∷ [] },
          created,
        ))
      else if has_prefix verdict approval_prefix
      then (do
        refuse_if (not (valid_policy_key (trim_prefix verdict approval_prefix))) plain
        ok (
          record evaluation {
            deny_reason_codes =
                evaluation.deny_reason_codes ++ reason_delegator_approval_required ∷ [];
          },
          created,
        ))
      else if has_prefix verdict safety_review_prefix
      then (do
        refuse_if (not (valid_policy_key (trim_prefix verdict safety_review_prefix))) plain
        if created then ok (evaluation, created) else do
          effect ← new_safety_review_effect
          ok (record evaluation { effects = evaluation.effects ++ effect ∷ [] }, true))
      else err plain

  -- The loop, with `seen`.
  unfoldable pub map_verdicts_loop :
      List String → List String → PolicyEvaluation → Bool → Result PolicyEvaluation
  map_verdicts_loop [] seen evaluation created = ok evaluation
  map_verdicts_loop (verdict ∷ verdicts) seen evaluation created = elim (contains verdict seen) [
    | true ↦ map_verdicts_loop verdicts seen evaluation created
    | false ↦ apply_verdict verdict evaluation created >>= λ applied.
        map_verdicts_loop verdicts (verdict ∷ seen)
          (record applied.0 { matched_rule_ids = applied.0.matched_rule_ids ++ verdict ∷ [] })
          applied.1
  ]

  unfoldable pub map_verdicts : String → List String → Result PolicyEvaluation
  map_verdicts policy_version verdicts =
      map_verdicts_loop verdicts []
        (record {
          deny_reason_codes = [];
          effects = [];
          matched_rule_ids = [];
          policy_version = policy_version;
        })
        false

  unfoldable pub fail_closed : String → PolicyEvaluation
  fail_closed policy_version = record {
    deny_reason_codes = reason_policy_unavailable ∷ [];
    effects = [];
    matched_rule_ids = [];
    policy_version = policy_version;
  }

  -- `Evaluate` behind the call of the coordinator, whose answer is the argument.
  unfoldable pub evaluate_answer : String → Result (List String) → PolicyEvaluation
  evaluate_answer policy_version (err e) = fail_closed policy_version
  evaluate_answer policy_version (ok verdicts) = elim (map_verdicts policy_version verdicts) [
    | ok evaluation ↦ evaluation
    | err e ↦ fail_closed policy_version
  ]
