-- ===== src/Domain/Effect.antt =====
-- internal/domain/policy_effect.go.
pub mod Laws
use agent_action_control.Prelude.{
  String, Bool, true, false, not, ◌||◌, ◌==◌, List, [], ◌∷◌, Option, none, some, if◌then◌else◌,
}
use agent_action_control.Containers.{contains}
use agent_action_control.Errors.{
  Result, ok, err, ◌>>=◌, ◌>>◌, refuse_if, invalid_argument, invalid_policy_effect_type,
}
use agent_action_control.Domain.Identifier.{is_blank}

abbrev pub PolicyEffectType : Type 0
PolicyEffectType = String

abbrev pub policy_effect_create_safety_review : PolicyEffectType
policy_effect_create_safety_review = "CREATE_SAFETY_REVIEW"

unfoldable pub policy_effect_type_valid : PolicyEffectType → Bool
policy_effect_type_valid typ = typ == policy_effect_create_safety_review

unfoldable pub parse_policy_effect_type : String → Result PolicyEffectType
parse_policy_effect_type value =
    if policy_effect_type_valid value then ok value else err (invalid_policy_effect_type ∷ [])

abbrev pub SafetyReviewPriority : Type 0
SafetyReviewPriority = String

abbrev pub safety_review_low : SafetyReviewPriority
safety_review_low = "LOW"

abbrev pub safety_review_medium : SafetyReviewPriority
safety_review_medium = "MEDIUM"

abbrev pub safety_review_high : SafetyReviewPriority
safety_review_high = "HIGH"

abbrev pub safety_review_critical : SafetyReviewPriority
safety_review_critical = "CRITICAL"

unfoldable pub priority_valid : SafetyReviewPriority → Bool
priority_valid priority =
    priority == safety_review_low
    || priority == safety_review_medium
    || priority == safety_review_high
    || priority == safety_review_critical

pub record SafetyReviewRequirement : Type 0 where
  pub priority : SafetyReviewPriority
  pub evidence_refs : List String

-- The loop over the references: none is blank, and none stands twice.
unfoldable pub check_refs : List String → List String → Result (Unit {0})
check_refs [] seen = ok tt
check_refs (ref ∷ refs) seen =
    let rest = check_refs refs (ref ∷ seen) in
    if is_blank ref
    then err (invalid_argument ∷ [])
    else if contains ref seen
    then err (invalid_argument ∷ [])
    else rest

unfoldable pub new_safety_review_requirement :
    SafetyReviewPriority → List String → Result SafetyReviewRequirement
new_safety_review_requirement priority evidence_refs = do
  refuse_if (not (priority_valid priority)) (invalid_argument ∷ [])
  check_refs evidence_refs []
  ok (record { priority = priority; evidence_refs = evidence_refs })

pub record CreateSafetyReviewEffect : Type 0 where
  pub requirement : SafetyReviewRequirement

-- the method `validate`
unfoldable pub validate_effect : CreateSafetyReviewEffect → Result (Unit {0})
validate_effect effect =
    if not (priority_valid effect.requirement.priority) then err (invalid_argument ∷ []) else ok tt

unfoldable pub new_create_safety_review_effect :
    SafetyReviewRequirement → Result CreateSafetyReviewEffect
unfolding validate_effect
new_create_safety_review_effect requirement = do
  validate_effect (record { requirement = requirement })
  ok (record { requirement = requirement })

-- A value of the interface: nil, the struct, or a pointer to it, which may be nil.
pub data PolicyEffect : Type 0 where
  nil_effect : PolicyEffect
  create_safety_review : CreateSafetyReviewEffect → PolicyEffect
  create_safety_review_pointer : Option CreateSafetyReviewEffect → PolicyEffect
