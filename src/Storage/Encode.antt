-- ===== src/Storage/Encode.antt =====
-- internal/storage/sqlite/serialization.go and `policyEffectIdempotencyKey` of ledger.go: what a
-- commit stores. A Go string list that is empty is nil where `append` has made it of nil, and then it
-- is `null` in JSON.
pub mod Laws
use Prim.Native.String
use agent_action_control.Containers.{contains}
use agent_action_control.Json.Print.{marshal_json}
use agent_action_control.Domain.CanonicalValue.{json_strings}
use agent_action_control.Time.{is_zero}
use agent_action_control.Domain.Action.{action_digest_valid}
use agent_action_control.Strings.{trim_space, Unicode}
use agent_action_control.Domain.Decision.{
  required_action_type_valid, reason_code_valid, decision_type_valid, RequiredAction, ReasonCode,
}
use agent_action_control.Storage.Persisted.{PersistedSafetyReviewContext}
use agent_action_control.Application.Evaluation.{PolicyEffectCommit, EvaluationCommit}
use agent_action_control.Domain.Canonical.{compute_action_digest, canonical_action_bytes, Digests}
use agent_action_control.Domain.Effect.{
  policy_effect_type_valid, policy_effect_create_safety_review, nil_effect,
  create_safety_review_pointer, create_safety_review, PolicyEffectType, PolicyEffect,
  CreateSafetyReviewEffect,
}
use agent_action_control.Prelude.{
  ◌∷◌, ◌||◌, true, some, not, none, false, if◌then◌else◌, [], String, List, Bool, ◌==◌,
}
use agent_action_control.Errors.{
  ◌>>=◌, ◌>>◌, ok, err, Result, refuse_if, hide, invalid_input, panicked,
}
use agent_action_control.Json.{json_string, json_null, Json, json_object, members}

pub record EncodedPolicyEffect : Type 0 where
  pub effect_id : String
  pub typ : PolicyEffectType
  pub context_json : String
  pub idempotency_key : String

pub record EncodedEvaluation : Type 0 where
  pub action_json : String
  pub reason_codes_json : String
  pub required_actions_json : String
  pub matched_rule_ids_json : String
  pub effects : List EncodedPolicyEffect

unfoldable pub validate_strings : List String → Result (Unit {0})
validate_strings [] = ok tt
validate_strings (value ∷ values) =
    let rest = validate_strings values in
    if trim_space value == "" then err (invalid_input ∷ []) else rest

-- The loop that collects the reasons.
unfoldable pub reason_values : List ReasonCode → Result (List String)
reason_values [] = ok []
reason_values (reason ∷ reasons) = do
  refuse_if (not (reason_code_valid reason)) (invalid_input ∷ [])
  values ← reason_values reasons
  ok (reason ∷ values)

-- The loop that collects the required actions.
unfoldable pub required_action_values : List RequiredAction → Result (List String)
required_action_values [] = ok []
required_action_values (action ∷ actions) = do
  refuse_if (not (required_action_type_valid action.typ)) (invalid_input ∷ [])
  values ← required_action_values actions
  ok (action.typ ∷ values)

-- A slice that may be nil.
abbrev pub json_slice : List String → Json
json_slice [] = json_null
json_slice (x ∷ xs) = json_strings (x ∷ xs)

unfoldable pub context_json : PersistedSafetyReviewContext → Json
context_json c = json_object (
    members
      (("priority", json_string c.priority) ∷ ("evidenceRefs", json_slice c.evidence_refs) ∷ []))

-- The context that both cases of the type switch make.
abbrev pub context_value : CreateSafetyReviewEffect → PersistedSafetyReviewContext
context_value effect = record {
  priority = effect.requirement.priority;
  evidence_refs = effect.requirement.evidence_refs;
}

abbrev pub is_nil : PolicyEffect → Bool
is_nil nil_effect = true
is_nil _ = false

-- The type of an effect and the struct behind it. `Type` is a method of the struct, so that its call
-- on a nil pointer panics.
abbrev pub struct_of : PolicyEffect → Result CreateSafetyReviewEffect
struct_of nil_effect = err (panicked ∷ [])
struct_of (create_safety_review effect) = ok effect
struct_of (create_safety_review_pointer none) = err (panicked ∷ [])
struct_of (create_safety_review_pointer (some effect)) = ok effect

module _ ⦃u : Unicode⦄ ⦃d : Digests⦄ where
  unfoldable pub policy_effect_idempotency_key :
      (runtime_id request_id : String) → PolicyEffectType → String
  policy_effect_idempotency_key runtime_id request_id typ =
      String.◌++◌ "sha256:"
        (d.sha256_hex (marshal_json (json_strings (runtime_id ∷ request_id ∷ typ ∷ []))))

  -- The loop over the effects, with `seenIDs` and `seenTypes`.
  unfoldable pub encode_effects_from :
      (runtime_id request_id : String)
      → List String
      → List PolicyEffectType
      → List PolicyEffectCommit
      → Result (List EncodedPolicyEffect)
  encode_effects_from runtime_id request_id seen_ids seen_types [] = ok []
  encode_effects_from runtime_id request_id seen_ids seen_types (commit ∷ commits) = do
    let effect_id = trim_space commit.effect_id
    refuse_if (effect_id == "" || is_nil commit.effect) (invalid_input ∷ [])
    refuse_if (contains effect_id seen_ids) (invalid_input ∷ [])
    effect ← struct_of commit.effect
    let typ = policy_effect_create_safety_review
    refuse_if (not (policy_effect_type_valid typ)) (invalid_input ∷ [])
    refuse_if (contains typ seen_types) (invalid_input ∷ [])
    result ←
        encode_effects_from runtime_id request_id (effect_id ∷ seen_ids) (typ ∷ seen_types) commits
    ok (
        record {
          effect_id = effect_id;
          typ = typ;
          context_json = marshal_json (context_json (context_value effect));
          idempotency_key = policy_effect_idempotency_key runtime_id request_id typ;
        }
        ∷ result)

  unfoldable pub encode_effects : EvaluationCommit → Result (List EncodedPolicyEffect)
  encode_effects commit =
      encode_effects_from commit.runtime_id commit.request_id [] [] commit.effects

  -- The checks before anything is encoded.
  unfoldable pub check_commit : EvaluationCommit → Result (Unit {0})
  check_commit commit = do
    refuse_if (trim_space commit.runtime_id == "" || trim_space commit.request_id == "")
        (invalid_input ∷ [])
    refuse_if (not (commit.action.actor.runtime_id == commit.runtime_id)) (invalid_input ∷ [])
    computed_digest ← hide invalid_input (compute_action_digest commit.action)
    refuse_if
        (not (action_digest_valid commit.action_digest)
          || not (computed_digest == commit.action_digest))
        (invalid_input ∷ [])
    refuse_if (trim_space commit.decision_id == "" || not (decision_type_valid commit.decision.typ))
        (invalid_input ∷ [])
    refuse_if (trim_space commit.policy_version == "" || is_zero commit.evaluated_at)
        (invalid_input ∷ [])
    validate_strings commit.matched_rule_ids

  unfoldable pub encode_evaluation : EvaluationCommit → Result EncodedEvaluation
  unfolding check_commit
  encode_evaluation commit = do
    check_commit commit
    action_json ← hide invalid_input (canonical_action_bytes commit.action)
    reasons ← reason_values commit.decision.reason_codes
    required_actions ← required_action_values commit.decision.required_actions
    effects ← encode_effects commit
    ok (record {
      action_json = action_json;
      reason_codes_json = marshal_json (json_strings reasons);
      required_actions_json = marshal_json (json_strings required_actions);
      matched_rule_ids_json = marshal_json (json_strings commit.matched_rule_ids);
      effects = effects;
    })
