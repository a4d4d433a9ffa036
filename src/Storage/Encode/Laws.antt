-- ===== src/Storage/Encode/Laws.antt =====
-- What `encodeEvaluation` has checked and made.
use agent_action_control.Json.Print.{marshal_json}
use agent_action_control.Domain.CanonicalValue.{json_strings}
use agent_action_control.Domain.Action.{action_digest_valid}
use agent_action_control.Strings.{Unicode}
use agent_action_control.Domain.Decision.{RequiredAction}
use agent_action_control.Prelude.{◌≡◌, ◌∷◌, true, map, inr, inl, eq_iff, arith, [], String, List}
use agent_action_control.Application.Evaluation.{EvaluationCommit}
use agent_action_control.Storage.Encode.{
  required_action_values, reason_values, encode_evaluation, encode_effects, check_commit,
  EncodedEvaluation,
}
use agent_action_control.Domain.Canonical.{compute_action_digest, canonical_action_bytes, Digests}
use agent_action_control.Errors.{Result-cases, ok}

reason_values-same : (codes values : List String) → reason_values codes ≡ ok values → codes ≡ values
unfolding reason_values
reason_values-same [] values h = ground arith
reason_values-same (c ∷ cs) values h = elim (Result-cases (reason_values cs)) [
  | inl (vs, run) ↦ let same = reason_values-same cs vs run in ground arith
  | inr (e, run) ↦ absurd (ground arith)
]

required_action_values-same :
    (actions : List RequiredAction) (values : List String)
    → required_action_values actions ≡ ok values
    → map (λ a. a.typ) actions ≡ values
unfolding required_action_values
required_action_values-same [] values h = ground arith
required_action_values-same (c ∷ cs) values h = elim (Result-cases (required_action_values cs)) [
  | inl (vs, run) ↦ let same = required_action_values-same cs vs run in ground arith
  | inr (e, run) ↦ absurd (ground arith)
]

module _ ⦃u : Unicode⦄ ⦃d : Digests⦄ where
  -- A commit that is encoded names the runtime of its action and the digest of its action, and the
  -- texts are those of its parts.
  pub record IsEncoded (commit : EvaluationCommit) (encoded : EncodedEvaluation) : Type 0 where
    pub runtime : commit.action.actor.runtime_id ≡ commit.runtime_id
    pub digest : compute_action_digest commit.action ≡ ok commit.action_digest
    pub valid : action_digest_valid commit.action_digest ≡ true
    pub action : canonical_action_bytes commit.action ≡ ok encoded.action_json
    pub reasons :
        encoded.reason_codes_json ≡ marshal_json (json_strings commit.decision.reason_codes)
    pub required :
        encoded.required_actions_json
        ≡ marshal_json (json_strings (map (λ a. a.typ) commit.decision.required_actions))
    pub rules : encoded.matched_rule_ids_json ≡ marshal_json (json_strings commit.matched_rule_ids)

  check_commit-ok :
      (commit : EvaluationCommit)
      → check_commit commit ≡ ok tt
      → (commit.action.actor.runtime_id ≡ commit.runtime_id)
        × (compute_action_digest commit.action ≡ ok commit.action_digest)
        × (action_digest_valid commit.action_digest ≡ true)
  unfolding check_commit
  check_commit-ok commit h = elim (Result-cases (compute_action_digest commit.action)) [
    | inr (e, run) ↦ absurd (ground arith)
    | inl (computed, run) ↦ (
      ground (arith, eq_iff commit.action.actor.runtime_id commit.runtime_id),
      ground (arith, eq_iff computed commit.action_digest),
      ground arith,
    )
  ]

  pub encode_evaluation-IsEncoded :
      (commit : EvaluationCommit) (encoded : EncodedEvaluation)
      → encode_evaluation commit ≡ ok encoded
      → IsEncoded commit encoded
  unfolding encode_evaluation
  encode_evaluation-IsEncoded commit encoded h = elim (Result-cases (check_commit commit)) [
    | inr (e, run) ↦ absurd (ground arith)
    | inl (tt, run) ↦ elim (Result-cases (canonical_action_bytes commit.action)) [
      | inr (e, run1) ↦ absurd (ground arith)
      | inl (bytes, run1) ↦ elim (Result-cases (reason_values commit.decision.reason_codes)) [
        | inr (e, run2) ↦ absurd (ground arith)
        | inl (reasons, run2) ↦
            elim (Result-cases (required_action_values commit.decision.required_actions)) [
              | inr (e, run3) ↦ absurd (ground arith)
              | inl (required, run3) ↦ elim (Result-cases (encode_effects commit)) [
                | inr (e, run4) ↦ absurd (ground arith)
                | inl (effects, run4) ↦
                    let (runtime, digest, valid) = check_commit-ok commit run in
                    let same = reason_values-same commit.decision.reason_codes reasons run2 in
                    let same' =
                      required_action_values-same commit.decision.required_actions required run3 in
                    record {
                      runtime = runtime;
                      digest = digest;
                      valid = valid;
                      action = ground arith;
                      reasons = ground arith;
                      required = ground arith;
                      rules = ground arith;
                    }
              ]
            ]
      ]
    ]
  ]
