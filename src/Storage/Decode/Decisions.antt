-- ===== src/Storage/Decode/Decisions.antt =====
-- Decisions and rules that have been stored, decoded.
use mathlib.Core.Path.{subst}
use agent_action_control.Containers.{contains}
use agent_action_control.Json.RoundTrip.{parse-marshal_json}
use agent_action_control.Json.Unmarshal.{unmarshal}
use agent_action_control.Json.Print.{marshal_json}
use agent_action_control.Domain.CanonicalValue.{json_strings}
use agent_action_control.Domain.CanonicalValue.Numbers.{is_json-json_strings}
use agent_action_control.Storage.Unmarshal.Canonical.{into_strings-json_strings}
use agent_action_control.Storage.Unmarshal.{into_strings}
use agent_action_control.Storage.Decode.{decode_decision, approval_actions}
use agent_action_control.Prelude.{
  ◌∙◌, sym, Bool-cases, ◌≡◌, ◌∷◌, true, refl, map, inr, inl, arith, [], String, List,
}
use agent_action_control.Domain.Decision.{
  new_deny_decision, decision_deny, required_action_type_valid, reason_delegator_approval_required,
  parse_required_action_type, parse_decision_type, decision_type_valid, parse_reason_code,
  new_allow_decision, decision_allow, Decision,
}
use agent_action_control.Errors.{ok, traverse}
use agent_action_control.Domain.Decision.Laws.{
  new_deny_decision_of_IsDeny, all_valid, IsDecision, IsDeny,
}

pub unmarshal-json_strings :
    (xs : List String) → unmarshal into_strings [] (marshal_json (json_strings xs)) ≡ ok xs
unfolding unmarshal
unmarshal-json_strings xs =
    rw
      (
        parse-marshal_json (json_strings xs) (is_json-json_strings xs),
        into_strings-json_strings xs [],
      )
      refl

traverse-parse_reason_code :
    (codes : List String) → all_valid codes ≡ true → traverse parse_reason_code codes ≡ ok codes
unfolding traverse parse_reason_code
traverse-parse_reason_code [] h = refl
traverse-parse_reason_code (c ∷ cs) h = ground (arith, traverse-parse_reason_code cs)

-- What `encodeEvaluation` stores of a decision.
abbrev pub reasons_json : Decision → String
reasons_json d = marshal_json (json_strings d.reason_codes)

abbrev pub required_actions_json : Decision → String
required_actions_json d = marshal_json (json_strings (map (λ a. a.typ) d.required_actions))

decode_allow :
    decode_decision decision_allow
      (reasons_json new_allow_decision)
      (required_actions_json new_allow_decision)
    ≡ ok new_allow_decision
unfolding decode_decision parse_decision_type decision_type_valid traverse approval_actions
decode_allow = rw (unmarshal-json_strings []) refl

approval_actions_of_IsDeny :
    (d : Decision)
    → IsDeny d
    → approval_actions (map (λ a. a.typ) d.required_actions) ≡ ok d.required_actions
unfolding approval_actions parse_required_action_type required_action_type_valid
approval_actions_of_IsDeny d h =
    elim (Bool-cases (contains reason_delegator_approval_required d.reason_codes)) [
      | inl e ↦ rw (h.approval, e) refl
      | inr e ↦ rw (h.approval, e) refl
    ]

decode_deny :
    (d : Decision)
    → IsDeny d
    → decode_decision decision_deny (reasons_json d) (required_actions_json d)
      ≡ new_deny_decision d.reason_codes d.required_actions
unfolding decode_decision parse_decision_type decision_type_valid
decode_deny d h =
    rw
      (
        unmarshal-json_strings d.reason_codes,
        unmarshal-json_strings (map (λ a. a.typ) d.required_actions),
        traverse-parse_reason_code d.reason_codes h.known,
        approval_actions_of_IsDeny d h,
      )
      refl

-- A decision that is stored is decoded to the same decision.
pub decode_decision_of_IsDecision :
    (d : Decision)
    → IsDecision d
    → decode_decision d.typ (reasons_json d) (required_actions_json d) ≡ ok d
decode_decision_of_IsDecision d (inl e) = rw (e) decode_allow
decode_decision_of_IsDecision d (inr h) =
    subst (λ t. decode_decision t (reasons_json d) (required_actions_json d) ≡ ok d) (sym h.denied)
      (decode_deny d h ∙ new_deny_decision_of_IsDeny d h)
