-- ===== src/Domain/CanonicalValue/Numbers.antt =====
-- The numbers in the JSON of a canonical action.
use agent_action_control.Prelude.{
  ◌≡◌, ◌∷◌, ℤ, true, some, refl, none, map, arith, [], String, Option, List,
}
use agent_action_control.Domain.CanonicalValue.{
  target_json, scope_json, principal_json, payload_json, parameters_json, json_strings,
  json_nullable, evidence_json, delegation_json, canonical_update_resource_access,
  canonical_external_send, canonical_delete, actor_json, action_json, CanonicalPrincipal,
  CanonicalPayload, CanonicalParameters, CanonicalDelegation, CanonicalAuthorizationScope,
  CanonicalAuthorizationEvidence, CanonicalAction,
}
use agent_action_control.Json.Numbers.RoundTrip.{is_number-number_text}
use agent_action_control.Json.Sizes.{is_json, are_items, are_members}
use agent_action_control.Json.{json_string, Json, items}

pub are_items-map :
    {A : Type 0} (encode : A → Json)
    → ((x : A) → is_json (encode x) ≡ true)
    → (xs : List A) → are_items (items (map encode xs)) ≡ true
unfolding are_items
are_items-map encode each [] = refl
are_items-map encode each (x ∷ xs) = ground (arith, each x, are_items-map encode each xs)

pub is_json-json_strings : (xs : List String) → is_json (json_strings xs) ≡ true
unfolding is_json
is_json-json_strings xs = are_items-map json_string (λ x. refl) xs

is_json-principal_json : (p : CanonicalPrincipal) → is_json (principal_json p) ≡ true
unfolding is_json are_members principal_json
is_json-principal_json p = refl

is_json-scope_json : (s : CanonicalAuthorizationScope) → is_json (scope_json s) ≡ true
unfolding is_json are_members scope_json
is_json-scope_json s = ground arith

is_json-evidence_json : (e : CanonicalAuthorizationEvidence) → is_json (evidence_json e) ≡ true
unfolding is_json are_members evidence_json
is_json-evidence_json e =
    ground (arith, is_json-principal_json e.issued_by, is_json-scope_json e.scope)

is_json-parameters_json : (p : CanonicalParameters) → is_json (parameters_json p) ≡ true
unfolding is_json are_members parameters_json
is_json-parameters_json (canonical_external_send p) =
    ground (arith, is_json-json_strings p.recipients)
is_json-parameters_json (canonical_update_resource_access p) =
    ground (arith, are_items-map principal_json is_json-principal_json p.target_principals)
is_json-parameters_json (canonical_delete p) = refl

is_json-json_nullable : (size : Option ℤ) → is_json (json_nullable size) ≡ true
unfolding is_json
is_json-json_nullable none = refl
is_json-json_nullable (some z) = is_number-number_text z

is_json-payload_json : (p : CanonicalPayload) → is_json (payload_json p) ≡ true
unfolding is_json are_members payload_json
is_json-payload_json p =
    ground (arith, is_json-json_strings p.classification, is_json-json_nullable p.size_bytes)

is_json-delegation_json : (d : CanonicalDelegation) → is_json (delegation_json d) ≡ true
unfolding is_json are_members delegation_json
is_json-delegation_json d = ground (arith, is_json-principal_json d.delegator)

pub is_json-action_json : (a : CanonicalAction) → is_json (action_json a) ≡ true
unfolding is_json are_members action_json
is_json-action_json a =
    let actor : is_json (actor_json a.actor) ≡ true = unfold actor_json in refl in
    let target : is_json (target_json a.target) ≡ true = unfold target_json in refl in
    ground (
      arith,
      is_json-delegation_json a.delegation,
      is_json-parameters_json a.parameters,
      is_json-payload_json a.payload,
      are_items-map evidence_json is_json-evidence_json a.authorization_evidence,
    )
