-- ===== src/Policy/Osprey/Stated.antt =====
-- What the facts of an action say, told by the paths to them.
use agent_action_control.Domain.Evidence.{AuthorizationEvidence, AuthorizationScope}
use agent_action_control.Domain.Action.{Actor}
use agent_action_control.Storage.Encode.{json_slice}
use agent_action_control.Domain.Parameters.{
  ActionParameters, external_send, update_resource_access, delete,
}
use agent_action_control.Domain.Payload.{PayloadFacts}
use agent_action_control.Domain.Principal.{Principal}
use agent_action_control.Domain.ProposedAction.{ProposedAction}
use agent_action_control.Errors.{Result, ok, err}
use agent_action_control.Json.{
  Json, Members, json_array, json_bool, json_null, json_number, json_object, json_string, item_list,
  items, no_members, member,
}
use agent_action_control.Json.Numbers.{number_text}
use agent_action_control.Policy.Osprey.Facts.{
  action_facts, actor_facts, delegation_facts, evidence_facts, marshal_parameters, payload_facts,
  principal_facts, scope_facts, target_facts,
}
use agent_action_control.Prelude.{
  Option-cases, Bool-cases, List, Option, String, ℤ, ◌≡◌, ◌∷◌, ◌==◌, [], ap, if◌then◌else◌, inl,
  inr, map, none, refl, some,
}

abbrev pub find_member : String → Members → Option Json
find_member name no_members = none
find_member name (member key v ms) = if key == name then some v else find_member name ms

-- What stands in a value behind these member names.
abbrev pub at : List String → Json → Option Json
at [] v = some v
at (name ∷ path) (json_object ms) = elim (find_member name ms) [ none ↦ none | some v ↦ at path v ]
at (name ∷ path) _ = none

abbrev pub text_at : List String → Json → Option String
text_at path v = elim (at path v) [ some (json_string s) ↦ some s | _ ↦ none ]

-- A text that is left out where it is empty.
abbrev pub optional : String → Option String
optional s = if s == "" then none else some s

-- The texts of a list.
abbrev pub texts : List Json → List String
texts [] = []
texts (json_string s ∷ vs) = s ∷ texts vs
texts (_ ∷ vs) = texts vs

-- A number that is left out where it is nil.
abbrev pub number_of : Option ℤ → Option Json
number_of none = none
number_of (some n) = some (json_number (number_text n))

abbrev pub values_of : Option Json → List Json
values_of (some (json_array vs)) = item_list vs
values_of _ = []

-- The values of the array that stands there; a slice that is nil is `null`, and has none.
abbrev pub values_at : List String → Json → List Json
values_at path v = values_of (at path v)

abbrev pub AllTwo : {A B : Type 0} → (A → B → Type 0) → List A → List B → Type 0
AllTwo R [] [] = Unit
AllTwo R (x ∷ xs) (y ∷ ys) = R x y × AllTwo R xs ys
AllTwo R _ _ = ⊥

pub record StatesPrincipal (p : Principal) (v : Json) : Type 0 where
  pub typ : text_at ("type" ∷ []) v ≡ some p.typ
  pub id : text_at ("id" ∷ []) v ≡ some p.id

pub record StatesEvidence (e : AuthorizationEvidence) (v : Json) : Type 0 where
  pub typ : text_at ("type" ∷ []) v ≡ some e.typ
  pub id : text_at ("evidenceId" ∷ []) v ≡ some e.id
  pub issuer_type : text_at ("issuedBy" ∷ "type" ∷ []) v ≡ some e.issued_by.typ
  pub issuer : text_at ("issuedBy" ∷ "id" ∷ []) v ≡ some e.issued_by.id
  pub action_type : text_at ("scope" ∷ "actionType" ∷ []) v ≡ some e.scope.action_type
  pub destination :
      text_at ("scope" ∷ "destinationScope" ∷ []) v ≡ optional e.scope.destination_scope
  pub requested : text_at ("scope" ∷ "requestedScope" ∷ []) v ≡ optional e.scope.requested_scope
  pub mode : text_at ("scope" ∷ "deleteMode" ∷ []) v ≡ optional e.scope.delete_mode

abbrev pub StatesParameters : ActionParameters → Json → Type 0
StatesParameters (external_send p) v =
    (text_at ("destinationScope" ∷ []) v ≡ some p.destination_scope)
    × (texts (values_at ("recipients" ∷ []) v) ≡ p.recipients)
StatesParameters (update_resource_access p) v =
    (text_at ("currentScope" ∷ []) v ≡ some p.current_scope)
    × (text_at ("requestedScope" ∷ []) v ≡ some p.requested_scope)
    × AllTwo StatesPrincipal p.target_principals (values_at ("targetPrincipals" ∷ []) v)
StatesParameters (delete p) v =
    (text_at ("deleteMode" ∷ []) v ≡ some p.mode)
    × (at ("recoverable" ∷ []) v ≡ some (json_bool p.recoverable))

-- The value states every fact of the action, under the names that the rules read.
pub record States (a : ProposedAction) (requested_at : String) (p : ActionParameters) (v : Json)
    : Type 0 where
  pub version : text_at ("apiVersion" ∷ []) v ≡ some "agent-action-control.osprey/v1"
  pub typ : text_at ("type" ∷ []) v ≡ some a.typ
  pub time : text_at ("requestedAt" ∷ []) v ≡ some requested_at
  pub agent : text_at ("actor" ∷ "agentId" ∷ []) v ≡ some a.actor.agent_id
  pub runtime : text_at ("actor" ∷ "runtimeId" ∷ []) v ≡ some a.actor.runtime_id
  pub session : text_at ("actor" ∷ "sessionId" ∷ []) v ≡ optional a.actor.session_id
  pub delegation : text_at ("delegation" ∷ "delegationId" ∷ []) v ≡ some a.delegation.id
  pub delegator_type :
      text_at ("delegation" ∷ "delegator" ∷ "type" ∷ []) v ≡ some a.delegation.delegator.typ
  pub delegator :
      text_at ("delegation" ∷ "delegator" ∷ "id" ∷ []) v ≡ some a.delegation.delegator.id
  pub resource_type : text_at ("target" ∷ "resourceType" ∷ []) v ≡ some a.target.resource_type
  pub resource : text_at ("target" ∷ "resourceId" ∷ []) v ≡ some a.target.resource_id
  pub digest : text_at ("payload" ∷ "digest" ∷ []) v ≡ some a.payload.digest
  pub classification :
      texts (values_at ("payload" ∷ "classification" ∷ []) v) ≡ a.payload.classification
  pub size : at ("payload" ∷ "sizeBytes" ∷ []) v ≡ number_of a.payload.size_bytes
  pub parameters : Json
  pub has_parameters : at ("parameters" ∷ []) v ≡ some parameters
  pub parameters_stated : StatesParameters p parameters
  pub evidence : AllTwo StatesEvidence a.evidence (values_at ("authorizationEvidence" ∷ []) v)

abbrev json_of : Result Json → Json
json_of (ok v) = v
json_of (err e) = json_null

AllTwo-items :
    {A : Type 0} (R : A → Json → Type 0) (f : A → Json)
    → ((x : A) → R x (f x))
    → (xs : List A) → AllTwo R xs (item_list (items (map f xs)))
AllTwo-items R f each [] = tt
AllTwo-items R f each (x ∷ xs) = (each x, AllTwo-items R f each xs)

texts-json_string : (xs : List String) → texts (item_list (items (map json_string xs))) ≡ xs
texts-json_string [] = refl
texts-json_string (x ∷ xs) = ap (◌∷◌ x) (texts-json_string xs)

texts-json_slice : (xs : List String) → texts (values_of (some (json_slice xs))) ≡ xs
texts-json_slice [] = refl
texts-json_slice (x ∷ xs) = texts-json_string (x ∷ xs)

principal_facts-States : (p : Principal) → StatesPrincipal p (principal_facts p)
unfolding principal_facts
principal_facts-States p = record { typ = refl; id = refl }

scope_facts-States :
    (s : AuthorizationScope)
    → (text_at ("destinationScope" ∷ []) (scope_facts s) ≡ optional s.destination_scope)
      × (text_at ("requestedScope" ∷ []) (scope_facts s) ≡ optional s.requested_scope)
      × (text_at ("deleteMode" ∷ []) (scope_facts s) ≡ optional s.delete_mode)
unfolding scope_facts
scope_facts-States s = elim (Bool-cases (s.destination_scope == "")) [
  | inl a ↦ elim (Bool-cases (s.requested_scope == "")) [
    | inl b ↦ elim (Bool-cases (s.delete_mode == "")) [
      | inl c ↦ rw (a, b, c) (refl, refl, refl)
      | inr c ↦ rw (a, b, c) (refl, refl, refl)
    ]
    | inr b ↦ elim (Bool-cases (s.delete_mode == "")) [
      | inl c ↦ rw (a, b, c) (refl, refl, refl)
      | inr c ↦ rw (a, b, c) (refl, refl, refl)
    ]
  ]
  | inr a ↦ elim (Bool-cases (s.requested_scope == "")) [
    | inl b ↦ elim (Bool-cases (s.delete_mode == "")) [
      | inl c ↦ rw (a, b, c) (refl, refl, refl)
      | inr c ↦ rw (a, b, c) (refl, refl, refl)
    ]
    | inr b ↦ elim (Bool-cases (s.delete_mode == "")) [
      | inl c ↦ rw (a, b, c) (refl, refl, refl)
      | inr c ↦ rw (a, b, c) (refl, refl, refl)
    ]
  ]
]

evidence_facts-States : (e : AuthorizationEvidence) → StatesEvidence e (evidence_facts e)
unfolding evidence_facts principal_facts
evidence_facts-States e =
    let (destination, requested, mode) = scope_facts-States e.scope in
    record {
      typ = refl;
      id = refl;
      issuer_type = refl;
      issuer = refl;
      action_type = unfold scope_facts in refl;
      destination = destination;
      requested = requested;
      mode = mode;
    }

marshal_parameters-States :
    (p : ActionParameters) (v : Json) → marshal_parameters (some p) ≡ ok v → StatesParameters p v
unfolding marshal_parameters
marshal_parameters-States (external_send p) v h =
    let same : _ ≡ v = ap json_of h in rw (← same) (refl, texts-json_slice p.recipients)
marshal_parameters-States (update_resource_access p) v h =
    let same : _ ≡ v = ap json_of h in
    rw (← same) (
      refl,
      refl,
      AllTwo-items StatesPrincipal principal_facts principal_facts-States p.target_principals,
    )
marshal_parameters-States (delete p) v h =
    let same : _ ≡ v = ap json_of h in rw (← same) (refl, refl)

session-States : (a : Actor) → text_at ("sessionId" ∷ []) (actor_facts a) ≡ optional a.session_id
unfolding actor_facts
session-States a = elim (Bool-cases (a.session_id == "")) [
  | inl e ↦ rw (e) refl
  | inr e ↦ rw (e) refl
]

size-States : (p : PayloadFacts) → at ("sizeBytes" ∷ []) (payload_facts p) ≡ number_of p.size_bytes
unfolding payload_facts
size-States p = elim (Option-cases p.size_bytes) [ inl e ↦ rw (e) refl | inr (n, e) ↦ rw (e) refl ]

-- The facts that are sent state the action.
pub action_facts-States :
    (a : ProposedAction) (requested_at : String) (p : ActionParameters) (v : Json)
    → marshal_parameters (some p) ≡ ok v
    → States a requested_at p (action_facts a requested_at v)
unfolding action_facts target_facts delegation_facts principal_facts payload_facts
action_facts-States a requested_at p v h = record {
  version = refl;
  typ = refl;
  time = refl;
  agent = unfold actor_facts in refl;
  runtime = unfold actor_facts in refl;
  session = session-States a.actor;
  delegation = refl;
  delegator_type = refl;
  delegator = refl;
  resource_type = refl;
  resource = refl;
  digest = refl;
  classification = texts-json_slice a.payload.classification;
  size = size-States a.payload;
  parameters = v;
  has_parameters = refl;
  parameters_stated = marshal_parameters-States p v h;
  evidence = AllTwo-items StatesEvidence evidence_facts evidence_facts-States a.evidence;
}
