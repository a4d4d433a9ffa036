-- ===== src/Storage/Unmarshal/Canonical.antt =====
-- What `json.Unmarshal` reads of the canonical form of an action.
use agent_action_control.Json.Numbers.RoundTrip.{parse_int-number_text}
use agent_action_control.Json.Numbers.{is_int64}
use agent_action_control.Prelude.{
  ℤ, true, some, none, false, Option, Bool, ◌≡◌, ◌∷◌, refl, map, eq_iff, arith, [], String, List,
}
use agent_action_control.Errors.{ok}
use agent_action_control.Storage.Persisted.{
  no_evidence, no_actor, no_action, PersistedAuthorizationEvidence, PersistedAction, no_scope,
  PersistedAuthorizationScope, no_principal, PersistedPrincipal,
}
use agent_action_control.Storage.Unmarshal.{
  set_update_resource_access, set_target, set_payload, set_external_send, set_evidence, set_delete,
  set_delegation, set_actor, set_action, into_evidence, into_action, set_scope, set_principal,
  into_strings, into_scope, into_principal,
}
use agent_action_control.Json.{json_string, Json, items}
use agent_action_control.Json.Unmarshal.{
  into_int_pointer, into_bool, into_struct, into_list, into_fields, into_items, others, Decode,
  names, fold_char, into_string,
}
use agent_action_control.Domain.CanonicalValue.{
  target_json, payload_json, parameters_json, json_nullable, evidence_json, delegation_json,
  canonical_update_resource_access, canonical_external_send, canonical_delete, actor_json,
  action_json, CanonicalUpdateResourceAccessParameters, CanonicalTarget, CanonicalPayload,
  CanonicalExternalSendParameters, CanonicalDeleteParameters, CanonicalDelegation,
  CanonicalAuthorizationEvidence, CanonicalActor, CanonicalAction, scope_json, json_strings,
  CanonicalAuthorizationScope, principal_json, CanonicalPrincipal,
}

into_items-map :
    {A B : Type 0} (decode : Decode B) (zero_value : B) (encode : A → Json) (f : A → B)
    → ((x : A) → decode (encode x) zero_value ≡ ok (f x))
    → (xs : List A) → into_items decode zero_value [] (items (map encode xs)) ≡ ok (map f xs)
unfolding into_items
into_items-map decode zero_value encode f each [] = refl
into_items-map decode zero_value encode f each (x ∷ xs) =
    rw (each x, into_items-map decode zero_value encode f each xs) refl

into_items-json_string :
    (xs before : List String)
    → into_items into_string "" before (items (map json_string xs)) ≡ ok xs
unfolding into_items into_string
into_items-json_string [] before = refl
into_items-json_string (x ∷ xs) before = rw (into_items-json_string xs (others before)) refl

pub into_strings-json_strings :
    (xs before : List String) → into_strings (json_strings xs) before ≡ ok xs
unfolding into_strings into_list
into_strings-json_strings xs before = into_items-json_string xs before

abbrev pub persisted_principal : CanonicalPrincipal → PersistedPrincipal
persisted_principal p = record { typ = p.typ; id = p.id }

into_principal-principal_json :
    (p : CanonicalPrincipal)
    → into_principal (principal_json p) no_principal ≡ ok (persisted_principal p)
unfolding into_principal principal_json into_struct into_fields set_principal names fold_char
    into_string
into_principal-principal_json p = refl

abbrev pub persisted_scope : CanonicalAuthorizationScope → PersistedAuthorizationScope
persisted_scope s = record {
  action_type = s.action_type;
  destination_scope = s.destination_scope;
  requested_scope = s.requested_scope;
  delete_mode = s.delete_mode;
}

-- What `omitempty` leaves out is the zero value that is there.
into_scope-scope_json :
    (s : CanonicalAuthorizationScope) → into_scope (scope_json s) no_scope ≡ ok (persisted_scope s)
unfolding into_scope scope_json into_struct into_fields set_scope names fold_char into_string
into_scope-scope_json s =
    ground
      (arith, eq_iff s.destination_scope "", eq_iff s.requested_scope "", eq_iff s.delete_mode "")

abbrev pub persisted_evidence : CanonicalAuthorizationEvidence → PersistedAuthorizationEvidence
persisted_evidence e = record {
  typ = e.typ;
  evidence_id = e.evidence_id;
  issued_by = persisted_principal e.issued_by;
  scope = persisted_scope e.scope;
}

into_evidence-evidence_json :
    (e : CanonicalAuthorizationEvidence)
    → into_evidence (evidence_json e) no_evidence ≡ ok (persisted_evidence e)
unfolding into_evidence evidence_json into_struct into_fields set_evidence names fold_char
    into_string
into_evidence-evidence_json e =
    rw (into_principal-principal_json e.issued_by, into_scope-scope_json e.scope) refl

pub into_external_send :
    (p : CanonicalExternalSendParameters)
    → into_struct set_external_send
        (parameters_json (canonical_external_send p))
        (record { destination_scope = ""; recipients = [] })
      ≡ ok (record { destination_scope = p.destination_scope; recipients = p.recipients })
unfolding parameters_json into_struct into_fields set_external_send names fold_char into_string
into_external_send p = rw (into_strings-json_strings p.recipients []) refl

pub into_update_resource_access :
    (p : CanonicalUpdateResourceAccessParameters)
    → into_struct set_update_resource_access
        (parameters_json (canonical_update_resource_access p))
        (record { current_scope = ""; requested_scope = ""; target_principals = [] })
      ≡ ok (record {
        current_scope = p.current_scope;
        requested_scope = p.requested_scope;
        target_principals = map persisted_principal p.target_principals;
      })
unfolding parameters_json into_struct into_fields set_update_resource_access names fold_char
    into_string into_list
into_update_resource_access p =
    rw
      (into_items-map into_principal no_principal principal_json persisted_principal
        into_principal-principal_json p.target_principals)
      refl

pub into_delete :
    (p : CanonicalDeleteParameters)
    → into_struct set_delete
        (parameters_json (canonical_delete p))
        (record { delete_mode = ""; recoverable = false })
      ≡ ok (record { delete_mode = p.delete_mode; recoverable = p.recoverable })
unfolding parameters_json into_struct into_fields set_delete names fold_char into_string into_bool
into_delete p = refl

-- A size that is an `int64`, or none.
abbrev pub is_size : Option ℤ → Bool
is_size none = true
is_size (some z) = is_int64 z

into_int_pointer-json_nullable :
    (size before : Option ℤ)
    → is_size size ≡ true
    → into_int_pointer (json_nullable size) before ≡ ok size
unfolding into_int_pointer
into_int_pointer-json_nullable none before h = refl
into_int_pointer-json_nullable (some z) before h = ground (arith, parse_int-number_text z h)

into_payload :
    (p : CanonicalPayload)
    → is_size p.size_bytes ≡ true
    → into_struct set_payload
        (payload_json p)
        (record { digest = ""; classification = []; size_bytes = none })
      ≡ ok (record {
        digest = p.digest;
        classification = p.classification;
        size_bytes = p.size_bytes;
      })
unfolding payload_json into_struct into_fields set_payload names fold_char into_string
into_payload p h =
    rw
      (
        into_strings-json_strings p.classification [],
        into_int_pointer-json_nullable p.size_bytes none h,
      )
      refl

abbrev pub persisted_action : CanonicalAction → PersistedAction
persisted_action a = record {
  schema = a.schema;
  typ = a.typ;
  requested_at = a.requested_at;
  actor = record {
    agent_id = a.actor.agent_id;
    runtime_id = a.actor.runtime_id;
    session_id = a.actor.session_id;
  };
  delegation = record {
    id = a.delegation.id;
    delegator = persisted_principal a.delegation.delegator;
  };
  target = record { resource_type = a.target.resource_type; resource_id = a.target.resource_id };
  parameters = some (parameters_json a.parameters);
  payload = record {
    digest = a.payload.digest;
    classification = a.payload.classification;
    size_bytes = a.payload.size_bytes;
  };
  authorization_evidence = map persisted_evidence a.authorization_evidence;
}

into_delegation :
    (d : CanonicalDelegation)
    → into_struct set_delegation (delegation_json d) (record { id = ""; delegator = no_principal })
      ≡ ok (record { id = d.id; delegator = persisted_principal d.delegator })
unfolding delegation_json into_struct into_fields set_delegation names fold_char into_string
into_delegation d = rw (into_principal-principal_json d.delegator) refl

into_actor :
    (a : CanonicalActor)
    → into_struct set_actor (actor_json a) no_actor
      ≡ ok (record { agent_id = a.agent_id; runtime_id = a.runtime_id; session_id = a.session_id })
unfolding actor_json into_struct into_fields set_actor names fold_char into_string
into_actor a = refl

into_target :
    (t : CanonicalTarget)
    → into_struct set_target (target_json t) (record { resource_type = ""; resource_id = "" })
      ≡ ok (record { resource_type = t.resource_type; resource_id = t.resource_id })
unfolding target_json into_struct into_fields set_target names fold_char into_string
into_target t = refl

pub into_action-action_json :
    (a : CanonicalAction)
    → is_size a.payload.size_bytes ≡ true
    → into_action (action_json a) no_action ≡ ok (persisted_action a)
unfolding into_action action_json set_action names fold_char into_string into_list
into_action-action_json a h =
    let actor = into_actor a.actor in
    let delegation = into_delegation a.delegation in
    let target = into_target a.target in
    let payload = into_payload a.payload h in
    let evidence =
      into_items-map into_evidence no_evidence evidence_json persisted_evidence
        into_evidence-evidence_json a.authorization_evidence in
    unfold into_struct into_fields in rw (actor, delegation, target, payload, evidence) refl
