-- ===== src/Storage/Decode/RoundTrip.antt =====
-- Values that have been stored, decoded.
use agent_action_control.Domain.CanonicalValue.Numbers.{is_json-action_json}
use agent_action_control.Json.RoundTrip.{parse-marshal_json}
use agent_action_control.Json.Unmarshal.{unmarshal}
use agent_action_control.Json.Sizes.{size}
use agent_action_control.Time.{utc}
use agent_action_control.Domain.Action.{parse_payload_digest}
use agent_action_control.Domain.Payload.Laws.{new_payload_facts_of_IsPayload}
use agent_action_control.Domain.Action.Laws.{parse_payload_digest_of_valid, new_actor_of_IsActor}
use agent_action_control.Domain.Canonical.Laws.{canonical_parameters-total}
use agent_action_control.Domain.ProposedAction.{new_proposed_action, rebuild, ProposedAction}
use agent_action_control.Domain.ProposedAction.Laws.{rebuild_of_IsAction, IsAction}
use agent_action_control.Storage.Unmarshal.Canonical.{
  is_size, into_action-action_json, persisted_action, into_update_resource_access, into_delete,
  persisted_principal, persisted_evidence, into_external_send,
}
use agent_action_control.Domain.Canonical.{
  canonical_action_bytes, canonical_action_schema_v1, canonical_action, Digests,
  canonical_principal_value, canonical_parameters, canonical_evidence,
}
use agent_action_control.Strings.{Unicode}
use agent_action_control.Domain.Parameters.Laws.{
  new_delete_parameters_of_IsDelete,
  new_update_resource_access_parameters_of_IsUpdateResourceAccess,
  new_external_send_parameters_of_IsExternalSend, IsParameters,
}
use agent_action_control.Domain.Evidence.Laws.{new_authorization_evidence_of_IsEvidence, IsEvidence}
use agent_action_control.Domain.CanonicalValue.{
  marshal, action_json, CanonicalUpdateResourceAccessParameters, CanonicalDeleteParameters,
  CanonicalAction, parameters_json, CanonicalParameters,
}
use agent_action_control.Domain.Evidence.{AuthorizationEvidence}
use agent_action_control.Domain.Parameters.{
  delete, update_resource_access, parameters_type, external_send, ActionParameters,
}
use agent_action_control.Storage.Decode.{
  decode_action, restore_action, in_years, Times, ReadsTimes, decode_parameters, decode_evidence,
  decode_principal,
}
use agent_action_control.Domain.Principal.{parse_principal_type, Principal}
use agent_action_control.Domain.Principal.Laws.{
  new_target_of_IsTarget, new_delegation_of_IsDelegation, new_principal_of_IsPrincipal, IsPrincipal,
}
use agent_action_control.Prelude.{String, true, some, ◌≡◌, ◌∷◌, refl, map, arith, [], List, All}
use agent_action_control.Errors.{ok, traverse, Result}

-- A loop that takes back what two conversions have done.
traverse-back :
    {A B C : Type 0} (f : C → Result A) (g : B → C) (k : A → B) (P : A → Type 0)
    → ((x : A) → P x → f (g (k x)) ≡ ok x)
    → (xs : List A) → All P xs
    → traverse f (map g (map k xs)) ≡ ok xs
unfolding traverse
traverse-back f g k P each [] all = refl
traverse-back f g k P each (x ∷ xs) all =
    rw (each x all.0, traverse-back f g k P each xs all.1) refl

decode_principal_of_IsPrincipal :
    (p : Principal)
    → IsPrincipal p
    → decode_principal (persisted_principal (canonical_principal_value p)) ≡ ok p
unfolding decode_principal parse_principal_type canonical_principal_value
decode_principal_of_IsPrincipal p h =
    let known = h.known in ground (arith, new_principal_of_IsPrincipal p h)

module _ ⦃u : Unicode⦄ where
  decode_evidence_of_IsEvidence :
      (e : AuthorizationEvidence)
      → IsEvidence e
      → decode_evidence (persisted_evidence (canonical_evidence e)) ≡ ok e
  unfolding decode_evidence canonical_evidence
  decode_evidence_of_IsEvidence e h =
      let issuer = decode_principal_of_IsPrincipal e.issued_by h.issued in
      let scope = h.scoped in
      let typ = h.typed in rw (issuer, scope, typ) (new_authorization_evidence_of_IsEvidence e h)

  decode_parameters_of_IsParameters :
      (p : ActionParameters) (c : CanonicalParameters)
      → IsParameters p
      → canonical_parameters (some p) ≡ ok c
      → decode_parameters (parameters_type p) (some (parameters_json c)) ≡ ok p
  unfolding decode_parameters canonical_parameters parameters_type
  decode_parameters_of_IsParameters (external_send p) c h e =
      let read =
        into_external_send
          (record { destination_scope = p.destination_scope; recipients = p.recipients }) in
      ground (arith, read, new_external_send_parameters_of_IsExternalSend p h)
  decode_parameters_of_IsParameters (update_resource_access p) c h e =
      let principals = h.principals in
      let v : CanonicalUpdateResourceAccessParameters = record {
        current_scope = p.current_scope;
        requested_scope = p.requested_scope;
        target_principals = map canonical_principal_value p.target_principals;
      } in
      let back =
        traverse-back decode_principal persisted_principal canonical_principal_value IsPrincipal
          decode_principal_of_IsPrincipal p.target_principals principals.principals in
      ground (
        arith,
        into_update_resource_access v,
        back,
        new_update_resource_access_parameters_of_IsUpdateResourceAccess p h,
      )
  decode_parameters_of_IsParameters (delete p) c h e =
      let v : CanonicalDeleteParameters = record {
        delete_mode = p.mode;
        recoverable = p.recoverable;
      } in
      ground (arith, into_delete v, new_delete_parameters_of_IsDelete p h)

  module _ ⦃d : Digests⦄ ⦃t : Times⦄ where
    -- What the canonical form of a normal action holds.
    abbrev canonical_value : ProposedAction → CanonicalParameters → CanonicalAction
    canonical_value a c = record {
      schema = canonical_action_schema_v1;
      typ = a.typ;
      requested_at = d.format_instant a.requested_at.instant;
      actor = record {
        agent_id = a.actor.agent_id;
        runtime_id = a.actor.runtime_id;
        session_id = a.actor.session_id;
      };
      delegation = record {
        id = a.delegation.id;
        delegator = canonical_principal_value a.delegation.delegator;
      };
      target = record {
        resource_type = a.target.resource_type;
        resource_id = a.target.resource_id;
      };
      parameters = c;
      payload = record {
        digest = a.payload.digest;
        classification = a.payload.classification;
        size_bytes = a.payload.size_bytes;
      };
      authorization_evidence = map canonical_evidence a.evidence;
    }

    canonical_action-canonical_value :
        (a : ProposedAction) (h : IsAction a) (c : CanonicalParameters)
        → canonical_parameters (some h.facts) ≡ ok c
        → canonical_action a ≡ ok (canonical_value a c)
    unfolding canonical_action utc
    canonical_action-canonical_value a h c q = rw (rebuild_of_IsAction a h, h.has_facts, q) refl

    restore_action-canonical_value :
        (a : ProposedAction) (h : IsAction a) (c : CanonicalParameters)
        → ReadsTimes d t
        → in_years a.requested_at.instant ≡ true
        → canonical_parameters (some h.facts) ≡ ok c
        → restore_action (persisted_action (canonical_value a c)) ≡ ok a
    unfolding restore_action
    restore_action-canonical_value a h c reads range q =
        let delegation = h.delegation in
        let payload = h.payload in
        let evidence = h.evidence in
        let in_utc = h.in_utc in
        let time : t.parse_nano (d.format_instant a.requested_at.instant) ≡ ok a.requested_at =
          ground (arith, reads.reads_canonical a.requested_at.instant range) in
        let whole_action : new_proposed_action a.typ a.requested_at a.actor a.delegation a.target
              (some h.facts) a.payload a.evidence
            ≡ ok a =
          rw (← h.has_facts) (unfold rebuild in rebuild_of_IsAction a h) in
        let digest : parse_payload_digest a.payload.digest ≡ ok a.payload.digest =
          parse_payload_digest_of_valid a.payload.digest payload.digested in
        let parameters : decode_parameters a.typ (some (parameters_json c)) ≡ ok h.facts =
          rw (← h.facts_typed) (decode_parameters_of_IsParameters h.facts c h.parameters q) in
        rw
          (
            time,
            new_actor_of_IsActor a.actor h.actor,
            decode_principal_of_IsPrincipal a.delegation.delegator delegation.delegated,
            new_delegation_of_IsDelegation a.delegation h.delegation,
            new_target_of_IsTarget a.target h.target,
            parameters,
            digest,
            new_payload_facts_of_IsPayload a.payload h.payload,
            traverse-back decode_evidence persisted_evidence canonical_evidence IsEvidence
                decode_evidence_of_IsEvidence a.evidence evidence.evidence,
          )
          whole_action

    -- Where times are read as they were written, a normal action that was asked for in the years 0 to
    -- 9999 and whose size is an `int64` has a canonical text, which is decoded to the same action.
    pub decode_action-canonical_action_bytes :
        (a : ProposedAction)
        → IsAction a
        → ReadsTimes d t
        → in_years a.requested_at.instant ≡ true
        → is_size a.payload.size_bytes ≡ true
        → (bytes : String) × (canonical_action_bytes a ≡ ok bytes) × (decode_action bytes ≡ ok a)
    unfolding canonical_action_bytes decode_action unmarshal marshal
    decode_action-canonical_action_bytes a h reads range size =
        let (c, q) = canonical_parameters-total h.facts in
        let v = canonical_value a c in
        rw (canonical_action-canonical_value a h c q) (
          marshal v,
          refl,
          rw
              (
                parse-marshal_json (action_json v) (is_json-action_json v),
                into_action-action_json v size,
              )
              (restore_action-canonical_value a h c reads range q),
        )
