-- ===== src/Application/Normalizer/Guarantees.antt =====
-- The actions that the normaliser returns, and the errors.
use agent_action_control.Application.Normalizer.Laws.{
  normalize_principal-IsPrincipal, normalize_parameters-IsParameters,
  normalize_evidence-IsEvidenceList,
}
use agent_action_control.Containers.{SameMembers}
use agent_action_control.Application.Normalizer.Describes.{
  normalize_parameters-Describes, normalize_evidence-Describes,
  normalize_authorization_evidence-Describes, DescribesParameters, DescribesEvidenceList,
}
use agent_action_control.Time.{utc}
use agent_action_control.Domain.Payload.Laws.{new_payload_facts-IsPayload}
use agent_action_control.Domain.Principal.Laws.{
  new_target-IsTarget, new_principal-IsPrincipal, new_delegation-IsDelegation,
}
use agent_action_control.Domain.Action.Laws.{parse_payload_digest-valid, new_actor-IsActor}
use agent_action_control.Strings.{trim_space, Unicode}
use agent_action_control.Application.Normalizer.{
  normalize, normalize_principal, normalize_parameters, normalize_evidence, normalize_action,
  ProposedActionInput,
}
use agent_action_control.Domain.ProposedAction.{new_proposed_action, ProposedAction}
use agent_action_control.Domain.Payload.{new_payload_facts, PayloadFacts}
use agent_action_control.Prelude.{
  map, ◌≡◌, ◌∙◌, true, some, inr, inl, eq_refl, arith, ap, String, List,
}
use agent_action_control.Domain.Identifier.{IsIdentifier}
use agent_action_control.Domain.ProposedAction.Laws.{new_proposed_action-IsAction, IsAction}
use agent_action_control.Errors.{same, ok, is, invalid_input, err, Result-cases, Error}
use agent_action_control.Domain.Principal.{
  new_target, new_delegation, Target, Principal, Delegation,
}
use agent_action_control.Domain.Evidence.{AuthorizationEvidence}
use agent_action_control.Application.Runtime.{AuthenticatedRuntime}
use agent_action_control.Domain.Action.{parse_payload_digest, new_actor, Actor}
use agent_action_control.Domain.Parameters.{ActionParameters}

module _ ⦃u : Unicode⦄ where
  -- The action states the facts of the input, trimmed, under the authenticated runtime: also its
  -- labels, its parameters and its evidence, up to order and repetition.
  pub record Describes (caller : AuthenticatedRuntime) (input : ProposedActionInput)
      (a : ProposedAction) : Type 0 where
    pub typ : a.typ ≡ input.typ
    pub requested_at : a.requested_at ≡ utc input.requested_at
    pub runtime : a.actor.runtime_id ≡ caller.runtime_id
    pub agent : a.actor.agent_id ≡ trim_space input.actor.agent_id
    pub session : a.actor.session_id ≡ trim_space input.actor.session_id
    pub delegation : a.delegation.id ≡ trim_space input.delegation.id
    pub delegator_type : a.delegation.delegator.typ ≡ input.delegation.delegator.typ
    pub delegator : a.delegation.delegator.id ≡ trim_space input.delegation.delegator.id
    pub resource_type : a.target.resource_type ≡ trim_space input.target.resource_type
    pub resource : a.target.resource_id ≡ trim_space input.target.resource_id
    pub digest : a.payload.digest ≡ trim_space input.payload.digest
    pub size : a.payload.size_bytes ≡ input.payload.size_bytes
    pub classification :
        SameMembers a.payload.classification (map trim_space input.payload.classification)
    pub parameters : DescribesParameters input.parameters a.parameters
    pub evidence : DescribesEvidenceList input.evidence a.evidence

  -- The last step, once every part has been built.
  assemble :
      (caller : AuthenticatedRuntime) (input : ProposedActionInput) (a : ProposedAction)
      (actor : Actor) (delegator : Principal) (delegation : Delegation) (target : Target)
      (p : ActionParameters) (digest : String) (payload : PayloadFacts)
      (es : List AuthorizationEvidence)
      → IsIdentifier caller.runtime_id
      → new_actor input.actor.agent_id caller.runtime_id input.actor.session_id ≡ ok actor
      → normalize_principal input.delegation.delegator ≡ ok delegator
      → new_delegation input.delegation.id delegator ≡ ok delegation
      → new_target input.target.resource_type input.target.resource_id ≡ ok target
      → normalize_parameters input.typ input.parameters ≡ ok p
      → parse_payload_digest (trim_space input.payload.digest) ≡ ok digest
      → new_payload_facts digest input.payload.classification input.payload.size_bytes ≡ ok payload
      → normalize_evidence input.evidence ≡ ok es
      → new_proposed_action input.typ input.requested_at actor delegation target (some p) payload es
        ≡ ok a
      → IsAction a × Describes caller input a
  assemble caller input a actor delegator delegation target p digest payload es known qa qd qg qt qp
        qh ql qe h =
      let (ha, agent, runtime, session) = new_actor-IsActor _ _ _ actor qa in
      let hd = normalize_principal-IsPrincipal input.delegation.delegator delegator qd in
      let (_, dt, di) =
        new_principal-IsPrincipal input.delegation.delegator.typ input.delegation.delegator.id
          delegator (unfold normalize_principal in qd) in
      let (hg, gi, gd) =
        new_delegation-IsDelegation input.delegation.id delegator delegation hd qg in
      let (ht, tt', ti) = new_target-IsTarget _ _ target qt in
      let hp = normalize_parameters-IsParameters input.typ input.parameters p qp in
      let (same_digest, _) = parse_payload_digest-valid _ digest qh in
      let (hl, ld, ls, lc) = new_payload_facts-IsPayload digest _ _ payload ql in
      let he = normalize_evidence-IsEvidenceList input.evidence es qe in
      let (normal, ty, ra, ea, eg, et, ep, el, ee) =
        new_proposed_action-IsAction input.typ input.requested_at actor delegation target p payload
          es a ha hg ht hp hl he.evidence h in
      (
        normal,
        record {
          typ = ty;
          requested_at = ra;
          runtime = ap (λ (x : Actor). x.runtime_id) ea ∙ (runtime ∙ known.trimmed);
          agent = ap (λ (x : Actor). x.agent_id) ea ∙ agent;
          session = ap (λ (x : Actor). x.session_id) ea ∙ session;
          delegation = ap (λ (x : Delegation). x.id) eg ∙ gi;
          delegator_type =
              ap (λ (x : Delegation). x.delegator.typ) eg ∙ (ap (λ (x : Principal). x.typ) gd ∙ dt);
          delegator =
              ap (λ (x : Delegation). x.delegator.id) eg ∙ (ap (λ (x : Principal). x.id) gd ∙ di);
          resource_type = ap (λ (x : Target). x.resource_type) et ∙ tt';
          resource = ap (λ (x : Target). x.resource_id) et ∙ ti;
          digest = ap (λ (x : PayloadFacts). x.digest) el ∙ (ld ∙ same_digest);
          size = ap (λ (x : PayloadFacts). x.size_bytes) el ∙ ls;
          classification = rw el lc;
          parameters = rw ep (normalize_parameters-Describes input.typ input.parameters p qp);
          evidence =
              normalize_authorization_evidence-Describes input.evidence es a.evidence
                (normalize_evidence-Describes input.evidence es qe) ee;
        },
      )

  normalize_action-IsAction :
      (caller : AuthenticatedRuntime) (input : ProposedActionInput) (a : ProposedAction)
      → IsIdentifier caller.runtime_id
      → normalize_action caller input ≡ ok a
      → IsAction a × Describes caller input a
  unfolding normalize_action
  normalize_action-IsAction caller input a known h =
      elim (Result-cases
        (new_actor input.actor.agent_id caller.runtime_id input.actor.session_id)) [
          | inr (x, q) ↦ absurd (ground arith)
          | inl (actor, qa) ↦ elim (Result-cases (normalize_principal input.delegation.delegator)) [
            | inr (x, q) ↦ absurd (ground arith)
            | inl (delegator, qd) ↦
                elim (Result-cases (new_delegation input.delegation.id delegator)) [
                  | inr (x, q) ↦ absurd (ground arith)
                  | inl (delegation, qg) ↦
                      elim (Result-cases
                        (new_target input.target.resource_type input.target.resource_id)) [
                          | inr (x, q) ↦ absurd (ground arith)
                          | inl (target, qt) ↦
                              elim (Result-cases
                                (normalize_parameters input.typ input.parameters)) [
                                  | inr (x, q) ↦ absurd (ground arith)
                                  | inl (p, qp) ↦
                                      elim (Result-cases
                                        (parse_payload_digest (trim_space input.payload.digest))) [
                                          | inr (x, q) ↦ absurd (ground arith)
                                          | inl (digest, qh) ↦
                                              elim (Result-cases (
                                                new_payload_facts digest
                                                  input.payload.classification
                                                  input.payload.size_bytes)) [
                                                    | inr (x, q) ↦ absurd (ground arith)
                                                    | inl (payload, ql) ↦
                                                        elim (Result-cases
                                                          (normalize_evidence input.evidence)) [
                                                            | inr (x, q) ↦ absurd (ground arith)
                                                            | inl (es, qe) ↦
                                                              assemble caller input a actor
                                                              delegator delegation target p digest
                                                              payload es known qa qd qg qt qp qh ql
                                                              qe (ground arith)
                                                          ]
                                                  ]
                                        ]
                                ]
                        ]
                ]
          ]
        ]

  -- Under a well-formed authenticated runtime, every action that the normaliser returns is normal and
  -- states the input under that runtime: its type, time, actor, delegation, target and payload, its
  -- parameters, and its evidence up to order and repetition.
  pub normalize-IsAction :
      (caller : AuthenticatedRuntime) (input : ProposedActionInput) (a : ProposedAction)
      → IsIdentifier caller.runtime_id
      → normalize caller input ≡ ok a
      → IsAction a × Describes caller input a
  unfolding normalize
  normalize-IsAction caller input a known h =
      normalize_action-IsAction caller input a known (ground arith)

  -- Every error of the normaliser is an invalid input for its callers.
  pub normalize-error :
      (caller : AuthenticatedRuntime) (input : ProposedActionInput) (e : Error)
      → normalize caller input ≡ err e
      → is e invalid_input ≡ true
  unfolding normalize is same
  normalize-error caller input e h = ground arith

  -- A runtime that the input names and that is the caller's makes no difference to naming none.
  pub normalize-claimed :
      (caller : AuthenticatedRuntime) (input : ProposedActionInput)
      → trim_space input.actor.runtime_id ≡ caller.runtime_id
      → normalize caller input
        ≡ normalize caller (record input { actor = record input.actor { runtime_id = "" } })
  unfolding normalize normalize_action trim_space
  normalize-claimed caller input h = ground (arith, eq_refl caller.runtime_id)
