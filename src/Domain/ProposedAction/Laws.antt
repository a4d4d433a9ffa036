-- ===== src/Domain/ProposedAction/Laws.antt =====
-- Normal actions, and `NewProposedAction` on them.
use agent_action_control.Prelude.{
  String, ◌≡◌, refl, true, false, eq_iff, List, some, All, arith, inl, inr,
}
use agent_action_control.Strings.{Unicode}
use agent_action_control.Errors.{ok, Result-cases}
use agent_action_control.Time.{Time, is_zero, utc}
use agent_action_control.Domain.Principal.{Delegation, Target}
use agent_action_control.Domain.Principal.Laws.{
  IsDelegation, delegation_valid_of_IsDelegation, IsTarget, target_valid_of_IsTarget,
}
use agent_action_control.Domain.Action.{action_type_valid, Actor}
use agent_action_control.Domain.Action.Laws.{IsActor, actor_valid_of_IsActor}
use agent_action_control.Domain.Parameters.{ActionParameters, parameters_type}
use agent_action_control.Domain.Parameters.Laws.{IsParameters, validate_parameters_of_IsParameters}
use agent_action_control.Domain.Payload.{PayloadFacts}
use agent_action_control.Domain.Payload.Laws.{IsPayload, payload_valid_of_IsPayload}
use agent_action_control.Domain.Evidence.{AuthorizationEvidence, normalize_authorization_evidence}
use agent_action_control.Domain.Evidence.Laws.{
  IsEvidence, IsEvidenceList, normalize_authorization_evidence-IsEvidenceList,
  normalize_authorization_evidence_of_IsEvidenceList,
}
use agent_action_control.Domain.ProposedAction.{
  ProposedAction, check_parameters, new_proposed_action, rebuild,
}

module _ ⦃u : Unicode⦄ where
  -- Every part is normal, the parameters are those of the action's type, and the time is in UTC.
  pub record IsAction (a : ProposedAction) : Type 0 where
    pub typed : action_type_valid a.typ ≡ true
    pub timed : is_zero a.requested_at ≡ false
    pub in_utc : a.requested_at.location ≡ "UTC"
    pub actor : IsActor a.actor
    pub delegation : IsDelegation a.delegation
    pub target : IsTarget a.target
    pub facts : ActionParameters
    pub has_facts : a.parameters ≡ some facts
    pub parameters : IsParameters facts
    pub facts_typed : parameters_type facts ≡ a.typ
    pub payload : IsPayload a.payload
    pub evidence : IsEvidenceList a.evidence

  is_zero-utc : (t : Time) → is_zero (utc t) ≡ is_zero t
  unfolding is_zero utc
  is_zero-utc t = refl

  -- The arguments of `NewProposedAction`.
  module _ (typ : String) (time : Time) (actor : Actor) (delegation : Delegation) (target : Target)
      (p : ActionParameters) (payload : PayloadFacts) (es : List AuthorizationEvidence) where
    -- The action that they make, with the evidence normalised.
    abbrev assembled : List AuthorizationEvidence → ProposedAction
    assembled normalized = record {
      typ = typ;
      requested_at = utc time;
      actor = actor;
      delegation = delegation;
      target = target;
      parameters = some p;
      payload = payload;
      evidence = normalized;
    }

    new_proposed_action-eq-assembled :
        (a : ProposedAction)
        → new_proposed_action typ time actor delegation target (some p) payload es ≡ ok a
        → (normalized : List AuthorizationEvidence) × (normalize_authorization_evidence es
            ≡ ok normalized)
          × (a ≡ assembled normalized)
          × (action_type_valid typ ≡ true)
          × (is_zero time ≡ false)
          × (parameters_type p ≡ typ)
    unfolding new_proposed_action check_parameters
    new_proposed_action-eq-assembled a h =
        elim (Result-cases (normalize_authorization_evidence es)) [
          | inl (normalized, run) ↦ (
            normalized,
            run,
            ground arith,
            ground arith,
            ground arith,
            ground (arith, eq_iff (parameters_type p) typ),
          )
          | inr (e, run) ↦ absurd (ground arith)
        ]

    pub new_proposed_action-IsAction :
        (a : ProposedAction)
        → IsActor actor
        → IsDelegation delegation
        → IsTarget target
        → IsParameters p
        → IsPayload payload
        → All IsEvidence es
        → new_proposed_action typ time actor delegation target (some p) payload es ≡ ok a
        → IsAction a
          × (a.typ ≡ typ)
          × (a.requested_at ≡ utc time)
          × (a.actor ≡ actor)
          × (a.delegation ≡ delegation)
          × (a.target ≡ target)
          × (a.parameters ≡ some p)
          × (a.payload ≡ payload)
          × (normalize_authorization_evidence es ≡ ok a.evidence)
    new_proposed_action-IsAction a ha hd ht hp hl he h =
        let (normalized, run, e, typed, timed, same) = new_proposed_action-eq-assembled a h in
        rw e (
          record {
            typed = typed;
            timed = rw (is_zero-utc time) timed;
            in_utc = unfold utc in refl;
            actor = ha;
            delegation = hd;
            target = ht;
            facts = p;
            has_facts = refl;
            parameters = hp;
            facts_typed = same;
            payload = hl;
            evidence = (normalize_authorization_evidence-IsEvidenceList es normalized he run).0;
          },
          refl,
          refl,
          refl,
          refl,
          refl,
          refl,
          refl,
          run,
        )

  utc_of_utc : (t : Time) → t.location ≡ "UTC" → utc t ≡ t
  unfolding utc
  utc_of_utc t h = ground arith

  -- A normal action is built again from its own fields without a change.
  pub rebuild_of_IsAction : (a : ProposedAction) → IsAction a → rebuild a ≡ ok a
  unfolding rebuild check_parameters
  rebuild_of_IsAction a h =
      let typed = h.typed in
      let timed = h.timed in
      let facts = h.has_facts in
      let same = h.facts_typed in
      ground (
        arith,
        utc_of_utc a.requested_at h.in_utc,
        actor_valid_of_IsActor a.actor h.actor,
        delegation_valid_of_IsDelegation a.delegation h.delegation,
        target_valid_of_IsTarget a.target h.target,
        validate_parameters_of_IsParameters h.facts h.parameters,
        eq_iff (parameters_type h.facts) a.typ,
        payload_valid_of_IsPayload a.payload h.payload,
        normalize_authorization_evidence_of_IsEvidenceList a.evidence h.evidence,
      )
