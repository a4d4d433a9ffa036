-- ===== src/Application/Service/Commit.antt =====
-- What the decision service commits for a new request, and what it returns.
use agent_action_control.Application.Composer.{compose}
use agent_action_control.Domain.Identifier.{is_blank}
use agent_action_control.Application.Composer.Laws.{compose-IsDecision}
use agent_action_control.Strings.{trim_space_idem, trim_space, Unicode}
use agent_action_control.Time.{utc, is_zero, Time}
use agent_action_control.Domain.ProposedAction.{ProposedAction}
use agent_action_control.Domain.Effect.{PolicyEffect}
use agent_action_control.Application.Ports.{id_policy_effect, id_decision, Clock, Outcome-cases}
use agent_action_control.Domain.Decision.Laws.{IsDecision}
use agent_action_control.Application.Service.Laws.{
  validate_authoritative_decision-IsAuthoritative, resolve_stored_evaluation-IsAuthoritative,
  IsAuthoritative,
}
use agent_action_control.Errors.{ok, is, evaluation_not_found, err, Result-cases, Result, Error}
use agent_action_control.Domain.Canonical.{Digests}
use agent_action_control.Application.Service.{
  evaluate, prepare, decide, continue, validate_policy_evaluation, validate_authoritative_decision,
  valid_policy_effect, read_clock, prepare_policy_effects, new_required_id, new_commit,
  evaluate_with, evaluate_new, EvaluateActionCommand, DecisionService,
}
use agent_action_control.Application.Evaluation.{
  StoredEvaluation, PolicyEvaluation, PolicyEffectCommit, EvaluationCommit, DecisionRecord,
}
use agent_action_control.Domain.Decision.{Decision}
use agent_action_control.Application.Runtime.{AuthenticatedRuntime}
use agent_action_control.Prelude.{
  ◌≡◌, ◌∷◌, true, some, refl, inr, inl, false, arith, [], String, Option, List, Bool-cases, All,
}

pub record IsEffectCommit (e : PolicyEffectCommit) : Type 0 where
  pub identified : is_blank e.effect_id ≡ false
  pub effective : valid_policy_effect e.effect ≡ true

-- What is handed to the ledger names the request, the action and its digest, a decision and a policy
-- version, and has identifiers and a time that the clock has told.
pub record IsCommit {S : Type 0} (clock : Clock S) (caller : AuthenticatedRuntime) (r : String)
    (a : ProposedAction) (d : String) (c : EvaluationCommit) : Type 0 where
  pub runtime : c.runtime_id ≡ caller.runtime_id
  pub request : c.request_id ≡ r
  pub action : c.action ≡ a
  pub digest : c.action_digest ≡ d
  pub identified : is_blank c.decision_id ≡ false
  pub decided : IsDecision c.decision
  pub versioned : is_blank c.policy_version ≡ false
  pub effects : All IsEffectCommit c.effects
  pub timed : is_zero c.evaluated_at ≡ false
  pub in_utc : c.evaluated_at.location ≡ "UTC"
  pub read : (s : S) × (c.evaluated_at ≡ utc (clock s).0)

module _ {S : Type 0} (service : DecisionService S) where
  new_required_id-present :
      (kind id : String) (s s' : S)
      → new_required_id service kind s ≡ (ok id, s')
      → is_blank id ≡ false
  unfolding new_required_id is_blank
  new_required_id-present kind id s s' h = elim (Outcome-cases (service.id_generator kind s)) [
    | inr (x, t, q) ↦ absurd (ground arith)
    | inl (v, t, q) ↦
        let e : trim_space v ≡ id = ground arith in rw (← e, trim_space_idem v) (ground arith)
  ]

  prepare_policy_effects-IsEffectCommit :
      (effects : List PolicyEffect) (cs : List PolicyEffectCommit) (s s' : S)
      → prepare_policy_effects service effects s ≡ (ok cs, s')
      → All IsEffectCommit cs
  unfolding prepare_policy_effects
  prepare_policy_effects-IsEffectCommit [] cs s s' h = let e : [] ≡ cs = ground arith in rw (← e) tt
  prepare_policy_effects-IsEffectCommit (x ∷ effects) cs s s' h =
      elim (Bool-cases (valid_policy_effect x)) [
        | inr v ↦ absurd (ground arith)
        | inl v ↦ elim (Outcome-cases (new_required_id service id_policy_effect s)) [
          | inr (y, t, q) ↦ absurd (ground arith)
          | inl (id, t, q) ↦ elim (Outcome-cases (prepare_policy_effects service effects t)) [
            | inr (y, t', k) ↦ absurd (ground arith)
            | inl (ds, t', k) ↦
                let c : PolicyEffectCommit = record { effect_id = id; effect = x } in
                let e : c ∷ ds ≡ cs = ground arith in
                rw (← e) (
                  record {
                    identified = new_required_id-present id_policy_effect id s t q;
                    effective = v;
                  },
                  prepare_policy_effects-IsEffectCommit effects ds t t' k,
                )
          ]
        ]
      ]

  read_clock-timed :
      (s s' : S) (now : Time)
      → read_clock service s ≡ (ok now, s')
      → (is_zero now ≡ false) × (now.location ≡ "UTC") × (now ≡ utc (service.clock s).0)
  unfolding read_clock utc
  read_clock-timed s s' now h = ground arith

  pub new_commit-IsCommit :
      (caller : AuthenticatedRuntime) (request : String) (a : ProposedAction) (digest : String)
      (v : PolicyEvaluation) (decision : Decision) (c : EvaluationCommit) (s s' : S)
      → compose v ≡ ok decision
      → is_blank v.policy_version ≡ false
      → new_commit service caller request a digest v decision s ≡ (ok c, s')
      → IsCommit service.clock caller request a digest c × (c.decision ≡ decision)
  unfolding new_commit is_blank
  new_commit-IsCommit caller request a digest v decision c s s' m b h =
      elim (Outcome-cases (new_required_id service id_decision s)) [
        | inr (x, t, q) ↦ absurd (ground arith)
        | inl (id, t, q) ↦ elim (Outcome-cases (prepare_policy_effects service v.effects t)) [
          | inr (x, t', k) ↦ absurd (ground arith)
          | inl (fx, t', k) ↦ elim (Outcome-cases (read_clock service t')) [
            | inr (x, t'', l) ↦ absurd (ground arith)
            | inl (now, t'', l) ↦
                let timed = read_clock-timed t' t'' now l in
                let full : EvaluationCommit = record {
                  runtime_id = caller.runtime_id;
                  request_id = request;
                  action = a;
                  action_digest = digest;
                  decision_id = id;
                  decision = decision;
                  policy_version = trim_space v.policy_version;
                  matched_rule_ids = v.matched_rule_ids;
                  effects = fx;
                  evaluated_at = now;
                } in
                let e : full ≡ c = ground arith in
                rw (← e) (
                  record {
                    runtime = refl;
                    request = refl;
                    action = refl;
                    digest = refl;
                    identified = new_required_id-present id_decision id s t q;
                    decided = (compose-IsDecision v decision m).0;
                    versioned = rw (trim_space_idem v.policy_version) b;
                    effects = prepare_policy_effects-IsEffectCommit v.effects fx t t' k;
                    timed = timed.0;
                    in_utc = timed.1;
                    read = (t', timed.2);
                  },
                  refl,
                )
          ]
        ]
      ]

  pub decide-parts :
      (a : ProposedAction) (v : PolicyEvaluation) (decision : Decision) (s s' : S)
      → decide service a s ≡ (ok (v, decision), s')
      → (service.policy_evaluator a s ≡ (ok v, s'))
        × (validate_policy_evaluation v ≡ ok tt)
        × (compose v ≡ ok decision)
  unfolding decide
  decide-parts a v decision s s' h = elim (Outcome-cases (service.policy_evaluator a s)) [
    | inr (x, t, q) ↦ absurd (ground arith)
    | inl (w, t, q) ↦ elim (Result-cases (validate_policy_evaluation w)) [
      | inr (x, k) ↦ absurd (ground arith)
      | inl (x, k) ↦ elim (Result-cases (compose w)) [
        | inr (y, l) ↦ absurd (ground arith)
        | inl (y, l) ↦ ground arith
      ]
    ]
  ]

  pub validate_policy_evaluation-versioned :
      (v : PolicyEvaluation)
      → validate_policy_evaluation v ≡ ok tt
      → is_blank v.policy_version ≡ false
  unfolding validate_policy_evaluation is_blank
  validate_policy_evaluation-versioned v h = ground arith

  evaluate_new-IsCommit :
      (caller : AuthenticatedRuntime) (request : String) (a : ProposedAction) (digest : String)
      (s s' : S) (r : DecisionRecord)
      → evaluate_new service caller request a digest s ≡ (ok r, s')
      → (v : PolicyEvaluation) × (c : EvaluationCommit) × (t : S) × (t' : S)
        × (service.policy_evaluator a s ≡ (ok v, t))
        × (compose v ≡ ok c.decision)
        × IsCommit service.clock caller request a digest c
        × (service.decision_ledger.commit_evaluation c t' ≡ (ok r, s'))
        × IsAuthoritative r digest
  unfolding evaluate_new
  evaluate_new-IsCommit caller request a digest s s' r h =
      elim (Outcome-cases (decide service a s)) [
        | inr (x, t, q) ↦ absurd (ground arith)
        | inl ((v, decision), t, q) ↦
            elim (Outcome-cases (new_commit service caller request a digest v decision t)) [
              | inr (x, t', k) ↦ absurd (ground arith)
              | inl (c, t', k) ↦
                  elim (Outcome-cases (service.decision_ledger.commit_evaluation c t')) [
                    | inr (x, t'', l) ↦ absurd (ground arith)
                    | inl (r', t'', l) ↦
                        elim (Result-cases (validate_authoritative_decision r' digest)) [
                          | inr (x, m) ↦ absurd (ground arith)
                          | inl (x, m) ↦
                              let (asked, valid, composed) = decide-parts a v decision s t q in
                              let version = validate_policy_evaluation-versioned v valid in
                              let (good, same_decision) =
                                new_commit-IsCommit caller request a digest v decision c t t'
                                  composed version k in
                              let same_record : r' ≡ r = ground arith in
                              (
                                v,
                                c,
                                t,
                                t',
                                asked,
                                rw same_decision composed,
                                good,
                                ground arith,
                                rw (← same_record)
                                    (validate_authoritative_decision-IsAuthoritative r' digest m),
                              )
                        ]
                  ]
            ]
      ]

  continue-IsAuthoritative :
      (caller : AuthenticatedRuntime) (request : String) (a : ProposedAction) (digest : String)
      (found : Result (Option StoredEvaluation) × S) (s' : S) (r : DecisionRecord)
      → continue service caller request a digest found ≡ (ok r, s')
      → IsAuthoritative r digest
  unfolding continue
  continue-IsAuthoritative caller request a digest (ok existing, s) s' r h =
      resolve_stored_evaluation-IsAuthoritative existing caller.runtime_id request digest r
        (ground arith)
  continue-IsAuthoritative caller request a digest (err x, s) s' r h =
      elim (Bool-cases (is x evaluation_not_found)) [
        | inr q ↦ absurd (ground arith)
        | inl q ↦
            let (v, c, t, t', asked, composed, good, done, sure) =
              evaluate_new-IsCommit caller request a digest s s' r (ground arith) in
            sure
      ]

module _ ⦃u : Unicode⦄ ⦃d : Digests⦄ {S : Type 0} (service : DecisionService S)
    (caller : AuthenticatedRuntime) (command : EvaluateActionCommand) (s s' : S)
    (r : DecisionRecord) where
  pub evaluate-IsAuthoritative :
      evaluate (some service) caller command s ≡ (ok r, s')
      → (request : String) × (a : ProposedAction) × (digest : String) × (prepare caller command
          ≡ ok (request, a, digest))
        × IsAuthoritative r digest
  unfolding evaluate evaluate_with
  evaluate-IsAuthoritative h = elim (Result-cases (prepare caller command)) [
    | inr (x, q) ↦ absurd (ground arith)
    | inl ((request, a, digest), q) ↦ (
      request,
      a,
      digest,
      q,
      continue-IsAuthoritative service caller request a digest
          (service.decision_ledger.get_evaluation_by_request_id caller.runtime_id request s) s' r
          (ground arith),
    )
  ]

  -- A decision that the service returns for a request that the ledger does not know is the ledger's
  -- answer to a commit, and what was committed is well formed: it names the request, the action and
  -- its digest, and its decision is the one composed from what the policy answered.
  pub evaluate-IsCommit :
      (request : String) (a : ProposedAction) (digest : String) (t : S) (x : Error)
      → evaluate (some service) caller command s ≡ (ok r, s')
      → prepare caller command ≡ ok (request, a, digest)
      → service.decision_ledger.get_evaluation_by_request_id caller.runtime_id request s
        ≡ (err x, t)
      → is x evaluation_not_found ≡ true
      → (v : PolicyEvaluation) × (c : EvaluationCommit) × (t' : S) × (t'' : S)
        × (service.policy_evaluator a t ≡ (ok v, t'))
        × (compose v ≡ ok c.decision)
        × IsCommit service.clock caller request a digest c
        × (service.decision_ledger.commit_evaluation c t'' ≡ (ok r, s'))
        × IsAuthoritative r digest
  unfolding evaluate evaluate_with continue
  evaluate-IsCommit request a digest t x h p f n =
      evaluate_new-IsCommit service caller request a digest t s' r (ground arith)
