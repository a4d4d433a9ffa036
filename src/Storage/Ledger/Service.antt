-- ===== src/Storage/Ledger/Service.antt =====
-- The decision service over the ledger.
use agent_action_control.Application.Normalizer.Guarantees.{normalize-IsAction}
use agent_action_control.Domain.Identifier.{IsIdentifier}
use agent_action_control.Storage.Unmarshal.Canonical.{is_size}
use agent_action_control.Time.{utc}
use agent_action_control.Storage.Ledger.RoundTrip.{IsStorable}
use agent_action_control.Application.Normalizer.{normalize}
use agent_action_control.Storage.Ledger.Answers.{commit_evaluation-IsStored, IsBound}
use agent_action_control.Strings.{trim_space_idem, trim_space, Unicode}
use agent_action_control.Storage.Decode.{in_years, Times, ReadsTimes}
use agent_action_control.Domain.ProposedAction.{ProposedAction}
use agent_action_control.Prelude.{
  inr, inl, arith, ◌≡◌, true, false, some, ap, eq_iff, String, Option, ◌==◌,
}
use agent_action_control.Domain.Canonical.{compute_action_digest, Digests}
use agent_action_control.Application.Evaluation.{StoredEvaluation, DecisionRecord, EvaluationCommit}
use agent_action_control.Application.Runtime.{AuthenticatedRuntime}
use mathlib.Core.Path.{subst}
use agent_action_control.Application.Ports.{DecisionLedger, PolicyEvaluator, Clock, IdGenerator}
use agent_action_control.Application.Service.{
  normalize_decision_request_id, evaluate, prepare, EvaluateActionCommand, DecisionService,
}
use agent_action_control.Application.Service.Commit.{evaluate-IsCommit, IsCommit}
use agent_action_control.Storage.Ledger.{
  commit_evaluation, get_evaluation_by_request_id, SqliteLedger,
}
use agent_action_control.Storage.Database.{World}
use agent_action_control.Storage.Tables.{Checks}
use agent_action_control.Errors.{Result-cases, ok, err, Result, Error, is, evaluation_not_found}

-- A stored evaluation that is found is a pointer that is not nil.
abbrev pub pointer : Result StoredEvaluation × World → Result (Option StoredEvaluation) × World
pointer (ok stored, w) = (ok (some stored), w)
pointer (err e, w) = (err e, w)

module _ ⦃k : Checks⦄ ⦃u : Unicode⦄ ⦃d : Digests⦄ ⦃t : Times⦄ where
  abbrev pub sqlite_ledger : Option SqliteLedger → DecisionLedger World
  sqlite_ledger ledger = record {
    get_evaluation_by_request_id = λ runtime_id request_id w.
        pointer (get_evaluation_by_request_id ledger runtime_id request_id w);
    commit_evaluation = commit_evaluation ledger;
  }

  abbrev pub service_over :
      Option SqliteLedger
      → PolicyEvaluator World
      → Clock World
      → IdGenerator World
      → DecisionService World
  service_over ledger policy clock ids = record {
    policy_evaluator = policy;
    decision_ledger = sqlite_ledger ledger;
    clock = clock;
    id_generator = ids;
  }

  pub prepare-ok :
      (caller : AuthenticatedRuntime) (command : EvaluateActionCommand) (request : String)
      (a : ProposedAction) (digest : String)
      → prepare caller command ≡ ok (request, a, digest)
      → (normalize caller command.proposed_action ≡ ok a)
        × (trim_space request ≡ request)
        × ((request == "") ≡ false)
  unfolding prepare normalize_decision_request_id
  prepare-ok caller command request a digest p =
      elim (Result-cases (normalize caller command.proposed_action)) [
        | inr (e, run) ↦ absurd (ground arith)
        | inl (b, run) ↦ elim (Result-cases (compute_action_digest b)) [
          | inr (e, run') ↦ absurd (ground arith)
          | inl (d, run') ↦ ground (arith, trim_space_idem command.request_id)
        ]
      ]

  -- What can be stored: an action asked for in the years 0 to 9999 with a size that is an `int64`,
  -- under a well-formed runtime, and a clock that tells a time in these years.
  pub record IsInRange (caller : AuthenticatedRuntime) (a : ProposedAction) (clock : Clock World)
      : Type 0 where
    pub runtime : IsIdentifier caller.runtime_id
    pub requested : in_years a.requested_at.instant ≡ true
    pub size : is_size a.payload.size_bytes ≡ true
    pub told : (w : World) → in_years (clock w).0.instant ≡ true

  commit-IsStorable :
      (caller : AuthenticatedRuntime) (command : EvaluateActionCommand) (request : String)
      (a : ProposedAction) (digest : String) (clock : Clock World) (c : EvaluationCommit)
      → prepare caller command ≡ ok (request, a, digest)
      → IsInRange caller a clock
      → IsCommit clock caller request a digest c
      → IsStorable c
  commit-IsStorable caller command request a digest clock c p h good =
      let (normal, trimmed, present) = prepare-ok caller command request a digest p in
      let action = good.action in
      let runtime = good.runtime in
      let req = good.request in
      let (s, read) = good.read in
      record {
        action = rw action (normalize-IsAction caller command.proposed_action a h.runtime normal).0;
        requested = rw action h.requested;
        size = rw action h.size;
        decision = good.decided;
        evaluated = rw read (unfold utc in h.told s);
        runtime_trimmed = rw runtime h.runtime.trimmed;
        request_trimmed = rw req trimmed;
        runtime_present =
            rw runtime (let n = h.runtime.present in ground (arith, eq_iff caller.runtime_id ""));
        request_present = rw req present;
      }

  -- Where times are read as they were written and what is asked for can be stored: a decision that
  -- the service answers for a request that the ledger does not know is stored. The tables bind the
  -- request to the digest of its action, and what is read from its rows is the whole answered
  -- record, whatever other processes commit and whichever calls fail.
  pub evaluate-IsBound :
      (ledger : Option SqliteLedger) (policy : PolicyEvaluator World) (clock : Clock World)
      (ids : IdGenerator World) (caller : AuthenticatedRuntime) (command : EvaluateActionCommand)
      (w w1 w' : World) (r : DecisionRecord) (request : String) (a : ProposedAction)
      (digest : String) (x : Error)
      → ReadsTimes d t
      → IsInRange caller a clock
      → prepare caller command ≡ ok (request, a, digest)
      → get_evaluation_by_request_id ledger caller.runtime_id request w ≡ (err x, w1)
      → is x evaluation_not_found ≡ true
      → evaluate (some (service_over ledger policy clock ids)) caller command w ≡ (ok r, w')
      → IsBound caller.runtime_id request digest r w'.tables
  evaluate-IsBound ledger policy clock ids caller command w w1 w' r request a digest x reads range p
        f n h =
      let (v, c, w2, w3, asked, composed, good, done, sure) =
        evaluate-IsCommit (service_over ledger policy clock ids) caller command w w' r request a
          digest w1 x h p (ap pointer f) n in
      let stored =
        commit_evaluation-IsStored ledger c reads
          (commit-IsStorable caller command request a digest clock c p range good) w3 r
          (ap (λ (o : Result DecisionRecord × World). o.0) done) in
      let bound : IsBound c.runtime_id c.request_id c.action_digest r w'.tables =
        subst
          (λ (o : Result DecisionRecord × World).
            IsBound c.runtime_id c.request_id c.action_digest r o.1.tables)
          done stored in
      subst (λ (z : String × String × String). IsBound z.0 z.1 z.2 r w'.tables)
        (λ i. (good.runtime i, good.request i, good.digest i)) bound
