-- ===== src/Application/Ports.antt =====
-- internal/application/ports.go, clock.go and ids.go: what the decision service calls. `S` is the
-- state behind the ports; a call may change it, whether it fails or not.
use agent_action_control.Prelude.{
  String, Bool, Option, ◌||◌, ◌==◌, ◌∷◌, [], if◌then◌else◌, ◌≡◌, refl, ◌⊎◌, inl, inr,
}
use agent_action_control.Errors.{Error, Result, ok, err, invalid_input}
use agent_action_control.Time.{Time}
use agent_action_control.Domain.ProposedAction.{ProposedAction}
use agent_action_control.Application.Evaluation.{
  PolicyEvaluation, StoredEvaluation, EvaluationCommit, DecisionRecord,
}

abbrev pub IdKind : Type 0
IdKind = String

abbrev pub id_decision : IdKind
id_decision = "DECISION"

abbrev pub id_policy_effect : IdKind
id_policy_effect = "POLICY_EFFECT"

unfoldable pub id_kind_valid : IdKind → Bool
id_kind_valid kind = kind == id_decision || kind == id_policy_effect

unfoldable pub parse_id_kind : String → Result IdKind
parse_id_kind value = if id_kind_valid value then ok value else err (invalid_input ∷ [])

-- A computation on the state that may fail.
abbrev pub Run : Type 0 → Type 0 → Type 0
Run S A = S → Result A × S

-- What follows a computation that has not failed.
abbrev pub after : {S A B : Type 0} → Result A × S → (A → Run S B) → Result B × S
after (ok a, s) k = k a s
after (err e, s) k = (err e, s)

abbrev pub lift : {S A : Type 0} → Result A → Run S A
lift r s = (r, s)

-- What becomes of the error of a computation.
abbrev pub on_error : {S A : Type 0} → (Error → Error) → Result A × S → Result A × S
on_error f (ok a, s) = (ok a, s)
on_error f (err e, s) = (err (f e), s)

pub Outcome-cases :
    {S A : Type 0} (o : Result A × S)
    → ((a : A) × (s : S) × (o ≡ (ok a, s))) ⊎ ((e : Error) × (s : S) × (o ≡ (err e, s)))
Outcome-cases (ok a, s) = inl (a, s, refl)
Outcome-cases (err e, s) = inr (e, s, refl)

abbrev pub PolicyEvaluator : Type 0 → Type 0
PolicyEvaluator S = ProposedAction → Run S PolicyEvaluation

-- A stored evaluation is a pointer, and `none` is its nil.
pub record DecisionLedger (S : Type 0) : Type 0 where
  pub get_evaluation_by_request_id :
      (runtime_id request_id : String) → Run S (Option StoredEvaluation)
  pub commit_evaluation : EvaluationCommit → Run S DecisionRecord

abbrev pub Clock : Type 0 → Type 0
Clock S = S → Time × S

abbrev pub IdGenerator : Type 0 → Type 0
IdGenerator S = IdKind → Run S String
