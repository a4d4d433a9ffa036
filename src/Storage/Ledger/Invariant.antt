-- ===== src/Storage/Ledger/Invariant.antt =====
-- The tables behind `CommitEvaluation`.
use agent_action_control.Storage.Tables.Transactions.{insert_all_idem}
use agent_action_control.Storage.Ledger.Steps.{insertion, commit_evaluation-IsGood}
use agent_action_control.Strings.{Unicode}
use agent_action_control.Storage.Decode.{Times}
use agent_action_control.Storage.Tables.Invariant.{insert_all-IsTables, IsTables}
use agent_action_control.Application.Evaluation.{EvaluationCommit}
use agent_action_control.Storage.Encode.{encode_evaluation, EncodedEvaluation}
use agent_action_control.Domain.Canonical.{Digests}
use agent_action_control.Storage.Tables.{insert_all, Tables, Insertion, Checks}
use agent_action_control.Prelude.{
  inr, ◌⊎◌, ◌≡◌, ◌∷◌, ◌∙◌, sym, refl, inl, arith, ap₂, ap, [], Option, List, All,
}
use mathlib.Core.Path.{subst}
use agent_action_control.Errors.{ok}
use agent_action_control.Storage.Ledger.{
  SqliteLedger, commit_evaluation, action_request_row, decision_row,
}
use agent_action_control.Storage.Tables.Answered.{insert_all-IsAnswered, IsAnswered, AnswersItself}
use agent_action_control.Storage.Database.{Event, World}

nobody :
    (Q : Insertion → Type 0) (es : List Event)
    → All (λ e. e.others ≡ []) es
    → All (λ e. All Q e.others) es
nobody Q [] all = tt
nobody Q (e ∷ es) all = (subst (λ is. All Q is) (sym all.0) tt, nobody Q es all.1)

module _ ⦃k : Checks⦄ ⦃u : Unicode⦄ ⦃d : Digests⦄ ⦃t : Times⦄ where
  -- No key stands twice, every reference leads to a row, and every request has its decision.
  abbrev pub IsComplete : Tables → Type 0
  IsComplete tables = IsTables tables × IsAnswered tables

  -- Whatever transactions that answer their own requests other processes commit before each of its
  -- calls, and whichever of its calls fail, `CommitEvaluation` leaves tables in which no key stands
  -- twice, every reference leads to a row, and no request is without its decision, if it has found
  -- such tables.
  pub commit_evaluation-IsTables :
      (ledger : Option SqliteLedger) (commit : EvaluationCommit) (w : World)
      → All (λ e. All AnswersItself e.others) w.schedule
      → IsComplete w.tables
      → IsComplete (commit_evaluation ledger commit w).1.tables
  unfolding action_request_row decision_row
  commit_evaluation-IsTables ledger commit w others good =
      (commit_evaluation-IsGood IsComplete AnswersItself ledger
        (λ i t own good. (insert_all-IsTables i t good.0, insert_all-IsAnswered i t own good.1))
        commit w (λ encoded e. record { runtime = refl; request = refl }) (good, others)).0

  -- The tables are as before, or as the whole transaction makes them.
  abbrev pub AllOrNothing : EvaluationCommit → Tables → Tables → Type 0
  AllOrNothing commit t t' =
      (t' ≡ t)
      ⊎ ((encoded : EncodedEvaluation) × (encode_evaluation commit ≡ ok encoded)
          × (t' ≡ insert_all (insertion commit encoded) t))

  again-AllOrNothing :
      (commit : EvaluationCommit) (before : Tables) (i : Insertion) (t : Tables)
      → (encoded : EncodedEvaluation) × (encode_evaluation commit ≡ ok encoded)
        × (i ≡ insertion commit encoded)
      → AllOrNothing commit before t
      → AllOrNothing commit before (insert_all i t)
  again-AllOrNothing commit before i t (encoded, e, own) (inl same) =
      inr (encoded, e, ap₂ insert_all own same)
  again-AllOrNothing commit before i t (encoded, e, own) (inr (encoded', e', made)) =
      let same : encoded' ≡ encoded = ground arith in
      inr (
        encoded,
        e,
        ap₂ insert_all own (made ∙ ap (λ x. insert_all (insertion commit x) before) same)
            ∙ insert_all_idem (insertion commit encoded) before,
      )

  -- With no other process, `CommitEvaluation` leaves the tables as they are, or makes all the
  -- inserts of its transaction, whichever of its calls fail and even where the error of a commit is
  -- reported that was written.
  pub commit_evaluation-AllOrNothing :
      (ledger : Option SqliteLedger) (commit : EvaluationCommit) (w : World)
      → All (λ e. e.others ≡ []) w.schedule
      → AllOrNothing commit w.tables (commit_evaluation ledger commit w).1.tables
  commit_evaluation-AllOrNothing ledger commit w no_others =
      (commit_evaluation-IsGood (AllOrNothing commit w.tables)
        (λ i.
          (encoded : EncodedEvaluation) × (encode_evaluation commit ≡ ok encoded)
          × (i ≡ insertion commit encoded))
        ledger (again-AllOrNothing commit w.tables) commit w (λ encoded e. (encoded, e, refl))
        (
          inl refl,
          nobody
              (λ i.
                (encoded : EncodedEvaluation) × (encode_evaluation commit ≡ ok encoded)
                × (i ≡ insertion commit encoded))
              w.schedule no_others,
        )).0
