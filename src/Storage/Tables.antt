-- ===== src/Storage/Tables.antt =====
-- The tables of internal/storage/sqlite/migrations/0001_minimal_ledger.sql, with the keys, the
-- uniqueness and the references that it declares. What its CHECK clauses admit is a parameter.
pub mod Invariant
pub mod Transactions
pub mod Answered
use agent_action_control.Prelude.{
  any, ◌∷◌, ℕ, ◌||◌, true, some, not, none, false, if◌then◌else◌, [], String, Option, List, Bool,
  ◌==◌, ◌&&◌,
}
use agent_action_control.Errors.{is, ◌>>=◌, ok, err, Result}

pub record ActionRequestRow : Type 0 where
  pub runtime_id : String
  pub request_id : String
  pub action_digest : String
  pub action_type : String
  pub action_schema_version : ℕ
  pub normalized_action_json : String
  pub created_at : String

pub record DecisionRow : Type 0 where
  pub decision_id : String
  pub runtime_id : String
  pub request_id : String
  pub decision_type : String
  pub reason_codes_json : String
  pub required_action_types_json : String
  pub policy_version : String
  pub matched_rule_ids_json : String
  pub evaluated_at : String

-- The columns that the ledger writes; the others are NULL.
pub record PolicyEffectRow : Type 0 where
  pub effect_id : String
  pub decision_id : String
  pub effect_type : String
  pub effect_context_json : String
  pub idempotency_key : String
  pub dispatch_status : String
  pub attempt_count : ℕ
  pub created_at : String
  pub updated_at : String

pub record Tables : Type 0 where
  pub action_requests : List ActionRequestRow
  pub decisions : List DecisionRow
  pub policy_effects : List PolicyEffectRow

-- The CHECK clauses, which SQLite evaluates.
pub record Checks : Type 0 where
  pub admits_request : ActionRequestRow → Bool
  pub admits_decision : DecisionRow → Bool
  pub admits_effect : PolicyEffectRow → Bool

abbrev pub find : {A : Type 0} → (A → Bool) → List A → Option A
find p [] = none
find p (x ∷ xs) = if p x then some x else find p xs

-- `WHERE runtime_id = ? AND request_id = ?`
abbrev pub is_request_of : (runtime_id request_id : String) → ActionRequestRow → Bool
is_request_of runtime_id request_id row =
    row.runtime_id == runtime_id && row.request_id == request_id

abbrev pub is_decision_of : (runtime_id request_id : String) → DecisionRow → Bool
is_decision_of runtime_id request_id row =
    row.runtime_id == runtime_id && row.request_id == request_id

unfoldable pub find_request : (runtime_id request_id : String) → Tables → Option ActionRequestRow
find_request runtime_id request_id t = find (is_request_of runtime_id request_id) t.action_requests

unfoldable pub find_decision : (runtime_id request_id : String) → Tables → Option DecisionRow
find_decision runtime_id request_id t = find (is_decision_of runtime_id request_id) t.decisions

unfoldable pub has_request : (runtime_id request_id : String) → Tables → Bool
has_request runtime_id request_id t = any (is_request_of runtime_id request_id) t.action_requests

unfoldable pub has_decision : (runtime_id request_id : String) → Tables → Bool
has_decision runtime_id request_id t = any (is_decision_of runtime_id request_id) t.decisions

unfoldable pub has_decision_id : String → Tables → Bool
has_decision_id decision_id t = any (λ row. row.decision_id == decision_id) t.decisions

unfoldable pub has_effect : (effect_id key : String) → Tables → Bool
has_effect effect_id key t =
    any (λ row. row.effect_id == effect_id || row.idempotency_key == key) t.policy_effects

-- The join of the two tables at a key; `none` is `sql.ErrNoRows`.
abbrev pub both : {A B : Type 0} → Option A → Option B → Option (A × B)
both (some a) (some b) = some (a, b)
both _ _ = none

unfoldable pub select_evaluation :
    (runtime_id request_id : String) → Tables → Option (ActionRequestRow × DecisionRow)
select_evaluation runtime_id request_id t =
    both (find_request runtime_id request_id t) (find_decision runtime_id request_id t)

-- What one commit writes.
pub record Insertion : Type 0 where
  pub request : ActionRequestRow
  pub decision : DecisionRow
  pub effects : List PolicyEffectRow

abbrev pub value_or : {A : Type 0} → A → Result A → A
value_or a (err e) = a
value_or a (ok b) = b

module _ ⦃k : Checks⦄ where
  -- `INSERT … ON CONFLICT (runtime_id, request_id) DO NOTHING`, with whether a row was inserted.
  unfoldable pub insert_request : ActionRequestRow → Tables → Result (Bool × Tables)
  insert_request row t =
      if not (k.admits_request row)
      then err []
      else if has_request row.runtime_id row.request_id t
      then ok (false, t)
      else ok (true, record t { action_requests = row ∷ t.action_requests })

  unfoldable pub insert_decision : DecisionRow → Tables → Result Tables
  insert_decision row t =
      if not (k.admits_decision row)
        || has_decision_id row.decision_id t
        || has_decision row.runtime_id row.request_id t
        || not (has_request row.runtime_id row.request_id t)
      then err []
      else ok (record t { decisions = row ∷ t.decisions })

  unfoldable pub insert_effect : PolicyEffectRow → Tables → Result Tables
  insert_effect row t =
      if not (k.admits_effect row)
        || has_effect row.effect_id row.idempotency_key t
        || not (has_decision_id row.decision_id t)
      then err []
      else ok (record t { policy_effects = row ∷ t.policy_effects })

  unfoldable pub insert_effects : List PolicyEffectRow → Tables → Result Tables
  insert_effects [] t = ok t
  insert_effects (row ∷ rows) t = insert_effect row t >>= λ t. insert_effects rows t

  -- The rest of a transaction that has begun with these tables, behind its first insert.
  unfoldable pub insert_rest : Insertion → Tables → Result (Bool × Tables) → Tables
  insert_rest i t (err e) = t
  insert_rest i t (ok (false, t')) = t
  insert_rest i t (ok (true, t')) =
      value_or t (insert_decision i.decision t' >>= insert_effects i.effects)

  -- A transaction of another process, which has its effect as a whole or not at all.
  unfoldable pub insert_all : Insertion → Tables → Tables
  unfolding insert_rest
  insert_all i t = insert_rest i t (insert_request i.request t)

  unfoldable pub insert_each : List Insertion → Tables → Tables
  unfolding insert_all
  insert_each [] t = t
  insert_each (i ∷ is) t = insert_each is (insert_all i t)
