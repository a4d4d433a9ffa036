-- ===== src/Tests/Actions.antt =====
-- Normal actions, digests, decisions and labels.
use agent_action_control.Domain.ProposedAction.{rebuild}
use agent_action_control.Domain.Decision.Laws.{
  new_deny_decision-IsDeny, new_deny_decision-eq, IsDeny,
}
use agent_action_control.Strings.{keep, less, trim_space, trim_right, trim_left, is_space}
use agent_action_control.Errors.{
  identity, same, runtime_identity_conflict, ok, is, invariant_violation, invalid_input, err,
}
use agent_action_control.Domain.Normalize.{normalize_strings, collect_strings}
use agent_action_control.Domain.Decision.{
  new_deny_decision, required_action_type_valid, required_action_valid, reason_external_destination,
  reason_delegator_approval_required, reason_code_valid, new_require_approval_action, decision_deny,
  collect_reasons, collect_actions,
}
use agent_action_control.Domain.Canonical.Laws.{
  compute_action_digest-valid, canonical_action-injective,
}
use agent_action_control.Prelude.{
  List, ◌≢◌, ◌≡◌, ◌∷◌, ℤ, ℕ, zero, true, sym, suc, refl, pos, negsuc, map, arith, ap, [], String,
}
use agent_action_control.Containers.{sort_strings, put, keys, SameMembers}
use agent_action_control.Application.Normalizer.{normalize, normalize_action, ProposedActionInput}
use agent_action_control.Domain.Normalize.Strings.{
  normalize_strings-IsLabels, normalize_strings_canonical, IsLabels,
}
use agent_action_control.Domain.ProposedAction.Laws.{rebuild_of_IsAction, IsAction}
use agent_action_control.Domain.Canonical.{compute_action_digest, Digests}
use agent_action_control.Application.Normalizer.Guarantees.{
  normalize-error, normalize-claimed, normalize-IsAction, Describes,
}
use agent_action_control.Domain.Action.{action_digest_valid, ActionDigest}
use Prim.Native.Char.{nul}
use agent_action_control.Tests.Fixtures.{
  caller, send_input, send_action, normalize_run, delete_run, delete_input_two, delete_action,
  caller-IsIdentifier, ascii, digests,
}

pub send-IsAction : IsAction send_action
send-IsAction =
    (normalize-IsAction caller send_input send_action caller-IsIdentifier normalize_run).0

pub delete-IsAction : IsAction delete_action
delete-IsAction =
    (normalize-IsAction caller delete_input_two delete_action caller-IsIdentifier delete_run).0

normalize-IsAction_example :
    IsAction delete_action × Describes caller delete_input_two delete_action
normalize-IsAction_example =
    normalize-IsAction caller delete_input_two delete_action caller-IsIdentifier delete_run

-- The same input, in the name of another runtime.
abbrev claimed_by : String → ProposedActionInput
claimed_by id = record send_input { actor = record send_input.actor { runtime_id = id } }

conflict_run :
    normalize caller (claimed_by " rt-2") ≡ err (invalid_input ∷ runtime_identity_conflict ∷ [])
unfolding normalize normalize_action trim_space trim_left trim_right keep is_space is same identity
conflict_run = refl

normalize-error_example : is (invalid_input ∷ runtime_identity_conflict ∷ []) invalid_input ≡ true
normalize-error_example =
    normalize-error caller (claimed_by " rt-2") (invalid_input ∷ runtime_identity_conflict ∷ [])
      conflict_run

claim_same : trim_space " rt-1 " ≡ caller.runtime_id
unfolding trim_space trim_left trim_right keep is_space
claim_same = refl

normalize-claimed_example :
    normalize caller (claimed_by " rt-1 ") ≡ normalize caller (claimed_by "")
normalize-claimed_example = normalize-claimed caller (claimed_by " rt-1 ") claim_same

rebuild_of_IsAction_example : rebuild delete_action ≡ ok delete_action
rebuild_of_IsAction_example = rebuild_of_IsAction delete_action delete-IsAction

compute_action_digest-valid_example :
    (digest : ActionDigest) × (compute_action_digest delete_action ≡ ok digest)
    × (action_digest_valid digest ≡ true)
compute_action_digest-valid_example = compute_action_digest-valid delete_action delete-IsAction

-- Instants that are told apart by their own text.
abbrev repeat : ℕ → String
repeat zero = ""
repeat (suc n) = String.◌∷◌ "a" (repeat n)

abbrev unary : ℤ → String
unary (pos n) = repeat n
unary (negsuc n) = String.◌∷◌ nul (repeat n)

repeat-injective : (m n : ℕ) → repeat m ≡ repeat n → m ≡ n
repeat-injective zero zero h = refl
repeat-injective zero (suc n) h = cc
repeat-injective (suc m) zero h = cc
repeat-injective (suc m) (suc n) h =
    let q : repeat m ≡ repeat n = cc in ap suc (repeat-injective m n q)

repeat-no_nul : (m : ℕ) (s : String) → repeat m ≢ String.◌∷◌ nul s
repeat-no_nul zero s = λ h. cc
repeat-no_nul (suc m) s = λ h. cc

unary-injective : (s t : ℤ) → unary s ≡ unary t → s ≡ t
unary-injective (pos m) (pos n) h = ap pos (repeat-injective m n h)
unary-injective (pos m) (negsuc n) h = absurd (repeat-no_nul m (repeat n) h)
unary-injective (negsuc m) (pos n) h = absurd (repeat-no_nul n (repeat m) (sym h))
unary-injective (negsuc m) (negsuc n) h =
    let q : repeat m ≡ repeat n = cc in ap negsuc (repeat-injective m n q)

abbrev telling : Digests
telling = record digests { format_instant = unary }

canonical_action-injective_example : send_action ≡ send_action
canonical_action-injective_example =
    canonical_action-injective ⦃d = telling⦄ send_action send_action send-IsAction send-IsAction
      unary-injective refl

two_reasons :
    new_deny_decision
      (reason_external_destination ∷ reason_delegator_approval_required
        ∷ reason_external_destination ∷ [])
      (new_require_approval_action ∷ [])
    ≡ ok (record {
      typ = decision_deny;
      reason_codes = reason_external_destination ∷ reason_delegator_approval_required ∷ [];
      required_actions = new_require_approval_action ∷ [];
    })
unfolding new_deny_decision collect_reasons collect_actions reason_code_valid required_action_valid
    required_action_type_valid
two_reasons = refl

new_deny_decision-IsDeny_example : IsDeny (record {
  typ = decision_deny;
  reason_codes = reason_external_destination ∷ reason_delegator_approval_required ∷ [];
  required_actions = new_require_approval_action ∷ [];
})
new_deny_decision-IsDeny_example =
    new_deny_decision-IsDeny
      (reason_external_destination ∷ reason_delegator_approval_required
        ∷ reason_external_destination ∷ [])
      (new_require_approval_action ∷ [])
      (record {
        typ = decision_deny;
        reason_codes = reason_external_destination ∷ reason_delegator_approval_required ∷ [];
        required_actions = new_require_approval_action ∷ [];
      })
      two_reasons

new_deny_decision-eq_example :
    new_deny_decision (reason_external_destination ∷ []) (new_require_approval_action ∷ [])
    ≡ err (invariant_violation ∷ [])
unfolding reason_code_valid required_action_valid required_action_type_valid
new_deny_decision-eq_example =
    new_deny_decision-eq (reason_external_destination ∷ []) (new_require_approval_action ∷ [])

labels_run : normalize_strings (" b" ∷ "a" ∷ "b " ∷ []) 100 320 ≡ ok ("a" ∷ "b" ∷ [])
unfolding normalize_strings collect_strings put keys sort_strings less trim_space trim_left
    trim_right keep is_space
labels_run = refl

labels_run' : normalize_strings ("b" ∷ "a" ∷ []) 3 2 ≡ ok ("a" ∷ "b" ∷ [])
unfolding normalize_strings collect_strings put keys sort_strings less trim_space trim_left
    trim_right keep is_space
labels_run' = refl

normalize_strings-IsLabels_example :
    IsLabels 100 320 ("a" ∷ "b" ∷ [])
    × SameMembers ("a" ∷ "b" ∷ []) (map trim_space (" b" ∷ "a" ∷ "b " ∷ []))
normalize_strings-IsLabels_example =
    normalize_strings-IsLabels (" b" ∷ "a" ∷ "b " ∷ []) 100 320 ("a" ∷ "b" ∷ []) labels_run

same_labels :
    SameMembers (map trim_space (" b" ∷ "a" ∷ "b " ∷ [])) (map trim_space ("b" ∷ "a" ∷ []))
unfolding trim_space trim_left trim_right keep is_space
same_labels = λ k. ground arith

abbrev a_and_b : List String
a_and_b = "a" ∷ "b" ∷ []

normalize_strings_canonical_example : a_and_b ≡ a_and_b
normalize_strings_canonical_example =
    normalize_strings_canonical 100 320 3 2 (" b" ∷ "a" ∷ "b " ∷ []) ("b" ∷ "a" ∷ [])
      ("a" ∷ "b" ∷ []) ("a" ∷ "b" ∷ []) same_labels labels_run labels_run'
