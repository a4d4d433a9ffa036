-- ===== src/Domain/Decision/Laws.antt =====
-- The invariant of decisions, and what `NewDenyDecision` accepts and returns.
use agent_action_control.Prelude.{
  code, String, ◌≡◌, refl, sym, ap, Bool, true, false, not, ◌||◌, ◌&&◌, ◌==◌, eq_iff, eq_refl, List,
  [], ◌∷◌, ◌++◌, if◌then◌else◌, arith, inl, inr, ◌⊎◌, Bool-cases,
}
use agent_action_control.Containers.{contains, IsDistinct}
use agent_action_control.Errors.{
  ok, err, invalid_argument, invalid_reason_code, invalid_required_action_type, invariant_violation,
}
use agent_action_control.Domain.Decision.{
  ReasonCode, reason_delegator_approval_required, reason_code_valid, RequiredActionType,
  required_action_require_approval, required_action_type_valid, RequiredAction,
  new_require_approval_action, required_action_valid, decision_deny, Decision, new_allow_decision,
  collect_reasons, collect_actions, new_deny_decision,
}

-- The list without the strings in `seen` and without repetitions, each at its first place.
abbrev pub first_seen : List String → List String → List String
first_seen seen [] = []
first_seen seen (x ∷ xs) =
    let rest = first_seen (x ∷ seen) xs in
    let skip = first_seen seen xs in if contains x seen then skip else x ∷ rest

abbrev pub all_valid : List ReasonCode → Bool
all_valid [] = true
all_valid (code ∷ codes) = reason_code_valid code && all_valid codes

abbrev pub all_actions_valid : List RequiredAction → Bool
all_actions_valid [] = true
all_actions_valid (a ∷ actions) = required_action_valid a && all_actions_valid actions

abbrev pub is_empty {ℓ} : {A : Type ℓ} → List A → Bool
is_empty [] = true
is_empty (x ∷ xs) = false

abbrev pub agree : Bool → Bool → Bool
agree true b = b
agree false b = not b

contains-append_one :
    (x y : String) (xs : List String) → contains x (xs ++ y ∷ []) ≡ (contains x xs || y == x)
contains-append_one x y [] = ground arith
contains-append_one x y (z ∷ xs) = ground (arith, contains-append_one x y xs)

append_one_assoc :
    (xs : List String) (y : String) (zs : List String) → (xs ++ y ∷ []) ++ zs ≡ xs ++ y ∷ zs
append_one_assoc [] y zs = refl
append_one_assoc (x ∷ xs) y zs = ap (◌∷◌ x) (append_one_assoc xs y zs)

append_nil : (xs : List String) → xs ++ [] ≡ xs
append_nil [] = refl
append_nil (x ∷ xs) = ap (◌∷◌ x) (append_nil xs)

-- The loop keeps the first occurrences, and fails exactly at an unknown code.
collect_reasons-eq :
    (codes seen normalized : List ReasonCode)
    → collect_reasons codes seen normalized ≡ (
        if all_valid codes
        then ok (normalized ++ first_seen seen codes)
        else err (invalid_reason_code ∷ []))
unfolding collect_reasons
collect_reasons-eq [] seen normalized = ap ok (sym (append_nil normalized))
collect_reasons-eq (c ∷ cs) seen normalized = ground (
  arith,
  collect_reasons-eq cs (c ∷ seen) (normalized ++ c ∷ []),
  collect_reasons-eq cs seen normalized,
  append_one_assoc normalized c (first_seen (c ∷ seen) cs),
)

-- Once the one valid type has been seen, nothing more is kept.
collect_actions_seen :
    (actions : List RequiredAction) (seen : List RequiredActionType)
    (normalized : List RequiredAction)
    → contains required_action_require_approval seen ≡ true
    → collect_actions actions seen normalized ≡ (
        if all_actions_valid actions
        then ok normalized
        else err (invalid_required_action_type ∷ []))
unfolding collect_actions required_action_valid required_action_type_valid
collect_actions_seen [] seen normalized h = refl
collect_actions_seen (a ∷ actions) seen normalized h = ground (
  arith,
  collect_actions_seen actions seen normalized h,
  eq_iff a.typ required_action_require_approval,
)

collect_actions-eq :
    (actions : List RequiredAction)
    → collect_actions actions [] [] ≡ (
        if all_actions_valid actions
        then ok (if is_empty actions then [] else new_require_approval_action ∷ [])
        else err (invalid_required_action_type ∷ []))
unfolding collect_actions required_action_valid required_action_type_valid
collect_actions-eq [] = refl
collect_actions-eq (a ∷ actions) = ground (
  arith,
  collect_actions_seen actions (a.typ ∷ []) (a ∷ []),
  eq_iff a.typ required_action_require_approval,
  eq_refl a.typ,
)

pub contains-first_seen :
    (x : String) (seen xs : List String)
    → contains x (first_seen seen xs) ≡ (contains x xs && not (contains x seen))
contains-first_seen x seen [] = refl
contains-first_seen x seen (y ∷ ys) =
    ground (arith, contains-first_seen x seen ys, contains-first_seen x (y ∷ seen) ys, eq_iff y x)

pub first_seen-IsDistinct : (seen xs : List String) → IsDistinct (first_seen seen xs)
first_seen-IsDistinct seen [] = tt
first_seen-IsDistinct seen (x ∷ xs) = elim (Bool-cases (contains x seen)) [
  | inl e ↦ rw e (first_seen-IsDistinct seen xs)
  | inr e ↦ rw e (
    ground (arith, contains-first_seen x (x ∷ seen) xs, eq_refl x),
    first_seen-IsDistinct (x ∷ seen) xs,
  )
]

first_seen_of_IsDistinct :
    (seen xs : List String)
    → IsDistinct xs
    → ((x : String) → contains x xs ≡ true → contains x seen ≡ false)
    → first_seen seen xs ≡ xs
first_seen_of_IsDistinct seen [] h k = refl
first_seen_of_IsDistinct seen (x ∷ xs) h k =
    let fresh : contains x seen ≡ false = k x (ground (arith, eq_refl x)) in
    let there = h.0 in
    let rest =
      first_seen_of_IsDistinct (x ∷ seen) xs h.1
        λ y e. ground (arith, k y, eq_iff x y, eq_iff y x, eq_refl y) in
    rw (fresh, rest) refl

-- `NewDenyDecision` by its four kinds of error and its result: reasons are required, every reason
-- and required action must be known, and the approval reason and a required action go together.
pub new_deny_decision-eq :
    (codes : List ReasonCode) (actions : List RequiredAction)
    → new_deny_decision codes actions ≡ (
        if is_empty codes
        then err (invalid_argument ∷ [])
        else if not (all_valid codes)
        then err (invalid_reason_code ∷ [])
        else if not (all_actions_valid actions)
        then err (invalid_required_action_type ∷ [])
        else if agree (contains reason_delegator_approval_required codes) (not (is_empty actions))
        then ok (record {
          typ = decision_deny;
          reason_codes = first_seen [] codes;
          required_actions = if is_empty actions then [] else new_require_approval_action ∷ [];
        })
        else err (invariant_violation ∷ []))
unfolding new_deny_decision
new_deny_decision-eq [] actions = refl
new_deny_decision-eq (c ∷ cs) actions =
    rw (collect_reasons-eq (c ∷ cs) [] [], collect_actions-eq actions)
      (ground (arith, contains-first_seen reason_delegator_approval_required [] (c ∷ cs)))

-- A deny decision gives known reasons, each once, and asks for approval exactly if that is one of
-- the reasons.
pub record IsDeny (d : Decision) : Type 0 where
  pub denied : d.typ ≡ decision_deny
  pub reasoned : is_empty d.reason_codes ≡ false
  pub known : all_valid d.reason_codes ≡ true
  pub distinct : IsDistinct d.reason_codes
  pub approval : d.required_actions ≡ (
      if contains reason_delegator_approval_required d.reason_codes
      then new_require_approval_action ∷ []
      else [])

-- An allow decision has neither reasons nor required actions.
abbrev pub IsDecision : Decision → Type 0
IsDecision d = (d ≡ new_allow_decision) ⊎ IsDeny d

all_valid-first_seen :
    (seen codes : List String) → all_valid codes ≡ true → all_valid (first_seen seen codes) ≡ true
all_valid-first_seen seen [] h = refl
all_valid-first_seen seen (c ∷ cs) h =
    ground (arith, all_valid-first_seen seen cs, all_valid-first_seen (c ∷ seen) cs)

is_empty-first_seen : (codes : List String) → is_empty (first_seen [] codes) ≡ is_empty codes
is_empty-first_seen [] = refl
is_empty-first_seen (c ∷ cs) = refl

-- The parts of an accepted deny decision.
pub new_deny_decision-parts :
    (codes : List ReasonCode) (actions : List RequiredAction) (d : Decision)
    → new_deny_decision codes actions ≡ ok d
    → (d.typ ≡ decision_deny)
      × (d.reason_codes ≡ first_seen [] codes)
      × (is_empty codes ≡ false)
      × (all_valid codes ≡ true)
      × (is_empty actions ≡ not (contains reason_delegator_approval_required codes))
      × (d.required_actions ≡ (if is_empty actions then [] else new_require_approval_action ∷ []))
new_deny_decision-parts codes actions d h = ground (arith, new_deny_decision-eq codes actions)

-- Every decision that `NewDenyDecision` returns satisfies the invariant.
pub new_deny_decision-IsDeny :
    (codes : List ReasonCode) (actions : List RequiredAction) (d : Decision)
    → new_deny_decision codes actions ≡ ok d
    → IsDeny d
new_deny_decision-IsDeny codes actions d h =
    let (typ, reasons, some_code, known, asks, required) =
      new_deny_decision-parts codes actions d h in
    record {
      denied = typ;
      reasoned = ground (arith, is_empty-first_seen codes);
      known = ground (arith, all_valid-first_seen [] codes);
      distinct = rw reasons (first_seen-IsDistinct [] codes);
      approval = ground (arith, contains-first_seen reason_delegator_approval_required [] codes);
    }

new_deny_decision_same :
    (codes : List ReasonCode)
    → is_empty codes ≡ false
    → all_valid codes ≡ true
    → IsDistinct codes
    → (asks : Bool) → contains reason_delegator_approval_required codes ≡ asks
    → new_deny_decision codes (if asks then new_require_approval_action ∷ [] else [])
      ≡ ok (record {
        typ = decision_deny;
        reason_codes = codes;
        required_actions = if asks then new_require_approval_action ∷ [] else [];
      })
unfolding required_action_valid required_action_type_valid
new_deny_decision_same codes h k distinct true e =
    rw
      (
        new_deny_decision-eq codes (new_require_approval_action ∷ []),
        h,
        k,
        e,
        first_seen_of_IsDistinct [] codes distinct (λ x e. refl),
      )
      refl
new_deny_decision_same codes h k distinct false e =
    rw
      (
        new_deny_decision-eq codes [],
        h,
        k,
        e,
        first_seen_of_IsDistinct [] codes distinct (λ x e. refl),
      )
      refl

-- What `NewDenyDecision` returns it returns again for its own parts.
pub new_deny_decision_of_IsDeny :
    (d : Decision) → IsDeny d → new_deny_decision d.reason_codes d.required_actions ≡ ok d
new_deny_decision_of_IsDeny d h =
    let denied = h.denied in
    let approval = h.approval in
    ground (
      arith,
      new_deny_decision_same d.reason_codes h.reasoned h.known h.distinct
          (contains reason_delegator_approval_required d.reason_codes) refl,
    )
