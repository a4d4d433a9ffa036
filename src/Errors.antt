-- ===== src/Errors.antt =====
-- Go's errors as values: internal/domain/errors.go, internal/application/errors.go, the sentinel
-- errors that other packages declare, and wrapping by `fmt.Errorf`. An error is the list of the
-- sentinel errors on its chain, outermost first: `%w` puts a sentinel on the chain, `%v` and plain
-- text put nothing there. Messages are not modelled. A run-time panic is `panicked` alone, which no
-- code puts on a chain.
use agent_action_control.Prelude.{
  String, All, ℕ, ◌≡◌, refl, Bool, true, false, ◌||◌, List, [], ◌∷◌, ◌++◌, eqb, arith, ◌⊎◌, inl,
  inr,
}

pub data Sentinel : Type 0 where
  invalid_action_type invalid_decision_type invalid_required_action_type : Sentinel
  invalid_policy_effect_type invalid_reason_code invalid_principal_type : Sentinel
  invalid_digest invalid_argument invariant_violation : Sentinel
  invalid_input request_id_conflict policy_unavailable ledger_failure : Sentinel
  evaluation_not_found id_generation clock_failure runtime_identity_conflict : Sentinel
  credential_missing credential_invalid no_rows panicked : Sentinel

-- Sentinel errors are distinct pointers; a number stands for each.
unfoldable pub identity : Sentinel → ℕ
identity invalid_action_type = 0
identity invalid_decision_type = 1
identity invalid_required_action_type = 2
identity invalid_policy_effect_type = 3
identity invalid_reason_code = 4
identity invalid_principal_type = 5
identity invalid_digest = 6
identity invalid_argument = 7
identity invariant_violation = 8
identity invalid_input = 9
identity request_id_conflict = 10
identity policy_unavailable = 11
identity ledger_failure = 12
identity evaluation_not_found = 13
identity id_generation = 14
identity clock_failure = 15
identity runtime_identity_conflict = 16
identity credential_missing = 17
identity credential_invalid = 18
identity no_rows = 19
identity panicked = 20

abbrev pub Error : Type 0
Error = List Sentinel

unfoldable pub same : Sentinel → Sentinel → Bool
unfolding identity
same s t = eqb (identity s) (identity t)

-- `errors.Is(err, target)`
unfoldable pub is : Error → Sentinel → Bool
is [] target = false
is (s ∷ chain) target = same s target || is chain target

pub is-append : (e f : Error) (s : Sentinel) → is (e ++ f) s ≡ (is e s || is f s)
unfolding is
is-append [] f s = refl
is-append (x ∷ e) f s = ground (arith, is-append e f s)

pub data Result {ℓ} (A : Type ℓ) : Type ℓ where
  err : Error → Result A
  ok : A → Result A

-- The rest of a function, which an error skips.
infixl 5 ◌>>=◌
abbrev pub ◌>>=◌ {ℓ κ} :
    {A : Type ℓ} {B : Type κ} (first : Result A) (rest : A → Result B) → Result B
err cause >>= rest = err cause
ok value >>= rest = rest value

-- The same after a check, which has no value.
infixl 5 ◌>>◌
abbrev pub ◌>>◌ {ℓ} : {B : Type ℓ} (check : Result (Unit {0})) (rest : Result B) → Result B
err cause >> rest = err cause
ok done >> rest = rest

-- `if bad { return …, err }` in the middle of a function
abbrev pub refuse_if : Bool → Error → Result (Unit {0})
refuse_if true e = err e
refuse_if false e = ok tt

-- `errors.New(…)` of the standard library and of other packages carries no sentinel of this program.
abbrev pub plain : Error
plain = []

-- `fmt.Errorf("%w: …: %v", s, err)` keeps `s` alone of the chain.
abbrev pub hide {ℓ} : {A : Type ℓ} → Sentinel → Result A → Result A
hide s (ok a) = ok a
hide s (err e) = err (s ∷ [])

-- `fmt.Errorf("%w: …: %w", s, err)` puts `s` in front of the chain.
abbrev pub wrap {ℓ} : {A : Type ℓ} → Sentinel → Result A → Result A
wrap s (ok a) = ok a
wrap s (err e) = err (s ∷ e)

-- `_, err := f(); return err`
abbrev pub discard {ℓ} : {A : Type ℓ} → Result A → Result (Unit {0})
discard (ok a) = ok tt
discard (err e) = err e

abbrev pub succeeds {ℓ} : {A : Type ℓ} → Result A → Bool
succeeds (ok a) = true
succeeds (err e) = false

-- `for … { x, err := f(item); if err != nil { return err }; result = append(result, x) }`
unfoldable pub traverse {ℓ κ} :
    {A : Type ℓ} {B : Type κ} → (A → Result B) → List A → Result (List B)
traverse f [] = ok []
traverse f (x ∷ xs) = do y ← f x; ys ← traverse f xs; ok (y ∷ ys)

-- The text of a result, to state lemmas about it.
abbrev pub text_of : Result String → String
text_of (ok s) = s
text_of (err e) = ""

-- To split on a computed result and keep the equation.
pub Result-cases {ℓ} :
    {A : Type ℓ} (outcome : Result A)
    → ((value : A) × (outcome ≡ ok value)) ⊎ ((cause : Error) × (outcome ≡ err cause))
Result-cases (err cause) = inr (cause, refl)
Result-cases (ok value) = inl (value, refl)

-- What each call guarantees of its result holds of all results.
pub traverse-All {ℓ κ μ} :
    {A : Type ℓ} {B : Type κ} (f : A → Result B) (P : B → Type μ)
    → ((x : A) (y : B) → f x ≡ ok y → P y)
    → (xs : List A) (ys : List B) → traverse f xs ≡ ok ys
    → All P ys
unfolding traverse
traverse-All f P each [] [] h = tt
traverse-All f P each [] (y ∷ ys) h = cc
traverse-All f P each (x ∷ xs) ys h = elim (Result-cases (f x)) [
  | inr (e, run) ↦ absurd (ground arith)
  | inl (z, run) ↦ elim (Result-cases (traverse f xs)) [
    | inr (e, run') ↦ absurd (ground arith)
    | inl (zs, run') ↦
        let q : z ∷ zs ≡ ys = ground arith in
        rw (← q) (each x z run, traverse-All f P each xs zs run')
  ]
]
