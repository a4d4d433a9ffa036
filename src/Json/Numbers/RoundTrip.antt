-- ===== src/Json/Numbers/RoundTrip.antt =====
-- Numbers that have been printed.
use agent_action_control.Json.Chars.{to_char, code-to_char}
use agent_action_control.Json.Numbers.{
  read_int, start, minus, integer, decimal, zero_digit, parse_int, parse_digits, number_text,
  number_step, number_run, is_number, is_int64, is_digit, all_number_chars, NumberState,
}
use agent_action_control.Prelude.{
  ◌≤◌, ◌≡◌, ◌∙◌, ℤ, ℕ, zero, true, suc, some, refl, pos, negsuc, ltb, inr, inl, false, eqb,
  if◌then◌else◌, code, arith, String, Char, Bool-cases, Bool, ◌<◌, ◌+◌, ◌*◌,
}
use Prim.Native.Nat.{◌/◌, ◌%◌}
use Prim.Native.String.{[], ◌∷◌}

digit_code : (n : ℕ) → n < 10 → code (to_char (b'0' + n)) ≡ b'0' + n
digit_code n h = code-to_char (b'0' + n) (ground arith)

-- The two rounds of `decimal`.
decimal_last :
    (fuel n : ℕ) (rest : String)
    → ltb n 10 ≡ true
    → decimal (suc fuel) n rest ≡ to_char (b'0' + n) ∷ rest
unfolding decimal
decimal_last fuel n rest h = ground arith

decimal_more :
    (fuel n : ℕ) (rest : String)
    → ltb n 10 ≡ false
    → decimal (suc fuel) n rest ≡ decimal fuel (n / 10) (to_char (b'0' + n % 10) ∷ rest)
unfolding decimal
decimal_more fuel n rest h = ground arith

parse_digits-digit :
    (v n : ℕ) (rest : String)
    → n < 10
    → parse_digits v (to_char (b'0' + n) ∷ rest) ≡ parse_digits (v * 10 + n) rest
unfolding parse_digits
parse_digits-digit v n rest h = ground (arith, digit_code n h)

read_first :
    (n : ℕ) (rest : String)
    → n < 10
    → parse_digits 0 (to_char (b'0' + n) ∷ rest) ≡ parse_digits n rest
read_first n rest h =
    let e : 0 * 10 + n ≡ n = omega arith in parse_digits-digit 0 n rest h ∙ rw e refl

parse_digits-decimal :
    (fuel n : ℕ) (rest : String)
    → n ≤ fuel
    → parse_digits 0 (decimal fuel n rest) ≡ parse_digits n rest
unfolding decimal
parse_digits-decimal zero n rest h = read_first n rest (omega arith)
parse_digits-decimal (suc fuel) n rest h = elim (Bool-cases (ltb n 10)) [
  | inl k ↦ rw (decimal_last fuel n rest k) (read_first n rest (ground arith))
  | inr k ↦
      rw
        (
          decimal_more fuel n rest k,
          parse_digits-decimal fuel (n / 10) (to_char (b'0' + n % 10) ∷ rest) (ground arith),
        )
        (let e : n / 10 * 10 + n % 10 ≡ n = omega arith in
          parse_digits-digit (n / 10) (n % 10) rest (omega arith) ∙ rw e refl)
]

-- The state behind the digits of `n`.
abbrev behind : ℕ → NumberState
behind n = if eqb n 0 then zero_digit else integer

abbrev opens : NumberState → Bool
opens start = true
opens minus = true
opens _ = false

number_run-digit :
    (state : NumberState) (n : ℕ) (rest : String)
    → opens state ≡ true
    → n < 10
    → number_run state (to_char (b'0' + n) ∷ rest) ≡ number_run (behind n) rest
unfolding number_run number_step
number_run-digit start n rest h k = ground (arith, digit_code n k)
number_run-digit minus n rest h k = ground (arith, digit_code n k)
number_run-digit _ n rest h k = absurd (ground arith)

-- A further digit behind a number that is not zero.
number_run-integer :
    (m d n : ℕ) (rest : String)
    → eqb m 0 ≡ false
    → d < 10
    → eqb n 0 ≡ false
    → number_run (behind m) (to_char (b'0' + d) ∷ rest) ≡ number_run (behind n) rest
unfolding number_run number_step
number_run-integer m d n rest h k l = ground (arith, digit_code d k)

number_run-decimal :
    (state : NumberState) (fuel n : ℕ) (rest : String)
    → opens state ≡ true
    → n ≤ fuel
    → number_run state (decimal fuel n rest) ≡ number_run (behind n) rest
unfolding decimal
number_run-decimal state zero n rest h k = number_run-digit state n rest h (omega arith)
number_run-decimal state (suc fuel) n rest h k = elim (Bool-cases (ltb n 10)) [
  | inl e ↦ rw (decimal_last fuel n rest e) (number_run-digit state n rest h (ground arith))
  | inr e ↦
      rw
        (
          decimal_more fuel n rest e,
          number_run-decimal state fuel (n / 10) (to_char (b'0' + n % 10) ∷ rest) h (ground arith),
        )
        (number_run-integer (n / 10) (n % 10) n rest (ground arith) (omega arith) (ground arith))
]

all_number_chars-decimal :
    (fuel n : ℕ) (rest : String)
    → n ≤ fuel
    → all_number_chars (decimal fuel n rest) ≡ all_number_chars rest
unfolding decimal
all_number_chars-decimal zero n rest k = ground (arith, digit_code n)
all_number_chars-decimal (suc fuel) n rest k = elim (Bool-cases (ltb n 10)) [
  | inl e ↦ rw (decimal_last fuel n rest e) (ground (arith, digit_code n))
  | inr e ↦ rw (decimal_more fuel n rest e) (
      ground (
        arith,
        all_number_chars-decimal fuel (n / 10) (to_char (b'0' + n % 10) ∷ rest),
        digit_code (n % 10),
      ))
]

decimal-cons :
    (fuel n : ℕ) (rest : String)
    → n ≤ fuel
    → (d : Char) × (ds : String) × (decimal fuel n rest ≡ d ∷ ds) × (is_digit (code d) ≡ true)
unfolding decimal
decimal-cons zero n rest k = (to_char (b'0' + n), rest, refl, ground (arith, digit_code n))
decimal-cons (suc fuel) n rest k = elim (Bool-cases (ltb n 10)) [
  | inl e ↦
      rw (decimal_last fuel n rest e) (to_char (b'0' + n), rest, refl, ground (arith, digit_code n))
  | inr e ↦
      rw (decimal_more fuel n rest e)
        (decimal-cons fuel (n / 10) (to_char (b'0' + n % 10) ∷ rest) (ground arith))
]

-- The text of an integer is a number of the grammar.
pub is_number-number_text : (z : ℤ) → is_number (number_text z) ≡ true
unfolding is_number number_text number_run number_step
is_number-number_text (pos n) = ground (
  arith,
  all_number_chars-decimal n n [] (omega arith),
  number_run-decimal start n n [] refl (omega arith),
)
is_number-number_text (negsuc n) = ground (
  arith,
  all_number_chars-decimal (suc n) (suc n) [] (omega arith),
  number_run-decimal minus (suc n) (suc n) [] refl (omega arith),
)

-- The text of an integer is read back.
pub read_int-number_text : (z : ℤ) → read_int (number_text z) ≡ some z
unfolding number_text read_int
read_int-number_text (pos n) =
    let (d, ds, e, digit) = decimal-cons n n [] (omega arith) in
    let run : parse_digits 0 (d ∷ ds) ≡ some n =
      rw (← e, parse_digits-decimal n n [] (omega arith)) (unfold parse_digits in refl) in
    rw e (ground arith)
read_int-number_text (negsuc n) =
    let (d, ds, e, digit) = decimal-cons (suc n) (suc n) [] (omega arith) in
    let run : parse_digits 0 (d ∷ ds) ≡ some (suc n) =
      rw (← e, parse_digits-decimal (suc n) (suc n) [] (omega arith))
        (unfold parse_digits in refl) in
    rw e (ground arith)

-- The text of an `int64` is read back.
pub parse_int-number_text : (z : ℤ) → is_int64 z ≡ true → parse_int (number_text z) ≡ some z
unfolding parse_int
parse_int-number_text z h = rw (read_int-number_text z, h) refl
