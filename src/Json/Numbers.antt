-- ===== src/Json/Numbers.antt =====
-- Numbers of JSON texts: the grammar as an automaton, decimal digits, and `strconv.ParseInt` to 64
-- bits.
pub mod RoundTrip
use agent_action_control.Json.Chars.{to_char}
use agent_action_control.Prelude.{
  ℤ, ℕ, ◌||◌, zero, true, suc, some, pos, none, negsuc, ltb, leb, false, eqb, if◌then◌else◌, code,
  String, Option, Bool, ◌-◌, ◌+◌, ◌*◌, ◌&&◌,
}
use Prim.Native.Nat.{◌/◌, ◌%◌, ◌^◌}
use Prim.Native.String.{[], ◌∷◌}

abbrev pub is_digit : ℕ → Bool
is_digit n = leb b'0' n && leb n b'9'

abbrev pub is_number_char : ℕ → Bool
is_number_char n = is_digit n || eqb n b'-' || eqb n b'+' || eqb n b'.' || eqb n b'e' || eqb n b'E'

pub data NumberState : Type 0 where
  start minus zero_digit integer point fraction exponent exponent_sign exponent_digits stuck :
      NumberState

unfoldable pub number_step : NumberState → ℕ → NumberState
number_step start n =
    if eqb n b'-'
    then minus
    else if eqb n b'0'
    then zero_digit
    else if is_digit n
    then integer
    else stuck
number_step minus n = if eqb n b'0' then zero_digit else if is_digit n then integer else stuck
number_step zero_digit n =
    if eqb n b'.' then point else if eqb n b'e' || eqb n b'E' then exponent else stuck
number_step integer n =
    if is_digit n
    then integer
    else if eqb n b'.'
    then point
    else if eqb n b'e' || eqb n b'E'
    then exponent
    else stuck
number_step point n = if is_digit n then fraction else stuck
number_step fraction n =
    if is_digit n then fraction else if eqb n b'e' || eqb n b'E' then exponent else stuck
number_step exponent n =
    if eqb n b'+' || eqb n b'-'
    then exponent_sign
    else if is_digit n
    then exponent_digits
    else stuck
number_step exponent_sign n = if is_digit n then exponent_digits else stuck
number_step exponent_digits n = if is_digit n then exponent_digits else stuck
number_step stuck n = stuck

abbrev pub accepts : NumberState → Bool
accepts zero_digit = true
accepts integer = true
accepts fraction = true
accepts exponent_digits = true
accepts _ = false

unfoldable pub number_run : NumberState → String → NumberState
number_run state [] = state
number_run state (c ∷ s) = number_run (number_step state (code c)) s

-- The longest front that a number could be made of, and what follows. What follows a number is not
-- one of its characters, so that no number is read otherwise.
unfoldable pub take_number : String → String × String
take_number [] = ([], [])
take_number (c ∷ s) =
    let (text, rest) = take_number s in
    if is_number_char (code c) then (c ∷ text, rest) else ([], c ∷ s)

abbrev pub all_number_chars : String → Bool
all_number_chars [] = true
all_number_chars (c ∷ s) = is_number_char (code c) && all_number_chars s

unfoldable pub is_number : String → Bool
is_number text = all_number_chars text && accepts (number_run start text)

-- The decimal digits in front of a text; the fuel `n` is enough for `n`, which loses a digit at
-- each step.
unfoldable pub decimal : ℕ → ℕ → String → String
decimal zero n rest = to_char (b'0' + n) ∷ rest
decimal (suc fuel) n rest = elim (ltb n 10) [
  | true ↦ to_char (b'0' + n) ∷ rest
  | false ↦ decimal fuel (n / 10) (to_char (b'0' + n % 10) ∷ rest)
]

unfoldable pub number_text : ℤ → String
number_text (pos n) = decimal n n []
number_text (negsuc n) = "-" ∷ decimal (suc n) (suc n) []

unfoldable pub parse_digits : ℕ → String → Option ℕ
parse_digits value [] = some value
parse_digits value (c ∷ s) = elim (is_digit (code c)) [
  | true ↦ parse_digits (value * 10 + (code c - b'0')) s
  | false ↦ none
]

abbrev pub and_then {ℓ κ} : {A : Type ℓ} {B : Type κ} → Option A → (A → Option B) → Option B
and_then none f = none
and_then (some a) f = f a

abbrev pub negate : ℕ → ℤ
negate zero = pos 0
negate (suc n) = negsuc n

-- The integer of a text without fraction and exponent.
unfoldable pub read_int : String → Option ℤ
read_int [] = none
read_int (c ∷ s) = elim (eqb (code c) b'-') [
  | true ↦ elim s [ [] ↦ none | d ∷ ds ↦ and_then (parse_digits 0 (d ∷ ds)) λ n. some (negate n) ]
  | false ↦ and_then (parse_digits 0 (c ∷ s)) λ n. some (pos n)
]

-- The range of an `int64`.
abbrev pub is_int64 : ℤ → Bool
is_int64 (pos n) = ltb n (2 ^ 63)
is_int64 (negsuc n) = ltb n (2 ^ 63)

-- `strconv.ParseInt(text, 10, 64)` on a number of the grammar.
unfoldable pub parse_int : String → Option ℤ
parse_int text = and_then (read_int text) λ z. if is_int64 z then some z else none
