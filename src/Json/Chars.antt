-- ===== src/Json/Chars.antt =====
-- Characters of JSON texts: characters by their number, and hexadecimal digits.
use agent_action_control.Prelude.{
  ◌⊎◌, ◌≡◌, ◌∙◌, ℕ, ◌||◌, true, sym, suc, some, refl, none, ltb, leb, inr, inl, false,
  if◌then◌else◌, code, arith, String, Option, Char, Bool, ◌<◌, ◌-◌, ◌+◌, ◌&&◌,
}
use Prim.Native.Nat.{compare, Ordering}
use Prim.Native.Char.{char, IsScalar}
use Prim.Native.String.{[], ◌∷◌}
use text.Mathlib.TextEquality.{Char-path}

abbrev pub split : (b : Bool) → (b ≡ true) ⊎ (b ≡ false)
split true = inl refl
split false = inr refl

-- Outside the surrogates and the numbers past U+10FFFF.
abbrev pub is_scalar : ℕ → Bool
is_scalar n = ltb n 0xd800 || (ltb 0xdfff n && ltb n 0x110000)

pub is_scalar-IsScalar : (n : ℕ) → is_scalar n ≡ true → IsScalar n
is_scalar-IsScalar n h = elim (split (ltb n 0xd800)) [
  | inl k ↦ let e : compare n 55296 ≡ Ordering.lt = ground arith in rw e tt
  | inr k ↦ elim (split (ltb 0xd800 n)) [
    | inr l ↦ absurd (ground arith)
    | inl l ↦
        let e : compare n 55296 ≡ Ordering.gt = ground arith in
        let e' : compare 57343 n ≡ Ordering.lt = ground arith in
        let e'' : compare n 1114112 ≡ Ordering.lt = ground arith in rw (e, e', e'') tt
  ]
]

abbrev pub char_by : (n : ℕ) → (is_scalar n ≡ true) ⊎ (is_scalar n ≡ false) → Char
char_by n (inl h) = char n (is_scalar-IsScalar n h)
char_by n (inr h) = char 0xfffd tt

-- The character of a number, or U+FFFD where there is none.
unfoldable pub to_char : ℕ → Char
to_char n = char_by n (split (is_scalar n))

char_by-code :
    (n : ℕ) (h : (is_scalar n ≡ true) ⊎ (is_scalar n ≡ false))
    → is_scalar n ≡ true
    → code (char_by n h) ≡ n
char_by-code n (inl h) k = refl
char_by-code n (inr h) k = absurd (ground arith)

pub code-to_char : (n : ℕ) → is_scalar n ≡ true → code (to_char n) ≡ n
unfolding to_char
code-to_char n h = char_by-code n (split (is_scalar n)) h

pub to_char_of_code : (c : Char) (n : ℕ) → n < 0xd800 → code c ≡ n → to_char n ≡ c
to_char_of_code c n h e = Char-path (to_char n) c (code-to_char n (ground arith) ∙ sym e)

-- A lower-case hexadecimal digit.
unfoldable pub hex_digit : ℕ → Char
hex_digit n = to_char (if ltb n 10 then b'0' + n else 87 + n)

unfoldable pub hex_value : ℕ → Option ℕ
hex_value c =
    if leb b'0' c && leb c b'9'
    then some (c - b'0')
    else if leb b'a' c && leb c b'f'
    then some (c - 87)
    else if leb b'A' c && leb c b'F'
    then some (c - 55)
    else none

pub hex_value-hex_digit : (n : ℕ) → n < 16 → hex_value (code (hex_digit n)) ≡ some n
unfolding hex_value hex_digit
hex_value-hex_digit n h =
    rw (code-to_char (if ltb n 10 then b'0' + n else 87 + n) (ground arith)) (ground arith)

abbrev pub char_count : String → ℕ
char_count [] = 0
char_count (c ∷ s) = suc (char_count s)
