-- ===== src/Json/Strings/RoundTrip.antt =====
-- A string that has been written is read back.
use agent_action_control.Json.Strings.{
  other, kind, short_escape, is_escaped, push, between, letter, escape, resolve, unicode_escape,
  scan_string, read_escape, escape_char,
}
use agent_action_control.Json.Chars.{to_char_of_code, hex_value-hex_digit, to_char, code-to_char}
use agent_action_control.Prelude.{
  true, inr, inl, false, code, Option-cases, Bool-cases, ◌≡◌, ℕ, some, refl, none, arith, String,
  List, Char, ◌<◌,
}
use Prim.Native.Nat.{◌/◌, ◌%◌}
use Prim.Native.String.{[], ◌∷◌}

-- The four digits of a number below the surrogates are read back.
scan_string-unicode :
    (n : ℕ) (rest : String)
    → n < 0xd800
    → scan_string between none (unicode_escape n rest)
      ≡ push (List.◌∷◌ (to_char n) List.[]) (scan_string between none rest)
unfolding scan_string resolve
scan_string-unicode n rest h = ground (
  arith,
  hex_value-hex_digit (n / 4096),
  hex_value-hex_digit (n / 256 % 16),
  hex_value-hex_digit (n / 16 % 16),
  hex_value-hex_digit (n % 16),
)

scan_string-letter :
    (n m : ℕ) (rest : String)
    → n < 128
    → read_escape n ≡ letter m
    → scan_string between none ("\\" ∷ to_char n ∷ rest)
      ≡ push (List.◌∷◌ (to_char m) List.[]) (scan_string between none rest)
unfolding scan_string
scan_string-letter n m rest h e = ground (arith, code-to_char n)

short_escape-read_escape :
    (n l : ℕ) → short_escape n ≡ some l → (l < 128) × (n < 128) × (read_escape l ≡ letter n)
short_escape-read_escape n l h = ground arith

-- What has no short escape and is not escaped is an ordinary character.
kind_of_ordinary : (n : ℕ) → short_escape n ≡ none → is_escaped n ≡ false → kind n ≡ other
kind_of_ordinary n h k = ground arith

escaped-lt : (n : ℕ) → is_escaped n ≡ true → n < 0xd800
escaped-lt n h = ground arith

-- The three ways to write a character.
escape_char-short :
    (c : Char) (l : ℕ) (rest : String)
    → short_escape (code c) ≡ some l
    → escape_char c rest ≡ "\\" ∷ to_char l ∷ rest
unfolding escape_char
escape_char-short c l rest h = ground arith

escape_char-escaped :
    (c : Char) (rest : String)
    → short_escape (code c) ≡ none
    → is_escaped (code c) ≡ true
    → escape_char c rest ≡ unicode_escape (code c) rest
unfolding escape_char
escape_char-escaped c rest h k = ground arith

escape_char-ordinary :
    (c : Char) (rest : String)
    → short_escape (code c) ≡ none
    → is_escaped (code c) ≡ false
    → escape_char c rest ≡ c ∷ rest
unfolding escape_char
escape_char-ordinary c rest h k = ground arith

scan_string-ordinary :
    (c : Char) (rest : String)
    → kind (code c) ≡ other
    → scan_string between none (c ∷ rest)
      ≡ push (List.◌∷◌ c List.[]) (scan_string between none rest)
unfolding scan_string
scan_string-ordinary c rest h = ground arith

scan_string-escape_char :
    (c : Char) (rest : String)
    → scan_string between none (escape_char c rest)
      ≡ push (List.◌∷◌ c List.[]) (scan_string between none rest)
scan_string-escape_char c rest = elim (Option-cases (short_escape (code c))) [
  | inr (l, h) ↦
      let (small, ascii, read) = short_escape-read_escape (code c) l h in
      rw (
        escape_char-short c l rest h,
        scan_string-letter l (code c) rest small read,
        to_char_of_code c (code c) (omega arith) refl,
      )
  | inl h ↦ elim (Bool-cases (is_escaped (code c))) [
    | inl k ↦ rw (
      escape_char-escaped c rest h k,
      scan_string-unicode (code c) rest (escaped-lt (code c) k),
      to_char_of_code c (code c) (escaped-lt (code c) k) refl,
    )
    | inr k ↦
        rw (escape_char-ordinary c rest h k)
          (scan_string-ordinary c rest (kind_of_ordinary (code c) h k))
  ]
]

-- A string that `escape` has written in front of a quote is read back up to the quote.
pub scan_string-escape :
    (s rest : String) → scan_string between none (escape s ("\"" ∷ rest)) ≡ some (s, rest)
unfolding escape
scan_string-escape [] rest = unfold scan_string in refl
scan_string-escape (c ∷ s) rest =
    rw (scan_string-escape_char c (escape s ("\"" ∷ rest)), scan_string-escape s rest) refl
