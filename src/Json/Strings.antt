-- ===== src/Json/Strings.antt =====
-- Strings of JSON texts. `escape` writes as `Marshal` does, in front of what follows; `scan_string`
-- reads as `Unmarshal` does, behind the opening quote: a lone surrogate reads as U+FFFD.
pub mod RoundTrip
use agent_action_control.Json.Chars.{to_char, hex_value, hex_digit}
use agent_action_control.Prelude.{
  ℕ, ◌||◌, zero, suc, some, none, ltb, leb, if◌then◌else◌, eqb, code, String, Option, List, Char,
  Bool, ◌-◌, ◌+◌, ◌*◌, ◌&&◌,
}
use Prim.Native.Nat.{◌/◌, ◌%◌}
use Prim.Native.String.{[], ◌∷◌}

abbrev pub unicode_escape : ℕ → String → String
unicode_escape n rest =
    "\\"
    ∷ "u"
    ∷ hex_digit (n / 4096)
    ∷ hex_digit (n / 256 % 16)
    ∷ hex_digit (n / 16 % 16)
    ∷ hex_digit (n % 16)
    ∷ rest

-- The letter of a short escape, by the number of the character that it stands for.
abbrev pub short_escape : ℕ → Option ℕ
short_escape n =
    if eqb n b'"'
    then some b'"'
    else if eqb n b'\\'
    then some b'\\'
    else if eqb n 8
    then some b'b'
    else if eqb n 12
    then some b'f'
    else if eqb n 10
    then some b'n'
    else if eqb n 13
    then some b'r'
    else if eqb n 9
    then some b't'
    else none

-- What `Marshal` escapes as `\u`: control characters, the characters of HTML, U+2028 and U+2029.
abbrev pub is_escaped : ℕ → Bool
is_escaped n = ltb n 32 || eqb n b'<' || eqb n b'>' || eqb n b'&' || eqb n 8232 || eqb n 8233

unfoldable pub escape_char : Char → String → String
escape_char c rest = elim (short_escape (code c)) [
  | some letter ↦ "\\" ∷ to_char letter ∷ rest
  | none ↦ if is_escaped (code c) then unicode_escape (code c) rest else c ∷ rest
]

unfoldable pub escape : String → String → String
escape [] rest = rest
escape (c ∷ s) rest = escape_char c (escape s rest)

-- Where the reader stands: between characters, behind a backslash, or in front of `suc left`
-- hexadecimal digits, behind digits that make `value`.
pub data Scan : Type 0 where
  between escaped : Scan
  hex : (left value : ℕ) → Scan

pub data Kind : Type 0 where
  closing backslash control other : Kind

abbrev pub kind : ℕ → Kind
kind n =
    if eqb n b'"'
    then closing
    else if eqb n b'\\'
    then backslash
    else if ltb n 32
    then control
    else other

-- What stands behind a backslash.
pub data Escape : Type 0 where
  letter : ℕ → Escape
  unicode bad : Escape

abbrev pub read_escape : ℕ → Escape
read_escape n =
    if eqb n b'"' || eqb n b'\\' || eqb n b'/'
    then letter n
    else if eqb n b'b'
    then letter 8
    else if eqb n b'f'
    then letter 12
    else if eqb n b'n'
    then letter 10
    else if eqb n b'r'
    then letter 13
    else if eqb n b't'
    then letter 9
    else if eqb n b'u'
    then unicode
    else bad

abbrev pub is_high : ℕ → Bool
is_high n = leb 0xd800 n && leb n 0xdbff

abbrev pub is_low : ℕ → Bool
is_low n = leb 0xdc00 n && leb n 0xdfff

-- Characters in front of what is read next.
abbrev pub push : List Char → Option (String × String) → Option (String × String)
push List.[] r = r
push (List.◌∷◌ c cs) r = elim (push cs r) [ none ↦ none | some (s, rest) ↦ some (c ∷ s, rest) ]

-- A high surrogate that waits for its low one and does not get it.
abbrev pub alone : Option ℕ → List Char
alone none = List.[]
alone (some high) = List.◌∷◌ (to_char 0xfffd) List.[]

-- A `\u` escape behind `waiting`: the characters that are complete, and what waits now.
unfoldable pub resolve : Option ℕ → ℕ → List Char × Option ℕ
resolve none n =
    if is_high n
    then (List.[], some n)
    else (List.◌∷◌ (to_char (if is_low n then 0xfffd else n)) List.[], none)
resolve (some high) n =
    if is_low n
    then (List.◌∷◌ (to_char (0x10000 + (high - 0xd800) * 1024 + (n - 0xdc00))) List.[], none)
    else if is_high n
    then (List.◌∷◌ (to_char 0xfffd) List.[], some n)
    else (List.◌∷◌ (to_char 0xfffd) (List.◌∷◌ (to_char n) List.[]), none)

-- What stands behind the backslash decides whether a surrogate can still get its partner.
unfoldable pub scan_string : Scan → Option ℕ → String → Option (String × String)
scan_string state waiting [] = none
scan_string between waiting (c ∷ s) = elim (kind (code c)) [
  | closing ↦ push (alone waiting) (some ([], s))
  | backslash ↦ scan_string escaped waiting s
  | control ↦ none
  | other ↦ push (alone waiting) (push (List.◌∷◌ c List.[]) (scan_string between none s))
]
scan_string escaped waiting (c ∷ s) = elim (read_escape (code c)) [
  | letter n ↦
      push (alone waiting) (push (List.◌∷◌ (to_char n) List.[]) (scan_string between none s))
  | unicode ↦ scan_string (hex 3 0) waiting s
  | bad ↦ none
]
scan_string (hex left value) waiting (c ∷ s) = elim (hex_value (code c)) [
  | none ↦ none
  | some d ↦ elim left [
    | suc left ↦ scan_string (hex left (value * 16 + d)) waiting s
    | zero ↦
        let (done, waiting) = resolve waiting (value * 16 + d) in
        push done (scan_string between waiting s)
  ]
]
