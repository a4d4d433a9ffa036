-- ===== src/Json/Parse.antt =====
-- The grammar of `json.Unmarshal`. The fuel bounds the depth and the length of what is read.
use agent_action_control.Json.Numbers.{and_then, take_number, is_number}
use agent_action_control.Strings.{cut_prefix}
use agent_action_control.Json.Chars.{char_count}
use agent_action_control.Json.Strings.{scan_string, between}
use agent_action_control.Json.{
  json_string, json_object, json_bool, json_array, no_members, no_items, member, json_number,
  json_null, item, Members, Json, Items,
}
use agent_action_control.Prelude.{
  ℕ, ◌||◌, zero, true, suc, some, none, false, eqb, if◌then◌else◌, code, String, Option, Char, Bool,
}
use Prim.Native.String.{[], ◌∷◌}

abbrev pub is_blank_char : ℕ → Bool
is_blank_char n = eqb n 32 || eqb n 9 || eqb n 10 || eqb n 13

unfoldable pub skip : String → String
skip [] = []
skip (c ∷ s) = let rest = skip s in if is_blank_char (code c) then rest else c ∷ s

-- What a value begins with.
pub data Lead : Type 0 where
  lead_quote lead_bracket lead_brace lead_null lead_true lead_false lead_number : Lead

abbrev pub lead : ℕ → Lead
lead n =
    if eqb n b'"'
    then lead_quote
    else if eqb n b'['
    then lead_bracket
    else if eqb n b'{'
    then lead_brace
    else if eqb n b'n'
    then lead_null
    else if eqb n b't'
    then lead_true
    else if eqb n b'f'
    then lead_false
    else lead_number

abbrev pub Reader : Type 0 → Type 0
Reader A = String → Option (A × String)

abbrev pub constant : Json → Option String → Option (Json × String)
constant v none = none
constant v (some rest) = some (v, rest)

unfoldable pub read_number : Reader Json
read_number s =
    let (text, rest) = take_number s in
    if is_number text then some (json_number text, rest) else none

abbrev pub on_value : Reader Items → Reader Members → Reader Json
on_value read_items read_members [] = none
on_value read_items read_members (c ∷ s) = elim (lead (code c)) [
  | lead_quote ↦ and_then (scan_string between none s) λ p. some (json_string p.0, p.1)
  | lead_bracket ↦ and_then (read_items s) λ p. some (json_array p.0, p.1)
  | lead_brace ↦ and_then (read_members s) λ p. some (json_object p.0, p.1)
  | lead_null ↦ constant json_null (cut_prefix s "ull")
  | lead_true ↦ constant (json_bool true) (cut_prefix s "rue")
  | lead_false ↦ constant (json_bool false) (cut_prefix s "alse")
  | lead_number ↦ read_number (c ∷ s)
]

-- Behind a comma, or in front of the first of a list.
abbrev pub expect_separator : Bool → Char → String → Option String
expect_separator true c s = some (c ∷ s)
expect_separator false c s = if eqb (code c) b',' then some s else none

abbrev pub on_items : Reader Json → Reader Items → Bool → Reader Items
on_items read_value read_more first [] = none
on_items read_value read_more first (c ∷ s) = elim (eqb (code c) b']') [
  | true ↦ some (no_items, s)
  | false ↦
      and_then (expect_separator first c s)
        λ s. and_then (read_value s) λ v. and_then (read_more v.1) λ vs. some (item v.0 vs.0, vs.1)
]

abbrev pub expect_colon : String → Option String
expect_colon [] = none
expect_colon (c ∷ s) = if eqb (code c) b':' then some s else none

abbrev pub read_name : Reader String
read_name [] = none
read_name (c ∷ s) = elim (eqb (code c) b'"') [ true ↦ scan_string between none s | false ↦ none ]

abbrev pub on_members : Reader Json → Reader Members → Bool → Reader Members
on_members read_value read_more first [] = none
on_members read_value read_more first (c ∷ s) = elim (eqb (code c) b'}') [
  | true ↦ some (no_members, s)
  | false ↦ and_then (expect_separator first c s) λ s. and_then (read_name (skip s)) λ name.
      and_then (expect_colon (skip name.1)) λ s.
        and_then (read_value s)
          λ v. and_then (read_more v.1) λ ms. some (member name.0 v.0 ms.0, ms.1)
]

unfoldable mutual
  pub parse_value : ℕ → Reader Json
  parse_value zero s = none
  parse_value (suc f) s = on_value (parse_items f true) (parse_members f true) (skip s)

  pub parse_items : ℕ → Bool → Reader Items
  parse_items zero first s = none
  parse_items (suc f) first s = on_items (parse_value f) (parse_items f false) first (skip s)

  pub parse_members : ℕ → Bool → Reader Members
  parse_members zero first s = none
  parse_members (suc f) first s = on_members (parse_value f) (parse_members f false) first (skip s)

-- Nothing but white space stands behind the value.
abbrev pub whole : Option (Json × String) → Option Json
whole none = none
whole (some (v, rest)) = elim (skip rest) [ [] ↦ some v | c ∷ s ↦ none ]

-- The text of a value is longer than the value is deep and wide.
unfoldable pub parse : String → Option Json
unfolding parse_value skip
parse s = whole (parse_value (suc (char_count s)) s)
