-- ===== src/Json/Unmarshal.antt =====
-- `json.Unmarshal` into Go values. `null` leaves what was there, a value of another kind is an error,
-- and so a decoder takes what was there. A member is given to the field of its name, where letters
-- are compared without their case, and to none where no field has the name. The elements of an array
-- are read into zero values.
use agent_action_control.Prelude.{
  ℤ, ℕ, true, some, none, leb, false, eqb, if◌then◌else◌, code, String, Option, List, Char, Bool,
  ◌-◌, ◌&&◌,
}
use agent_action_control.Errors.{◌>>=◌, ok, err, Result}
use agent_action_control.Json.Parse.{parse}
use agent_action_control.Json.Numbers.{parse_int}
use agent_action_control.Json.{
  json_string, json_null, json_bool, json_object, json_array, no_members, no_items, member,
  json_number, item, Members, Json, Items,
}
use Prim.Native.String.{[], ◌∷◌}

-- Go's simple folding, of the characters that fold to an ASCII letter: the long s and the Kelvin sign
-- are among them.
unfoldable pub fold_char : Char → ℕ
fold_char c =
    let n = code c in
    if leb b'a' n && leb n b'z'
    then n - 32
    else if eqb n 0x17f
    then b'S'
    else if eqb n 0x212a
    then b'K'
    else n

unfoldable pub names : String → String → Bool
names [] [] = true
names (c ∷ s) (d ∷ t) = eqb (fold_char c) (fold_char d) && names s t
names _ _ = false

abbrev pub Decode : Type 0 → Type 0
Decode A = Json → A → Result A

unfoldable pub into_string : Decode String
into_string json_null before = ok before
into_string (json_string s) before = ok s
into_string _ before = err List.[]

unfoldable pub into_bool : Decode Bool
into_bool json_null before = ok before
into_bool (json_bool b) before = ok b
into_bool _ before = err List.[]

-- A pointer to an `int64`.
unfoldable pub into_int_pointer : Decode (Option ℤ)
into_int_pointer json_null before = ok none
into_int_pointer (json_number text) before = elim (parse_int text) [
  | none ↦ err List.[]
  | some z ↦ ok (some z)
]
into_int_pointer _ before = err List.[]

-- A `RawMessage`.
abbrev pub into_raw : Decode (Option Json)
into_raw v before = ok (some v)

abbrev pub first_or : {A : Type 0} → A → List A → A
first_or zero_value List.[] = zero_value
first_or zero_value (List.◌∷◌ x xs) = x

abbrev pub others : {A : Type 0} → List A → List A
others List.[] = List.[]
others (List.◌∷◌ x xs) = xs

-- The elements of an array, each decoded into the element that the slice has at its place from an
-- earlier member of the same name, and into the zero value behind them. What an array that was
-- shortened in between has left behind the end of the slice counts as the zero value.
unfoldable pub into_items : {A : Type 0} → Decode A → A → List A → Items → Result (List A)
into_items decode zero_value before no_items = ok List.[]
into_items decode zero_value before (item v vs) =
    decode v (first_or zero_value before)
    >>= (λ x. into_items decode zero_value (others before) vs >>= λ xs. ok (List.◌∷◌ x xs))

unfoldable pub into_list : {A : Type 0} → Decode A → A → Decode (List A)
unfolding into_items
into_list decode zero_value json_null before = ok List.[]
into_list decode zero_value (json_array vs) before = into_items decode zero_value before vs
into_list decode zero_value _ before = err List.[]

unfoldable pub into_fields : {A : Type 0} → (String → Decode A) → Members → A → Result A
into_fields set no_members before = ok before
into_fields set (member name v ms) before = set name v before >>= λ a. into_fields set ms a

unfoldable pub into_struct : {A : Type 0} → (String → Decode A) → Decode A
unfolding into_fields
into_struct set json_null before = ok before
into_struct set (json_object ms) before = into_fields set ms before
into_struct set _ before = err List.[]

-- `json.Unmarshal(raw, &value)`, where `none` is an empty message.
abbrev pub unmarshal_raw : {A : Type 0} → Decode A → A → Option Json → Result A
unmarshal_raw decode zero_value none = err List.[]
unmarshal_raw decode zero_value (some v) = decode v zero_value

-- `json.Unmarshal([]byte(text), &value)`
unfoldable pub unmarshal : {A : Type 0} → Decode A → A → String → Result A
unmarshal decode zero_value text = unmarshal_raw decode zero_value (parse text)
