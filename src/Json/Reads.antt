-- ===== src/Json/Reads.antt =====
-- Printed values in front of any text are read.
use agent_action_control.Json.Sizes.{
  size_pos, items_size_pos, size, members_size, items_size, is_json, are_members, are_items,
}
use agent_action_control.Json.Strings.RoundTrip.{scan_string-escape}
use agent_action_control.Strings.{cut_prefix}
use agent_action_control.Json.Print.{print_string, print_text, print_members, print_items, print}
use agent_action_control.Json.Parse.{
  on_value, lead_number, lead, skip, read_number, on_items, Reader, parse_value, parse_members,
  parse_items, is_blank_char,
}
use agent_action_control.Json.Numbers.{
  number_run, and_then, take_number, is_number_char, is_number, all_number_chars,
}
use agent_action_control.Json.{
  json_string, json_null, json_bool, json_object, json_array, no_members, no_items, member,
  json_number, item, Members, Json, Items,
}
use agent_action_control.Prelude.{
  ◌∙◌, zero, suc, ◌≤◌, ◌≡◌, ℕ, true, some, refl, not, false, eqb, code, arith, String, Char, Bool,
  ◌&&◌,
}
use Prim.Native.String.{[], ◌∷◌}

-- A number cannot go on in the text.
abbrev pub stops : String → Bool
stops [] = true
stops (c ∷ s) = not (is_number_char (code c))

take_number-print_text :
    (text rest : String)
    → all_number_chars text ≡ true
    → stops rest ≡ true
    → take_number (print_text text rest) ≡ (text, rest)
unfolding take_number print_text
take_number-print_text [] [] h k = refl
take_number-print_text [] (c ∷ s) h k = ground arith
take_number-print_text (c ∷ text) rest h k = ground (arith, take_number-print_text text rest)

-- With fuel of at least its size, what is printed of `a` in front of any text where a number cannot
-- go on is read.
abbrev pub ReadsValue : Json → Type 0
ReadsValue v =
    (rest : String) (f : ℕ)
    → is_json v ≡ true
    → stops rest ≡ true
    → size v ≤ f
    → parse_value f (print v rest) ≡ some (v, rest)

abbrev pub ReadsItems : Items → Type 0
ReadsItems vs =
    (first : Bool) (rest : String) (f : ℕ)
    → are_items vs ≡ true
    → items_size vs ≤ f
    → parse_items f first (print_items vs first rest) ≡ some (vs, rest)

abbrev pub ReadsMembers : Members → Type 0
ReadsMembers ms =
    (first : Bool) (rest : String) (f : ℕ)
    → are_members ms ≡ true
    → members_size ms ≤ f
    → parse_members f first (print_members ms first rest) ≡ some (ms, rest)

stops-print_items : (vs : Items) (rest : String) → stops (print_items vs false rest) ≡ true
unfolding print_items
stops-print_items no_items rest = refl
stops-print_items (item v vs) rest = refl

stops-print_members : (ms : Members) (rest : String) → stops (print_members ms false rest) ≡ true
unfolding print_members
stops-print_members no_members rest = refl
stops-print_members (member name v ms) rest = refl

skip_of_char : (c : Char) (s : String) → is_blank_char (code c) ≡ false → skip (c ∷ s) ≡ c ∷ s
unfolding skip
skip_of_char c s h = ground arith

-- A text that begins with a character that is no white space and closes no array.
abbrev opens_item : String → Bool
opens_item [] = false
opens_item (c ∷ s) = not (is_blank_char (code c)) && not (eqb (code c) b']')

opens_item-number :
    (text rest : String) → is_number text ≡ true → opens_item (print_text text rest) ≡ true
unfolding is_number print_text number_run
opens_item-number [] rest h = absurd (ground arith)
opens_item-number (c ∷ text) rest h = ground arith

opens_item-print : (v : Json) (rest : String) → is_json v ≡ true → opens_item (print v rest) ≡ true
unfolding print print_string is_json
opens_item-print json_null rest h = refl
opens_item-print (json_bool true) rest h = refl
opens_item-print (json_bool false) rest h = refl
opens_item-print (json_number text) rest h = opens_item-number text rest h
opens_item-print (json_string s) rest h = refl
opens_item-print (json_array vs) rest h = refl
opens_item-print (json_object ms) rest h = refl

read_number-print_text :
    (text rest : String)
    → is_number text ≡ true
    → stops rest ≡ true
    → read_number (print_text text rest) ≡ some (json_number text, rest)
unfolding read_number
read_number-print_text text rest h k =
    let chars : all_number_chars text ≡ true = unfold is_number in ground arith in
    rw (take_number-print_text text rest chars k, h) refl

-- What begins like a number is read as one.
on_value_number :
    (c : Char) (s : String) (read_items : Reader Items) (read_members : Reader Members)
    → is_number_char (code c) ≡ true
    → on_value read_items read_members (skip (c ∷ s)) ≡ read_number (c ∷ s)
on_value_number c s read_items read_members h =
    let number : lead (code c) ≡ lead_number = ground arith in
    rw (skip_of_char c s (ground arith)) (ground arith)

reads_number : (text : String) → ReadsValue (json_number text)
unfolding parse_value print is_json is_number number_run size
reads_number [] rest f h k l = absurd (ground arith)
reads_number (c ∷ text) rest zero h k l = absurd (omega arith)
reads_number (c ∷ text) rest (suc f) h k l =
    let read : read_number (c ∷ print_text text rest) ≡ some (json_number (c ∷ text), rest) =
      unfold print_text in read_number-print_text (c ∷ text) rest h k in
    let char : is_number_char (code c) ≡ true = ground arith in
    unfold print_text in
    on_value_number c (print_text text rest) (parse_items f true) (parse_members f true) char ∙ read

reads_null : ReadsValue json_null
unfolding parse_value print skip cut_prefix size
reads_null rest zero h k l = absurd (omega arith)
reads_null rest (suc f) h k l = refl

reads_bool : (b : Bool) → ReadsValue (json_bool b)
unfolding parse_value print skip cut_prefix size
reads_bool b rest zero h k l = absurd (omega arith)
reads_bool true rest (suc f) h k l = refl
reads_bool false rest (suc f) h k l = refl

reads_string : (s : String) → ReadsValue (json_string s)
unfolding parse_value print print_string skip size
reads_string s rest zero h k l = absurd (omega arith)
reads_string s rest (suc f) h k l = rw (scan_string-escape s rest) refl

reads_array : (vs : Items) → ReadsItems vs → ReadsValue (json_array vs)
unfolding parse_value print skip is_json size
reads_array vs ih rest zero h k l = absurd (omega arith)
reads_array vs ih rest (suc f) h k l = rw (ih true rest f h (omega arith)) refl

reads_object : (ms : Members) → ReadsMembers ms → ReadsValue (json_object ms)
unfolding parse_value print skip is_json size
reads_object ms ih rest zero h k l = absurd (omega arith)
reads_object ms ih rest (suc f) h k l = rw (ih true rest f h (omega arith)) refl

reads_no_items : ReadsItems no_items
unfolding parse_items print_items skip items_size
reads_no_items first rest zero h l = absurd (omega arith)
reads_no_items first rest (suc f) h l = refl

reads_no_members : ReadsMembers no_members
unfolding parse_members print_members skip members_size
reads_no_members first rest zero h l = absurd (omega arith)
reads_no_members first rest (suc f) h l = refl

-- In front of the first item stands nothing.
on_items_first :
    (s : String) (read_value : Reader Json) (read_more : Reader Items)
    → opens_item s ≡ true
    → on_items read_value read_more true (skip s)
      ≡ and_then (read_value s) λ v. and_then (read_more v.1) λ vs. some (item v.0 vs.0, vs.1)
on_items_first [] read_value read_more h = absurd (ground arith)
on_items_first (c ∷ s) read_value read_more h =
    let skipped : skip (c ∷ s) ≡ c ∷ s = skip_of_char c s (ground arith) in
    let open' : eqb (code c) b']' ≡ false = ground arith in rw skipped (ground arith)

reads_item : (v : Json) (vs : Items) → ReadsValue v → ReadsItems vs → ReadsItems (item v vs)
unfolding parse_items print_items are_items items_size
reads_item v vs ih ihs first rest zero h l = let here = size_pos v in absurd (omega arith)
reads_item v vs ih ihs true rest (suc f) h l =
    let good : is_json v ≡ true = ground arith in
    let more : are_items vs ≡ true = ground arith in
    let here = size_pos v in
    let there = items_size_pos vs in
    rw (
      on_items_first (print v (print_items vs false rest)) (parse_value f) (parse_items f false)
          (opens_item-print v (print_items vs false rest) good),
      ih (print_items vs false rest) f good (stops-print_items vs rest) (omega arith),
      ihs false rest f more (omega arith),
    )
reads_item v vs ih ihs false rest (suc f) h l =
    let good : is_json v ≡ true = ground arith in
    let more : are_items vs ≡ true = ground arith in
    let here = size_pos v in
    let there = items_size_pos vs in
    unfold skip in
    rw (
      ih (print_items vs false rest) f good (stops-print_items vs rest) (omega arith),
      ihs false rest f more (omega arith),
    )

reads_member :
    (name : String) (v : Json) (ms : Members)
    → ReadsValue v
    → ReadsMembers ms
    → ReadsMembers (member name v ms)
unfolding parse_members print_members print_string skip are_members members_size
reads_member name v ms ih ihs first rest zero h l = absurd (omega arith)
reads_member name v ms ih ihs true rest (suc f) h l =
    let good : is_json v ≡ true = ground arith in
    let more : are_members ms ≡ true = ground arith in
    rw (
      scan_string-escape name (":" ∷ print v (print_members ms false rest)),
      ih (print_members ms false rest) f good (stops-print_members ms rest) (omega arith),
      ihs false rest f more (omega arith),
    )
reads_member name v ms ih ihs false rest (suc f) h l =
    let good : is_json v ≡ true = ground arith in
    let more : are_members ms ≡ true = ground arith in
    rw (
      scan_string-escape name (":" ∷ print v (print_members ms false rest)),
      ih (print_members ms false rest) f good (stops-print_members ms rest) (omega arith),
      ihs false rest f more (omega arith),
    )

pub parse_value-ReadsValue : (v : Json) → ReadsValue v
parse_value-ReadsValue v = elim v as ReadsValue ReadsItems ReadsMembers [
  | json_null ↦ reads_null
  | json_bool b ↦ reads_bool b
  | json_number text ↦ reads_number text
  | json_string s ↦ reads_string s
  | json_array (vs → ih) ↦ reads_array vs ih
  | json_object (ms → ih) ↦ reads_object ms ih
  | no_items ↦ reads_no_items
  | item (v → ih) (vs → ihs) ↦ reads_item v vs ih ihs
  | no_members ↦ reads_no_members
  | member name (v → ih) (ms → ihs) ↦ reads_member name v ms ih ihs
]
