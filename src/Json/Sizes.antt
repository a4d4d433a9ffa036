-- ===== src/Json/Sizes.antt =====
-- Values whose numbers are numbers, their size, and the length of what is printed of them.
use agent_action_control.Json.Strings.{escape_char, escape}
use agent_action_control.Json.Chars.{char_count}
use agent_action_control.Json.Print.{
  separate, print_string, print_text, print_members, print_items, print,
}
use agent_action_control.Json.Numbers.{number_run, is_number}
use agent_action_control.Json.{
  json_string, json_null, json_bool, json_object, json_array, no_members, no_items, member,
  json_number, item, Members, Json, Items,
}
use agent_action_control.Prelude.{◌≤◌, ◌≡◌, ℕ, true, false, arith, String, Char, Bool, ◌+◌, ◌&&◌}
use Prim.Native.String.{[], ◌∷◌}

-- Every number is one of the grammar.
unfoldable mutual
  pub is_json : Json → Bool
  is_json (json_number text) = is_number text
  is_json (json_array vs) = are_items vs
  is_json (json_object ms) = are_members ms
  is_json _ = true

  pub are_items : Items → Bool
  are_items no_items = true
  are_items (item v vs) = is_json v && are_items vs

  pub are_members : Members → Bool
  are_members no_members = true
  are_members (member name v ms) = is_json v && are_members ms

unfoldable mutual
  pub size : Json → ℕ
  size (json_array vs) = 1 + items_size vs
  size (json_object ms) = 1 + members_size ms
  size _ = 1

  pub items_size : Items → ℕ
  items_size no_items = 1
  items_size (item v vs) = size v + items_size vs

  pub members_size : Members → ℕ
  members_size no_members = 1
  members_size (member name v ms) = 1 + size v + members_size ms

pub size_pos : (v : Json) → 1 ≤ size v
unfolding size
size_pos json_null = omega arith
size_pos (json_bool b) = omega arith
size_pos (json_number text) = omega arith
size_pos (json_string s) = omega arith
size_pos (json_array vs) = omega arith
size_pos (json_object ms) = omega arith

pub items_size_pos : (vs : Items) → 1 ≤ items_size vs
unfolding items_size
items_size_pos no_items = omega arith
items_size_pos (item v vs) = let h = size_pos v in omega arith

count-print_text :
    (text rest : String) → char_count text + char_count rest ≡ char_count (print_text text rest)
unfolding print_text
count-print_text [] rest = omega arith
count-print_text (c ∷ text) rest = let ih = count-print_text text rest in omega arith

count-escape_char :
    (c : Char) (rest : String) → 1 + char_count rest ≤ char_count (escape_char c rest)
unfolding escape_char
count-escape_char c rest = ground arith

count-escape : (s rest : String) → char_count rest ≤ char_count (escape s rest)
unfolding escape
count-escape [] rest = omega arith
count-escape (c ∷ s) rest =
    let ih = count-escape s rest in let here = count-escape_char c (escape s rest) in omega arith

count-print_string : (s rest : String) → 2 + char_count rest ≤ char_count (print_string s rest)
unfolding print_string
count-print_string s rest = let h = count-escape s ("\"" ∷ rest) in omega arith

count-separate : (first : Bool) (rest : String) → char_count rest ≤ char_count (separate first rest)
count-separate true rest = omega arith
count-separate false rest = omega arith

abbrev CountsValue : Json → Type 0
CountsValue v =
    (rest : String) → is_json v ≡ true → size v + char_count rest ≤ char_count (print v rest)

abbrev CountsItems : Items → Type 0
CountsItems vs =
    (first : Bool) (rest : String)
    → are_items vs ≡ true
    → items_size vs + char_count rest ≤ char_count (print_items vs first rest)

abbrev CountsMembers : Members → Type 0
CountsMembers ms =
    (first : Bool) (rest : String)
    → are_members ms ≡ true
    → members_size ms + char_count rest ≤ char_count (print_members ms first rest)

counts_number : (text : String) → CountsValue (json_number text)
unfolding print is_json is_number number_run size
counts_number [] rest h = absurd (ground arith)
counts_number (c ∷ text) rest h = let e = count-print_text (c ∷ text) rest in omega arith

counts_string : (s : String) → CountsValue (json_string s)
unfolding print size
counts_string s rest h = let e = count-print_string s rest in omega arith

counts_item : (v : Json) (vs : Items) → CountsValue v → CountsItems vs → CountsItems (item v vs)
unfolding print_items are_items items_size
counts_item v vs ih ihs first rest h =
    let good : is_json v ≡ true = ground arith in
    let more : are_items vs ≡ true = ground arith in
    let here = ih (print_items vs false rest) good in
    let there = ihs false rest more in
    let sep = count-separate first (print v (print_items vs false rest)) in omega arith

counts_member :
    (name : String) (v : Json) (ms : Members)
    → CountsValue v
    → CountsMembers ms
    → CountsMembers (member name v ms)
unfolding print_members are_members members_size
counts_member name v ms ih ihs first rest h =
    let good : is_json v ≡ true = ground arith in
    let more : are_members ms ≡ true = ground arith in
    let here = ih (print_members ms false rest) good in
    let there = ihs false rest more in
    let name' = count-print_string name (":" ∷ print v (print_members ms false rest)) in
    let sep =
      count-separate first (print_string name (":" ∷ print v (print_members ms false rest))) in
    omega arith

-- The size of a value is at most the number of characters that are printed of it.
pub size-print : (v : Json) → CountsValue v
unfolding print print_items print_members size items_size members_size is_json are_items are_members
size-print v = elim v as CountsValue CountsItems CountsMembers [
  | json_null ↦ λ rest h. omega arith
  | json_bool b ↦ λ rest h.
      elim b as (λ b. 1 + char_count rest ≤ char_count (print (json_bool b) rest)) [
        | true ↦ omega arith
        | false ↦ omega arith
      ]
  | json_number text ↦ counts_number text
  | json_string s ↦ counts_string s
  | json_array (vs → ih) ↦ λ rest h. let e = ih true rest h in omega arith
  | json_object (ms → ih) ↦ λ rest h. let e = ih true rest h in omega arith
  | no_items ↦ λ first rest h. omega arith
  | item (v → ih) (vs → ihs) ↦ counts_item v vs ih ihs
  | no_members ↦ λ first rest h. omega arith
  | member name (v → ih) (ms → ihs) ↦ counts_member name v ms ih ihs
]
