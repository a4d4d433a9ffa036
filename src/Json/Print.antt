-- ===== src/Json/Print.antt =====
-- `json.Marshal` of a tree, in front of what follows.
use agent_action_control.Json.Strings.{escape}
use agent_action_control.Json.{
  json_string, json_object, json_bool, json_array, no_members, no_items, member, json_number,
  json_null, item, Members, Json, Items,
}
use agent_action_control.Prelude.{true, false, String, Bool}
use Prim.Native.String.{[], ◌∷◌}

-- The characters of a text in front of another.
unfoldable pub print_text : String → String → String
print_text [] rest = rest
print_text (c ∷ s) rest = c ∷ print_text s rest

unfoldable pub print_string : String → String → String
print_string s rest = "\"" ∷ escape s ("\"" ∷ rest)

abbrev pub separate : Bool → String → String
separate true rest = rest
separate false rest = "," ∷ rest

unfoldable mutual
  unfolding print_text print_string

  pub print : Json → String → String
  print json_null rest = "n" ∷ "u" ∷ "l" ∷ "l" ∷ rest
  print (json_bool true) rest = "t" ∷ "r" ∷ "u" ∷ "e" ∷ rest
  print (json_bool false) rest = "f" ∷ "a" ∷ "l" ∷ "s" ∷ "e" ∷ rest
  print (json_number text) rest = print_text text rest
  print (json_string s) rest = print_string s rest
  print (json_array vs) rest = "[" ∷ print_items vs true rest
  print (json_object ms) rest = "{" ∷ print_members ms true rest

  -- The Boolean says that nothing has been printed before.
  pub print_items : Items → Bool → String → String
  print_items no_items first rest = "]" ∷ rest
  print_items (item v vs) first rest = separate first (print v (print_items vs false rest))

  pub print_members : Members → Bool → String → String
  print_members no_members first rest = "}" ∷ rest
  print_members (member name v ms) first rest =
      separate first (print_string name (":" ∷ print v (print_members ms false rest)))

unfoldable pub marshal_json : Json → String
marshal_json v = print v []
