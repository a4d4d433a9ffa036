-- ===== src/Json.antt =====
-- What the program uses of Go's package `encoding/json`: values as trees, printed as `Marshal` prints
-- them and read as `Unmarshal` reads them. A number is kept as its text.
pub mod Chars
pub mod Strings
pub mod Numbers
pub mod Print
pub mod Parse
pub mod Sizes
pub mod Reads
pub mod RoundTrip
pub mod Unmarshal
use agent_action_control.Prelude.{String, Bool, List, [], ◌∷◌}

mutual
  pub data Json : Type 0 where
    json_null : Json
    json_bool : Bool → Json
    json_number : String → Json
    json_string : String → Json
    json_array : Items → Json
    json_object : Members → Json

  pub data Items : Type 0 where
    no_items : Items
    item : Json → Items → Items

  pub data Members : Type 0 where
    no_members : Members
    member : String → Json → Members → Members

abbrev pub items : List Json → Items
items [] = no_items
items (v ∷ vs) = item v (items vs)

abbrev pub members : List (String × Json) → Members
members [] = no_members
members ((name, v) ∷ ms) = member name v (members ms)

abbrev pub item_list : Items → List Json
item_list no_items = []
item_list (item v vs) = v ∷ item_list vs
