-- ===== src/Json/RoundTrip.antt =====
-- Text that `Marshal` writes, parsed.
use agent_action_control.Prelude.{◌≡◌, true, suc, some, refl, arith}
use agent_action_control.Json.Reads.{parse_value-ReadsValue}
use agent_action_control.Json.Parse.{skip, parse}
use agent_action_control.Json.Print.{print, marshal_json}
use agent_action_control.Json.Chars.{char_count}
use agent_action_control.Json.{Json}
use Prim.Native.String.{[]}
use agent_action_control.Json.Sizes.{size-print, is_json}

-- The fuel of `parse`, the length of the text, is enough for what is printed.
pub parse-marshal_json : (v : Json) → is_json v ≡ true → parse (marshal_json v) ≡ some v
unfolding parse marshal_json skip
parse-marshal_json v h =
    let enough = size-print v [] h in
    rw (parse_value-ReadsValue v [] (suc (char_count (print v []))) h refl (omega arith)) refl
