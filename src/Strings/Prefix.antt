-- ===== src/Strings/Prefix.antt =====
-- `strings.HasPrefix` and `strings.TrimPrefix`.
use Prim.Native.String.{[], ◌∷◌}
use agent_action_control.Prelude.{
  String, code, ◌≡◌, refl, Bool, true, false, Option, none, some, eqb, if◌then◌else◌,
}

-- What follows a prefix, where the text has it.
unfoldable pub cut_prefix : String → String → Option String
cut_prefix s [] = some s
cut_prefix [] (d ∷ p) = none
cut_prefix (c ∷ s) (d ∷ p) =
    let rest = cut_prefix s p in if eqb (code c) (code d) then rest else none

unfoldable pub has_prefix : String → String → Bool
unfolding cut_prefix
has_prefix s p = elim (cut_prefix s p) [ none ↦ false | some rest ↦ true ]

unfoldable pub trim_prefix : String → String → String
unfolding cut_prefix
trim_prefix s p = elim (cut_prefix s p) [ none ↦ s | some rest ↦ rest ]

prefix_run : trim_prefix "deny.x" "deny." ≡ "x"
unfolding trim_prefix
prefix_run = refl
