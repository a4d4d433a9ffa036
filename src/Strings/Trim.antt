-- ===== src/Strings/Trim.antt =====
-- `strings.TrimSpace`.
use Prim.Native.Nat.{ℕ}
use Prim.Native.String.{[], ◌∷◌}
use agent_action_control.Prelude.{
  String, Char, code, ◌≡◌, refl, Bool, false, ◌&&◌, ◌||◌, eqb, leb, if◌then◌else◌, arith,
  Bool-cases, inl, inr, ap, ◌∙◌,
}

-- `unicode.IsSpace` of a code point.
unfoldable pub is_space : ℕ → Bool
is_space c =
    (leb 9 c && leb c 13)
    || eqb c 32
    || eqb c 0x85
    || eqb c 0xa0
    || eqb c 0x1680
    || (leb 0x2000 c && leb c 0x200a)
    || eqb c 0x2028
    || eqb c 0x2029
    || eqb c 0x202f
    || eqb c 0x205f
    || eqb c 0x3000

unfoldable pub trim_left : String → String
trim_left [] = []
trim_left (c ∷ s) = let rest = trim_left s in if is_space (code c) then rest else c ∷ s

-- a character in front of a text that is trimmed on the right
unfoldable pub keep : Char → String → String
keep c [] = if is_space (code c) then [] else c ∷ []
keep c (d ∷ s) = c ∷ d ∷ s

unfoldable pub trim_right : String → String
trim_right [] = []
trim_right (c ∷ s) = keep c (trim_right s)

unfoldable pub trim_space : String → String
unfolding is_space trim_left trim_right keep
trim_space s = trim_right (trim_left s)

trim_space_run : trim_space " \t a b \n" ≡ "a b"
unfolding trim_space
trim_space_run = refl

trim_right-keep : (c : Char) (r : String) → trim_right r ≡ r → trim_right (keep c r) ≡ keep c r
unfolding trim_right keep
trim_right-keep c [] h = elim (Bool-cases (is_space (code c))) [
  | inl e ↦ rw e
  | inr e ↦ rw e (rw e)
]
trim_right-keep c (d ∷ s) h = rw h

trim_right_idem : (s : String) → trim_right (trim_right s) ≡ trim_right s
unfolding trim_right
trim_right_idem [] = refl
trim_right_idem (c ∷ s) = trim_right-keep c (trim_right s) (trim_right_idem s)

trim_left-keep :
    (c : Char) (r : String) → is_space (code c) ≡ false → trim_left (keep c r) ≡ keep c r
unfolding trim_left keep
trim_left-keep c [] h = ground arith
trim_left-keep c (d ∷ s) h = ground arith

-- Once the left end is trimmed, trimming the right end leaves it so.
trim_left-trim_right :
    (s : String) → trim_left (trim_right (trim_left s)) ≡ trim_right (trim_left s)
unfolding trim_left trim_right
trim_left-trim_right [] = refl
trim_left-trim_right (c ∷ s) =
    ground (arith, trim_left-trim_right s, trim_left-keep c (trim_right s))

-- A trimmed text has no space at its ends.
pub trim_space_idem : (s : String) → trim_space (trim_space s) ≡ trim_space s
unfolding trim_space
trim_space_idem s = ap trim_right (trim_left-trim_right s) ∙ trim_right_idem (trim_left s)
