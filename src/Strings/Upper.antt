-- ===== src/Strings/Upper.antt =====
-- `strings.ToUpper`: the Unicode case table of package `unicode` is a parameter.
use Prim.Native.String.{[], ◌∷◌}
use agent_action_control.Prelude.{
  String, Char, code, ℕ, ◌≡◌, ◌<◌, ◌-◌, refl, ap, ◌∙◌, ◌&&◌, leb, if◌then◌else◌, arith, Bool-cases,
  inl, inr,
}
use agent_action_control.Strings.Trim.{
  is_space, trim_left, trim_right, keep, trim_space, trim_space_idem,
}

-- `unicode.ToUpper` below U+0080.
abbrev pub ascii_upper : ℕ → ℕ
ascii_upper c = if leb b'a' c && leb c b'z' then c - 32 else c

-- `unicode.ToUpper`: on ASCII it is `ascii_upper`, a second application changes nothing, and it
-- maps white space, and nothing else, to white space.
pub record Unicode : Type 0 where
  pub upper : Char → Char
  pub upper_ascii : (c : Char) → code c < 128 → code (upper c) ≡ ascii_upper (code c)
  pub upper_idem : (c : Char) → upper (upper c) ≡ upper c
  pub upper_space : (c : Char) → is_space (code (upper c)) ≡ is_space (code c)

module _ ⦃u : Unicode⦄ where
  unfoldable pub to_upper : String → String
  to_upper [] = []
  to_upper (c ∷ s) = u.upper c ∷ to_upper s

  to_upper_idem : (s : String) → to_upper (to_upper s) ≡ to_upper s
  unfolding to_upper
  to_upper_idem [] = refl
  to_upper_idem (c ∷ s) = rw (u.upper_idem c) (ap (◌∷◌ (u.upper c)) (to_upper_idem s))

  to_upper-trim_left : (s : String) → trim_left (to_upper s) ≡ to_upper (trim_left s)
  unfolding trim_left to_upper
  to_upper-trim_left [] = refl
  to_upper-trim_left (c ∷ s) = ground (arith, to_upper-trim_left s, u.upper_space c)

  to_upper-keep : (c : Char) (s : String) → keep (u.upper c) (to_upper s) ≡ to_upper (keep c s)
  unfolding keep to_upper
  to_upper-keep c [] = elim (Bool-cases (is_space (code c))) [
    | inl e ↦ rw (u.upper_space c, e)
    | inr e ↦ rw (u.upper_space c, e)
  ]
  to_upper-keep c (d ∷ s) = refl

  to_upper-trim_right : (s : String) → trim_right (to_upper s) ≡ to_upper (trim_right s)
  unfolding trim_right to_upper
  to_upper-trim_right [] = refl
  to_upper-trim_right (c ∷ s) = rw (to_upper-trim_right s) (to_upper-keep c (trim_right s))

  trim_space-to_upper : (s : String) → trim_space (to_upper s) ≡ to_upper (trim_space s)
  unfolding trim_space
  trim_space-to_upper s = rw (to_upper-trim_left s) (to_upper-trim_right (trim_left s))

  -- `strings.ToUpper(strings.TrimSpace(…))` a second time changes nothing.
  pub upper-trim_idem :
      (s : String) → to_upper (trim_space (to_upper (trim_space s))) ≡ to_upper (trim_space s)
  upper-trim_idem s =
      ap to_upper (trim_space-to_upper (trim_space s))
      ∙ (to_upper_idem (trim_space (trim_space s)) ∙ ap to_upper (trim_space_idem s))
