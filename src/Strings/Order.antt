-- ===== src/Strings/Order.antt =====
-- The order of `sort.Strings`: by the bytes of UTF-8, which is the order by code points.
use Prim.Native.String.{[], ◌∷◌}
use text.Mathlib.TextEquality.{Char-path}
use agent_action_control.Prelude.{
  String, Char, code, ◌≡◌, refl, Bool, true, false, ltb, eqb, if◌then◌else◌, arith,
}

unfoldable pub less : String → String → Bool
less [] [] = false
less [] (d ∷ t) = true
less (c ∷ s) [] = false
less (c ∷ s) (d ∷ t) =
    let rest = less s t in
    if ltb (code c) (code d) then true else if eqb (code c) (code d) then rest else false

pub less_irrefl : (s : String) → less s s ≡ false
unfolding less
less_irrefl [] = refl
less_irrefl (c ∷ s) = ground (arith, less_irrefl s)

pub less_trans : (s t u : String) → less s t ≡ true → less t u ≡ true → less s u ≡ true
unfolding less
less_trans [] (d ∷ t) (e ∷ u) h k = refl
less_trans (c ∷ s) (d ∷ t) (e ∷ u) h k = ground (arith, less_trans s t u)
less_trans [] [] u h k = cc
less_trans (c ∷ s) [] u h k = cc
less_trans [] (d ∷ t) [] h k = cc
less_trans (c ∷ s) (d ∷ t) [] h k = cc

cons_path : (c d : Char) (s t : String) → code c ≡ code d → s ≡ t → (c ∷ s) ≡ (d ∷ t)
cons_path c d s t p q = cc (Char-path c d p)

-- Two texts neither of which comes first are equal.
pub less_connected : (s t : String) → less s t ≡ false → less t s ≡ false → s ≡ t
unfolding less
less_connected [] [] h k = refl
less_connected [] (d ∷ t) h k = cc
less_connected (c ∷ s) [] h k = cc
less_connected (c ∷ s) (d ∷ t) h k =
    cons_path c d s t (ground arith) (less_connected s t (ground arith) (ground arith))

pub less_asymm : (s t : String) → less s t ≡ true → less t s ≡ false
less_asymm s t h = ground (arith, less_irrefl s, less_trans s t s)
