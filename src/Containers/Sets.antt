-- ===== src/Containers/Sets.antt =====
-- Membership in lists of strings, lists without repetition, and lists in ascending order.
use agent_action_control.Prelude.{
  String, ◌≡◌, refl, Bool, true, false, ◌||◌, List, [], ◌∷◌, All, All-map, ◌==◌, eq_iff, eq_refl,
  arith,
}
use agent_action_control.Strings.{less, less_irrefl, less_trans, less_asymm}

abbrev pub contains : String → List String → Bool
contains x [] = false
contains x (y ∷ ys) = y == x || contains x ys

-- No string stands twice.
abbrev pub IsDistinct : List String → Type 0
IsDistinct [] = Unit
IsDistinct (x ∷ xs) = (contains x xs ≡ false) × IsDistinct xs

-- Each string comes before all that follow it, so none stands twice.
abbrev pub IsAscending : List String → Type 0
IsAscending [] = Unit
IsAscending (x ∷ xs) = All (λ y. less x y ≡ true) xs × IsAscending xs

abbrev pub SameMembers : List String → List String → Type 0
SameMembers xs ys = (x : String) → contains x xs ≡ contains x ys

pub not-contains_of_below :
    (x : String) (ys : List String) → All (λ y. less x y ≡ true) ys → contains x ys ≡ false
not-contains_of_below x [] h = refl
not-contains_of_below x (y ∷ ys) h =
    ground (arith, not-contains_of_below x ys h.1, eq_iff y x, less_irrefl x)

pub below_of_contains :
    (x y : String) (ys : List String)
    → All (λ z. less x z ≡ true) ys
    → contains y ys ≡ true
    → less x y ≡ true
below_of_contains x y [] h k = cc
below_of_contains x y (z ∷ ys) h k = ground (arith, below_of_contains x y ys h.1, eq_iff z y)

pub below_of_less :
    (x y : String) (ys : List String)
    → less x y ≡ true
    → All (λ z. less y z ≡ true) ys
    → All (λ z. less x z ≡ true) ys
below_of_less x y ys h k = All-map (λ z. less_trans x y z h) ys k

pub IsAscending-IsDistinct : (xs : List String) → IsAscending xs → IsDistinct xs
IsAscending-IsDistinct [] h = tt
IsAscending-IsDistinct (x ∷ xs) h = (not-contains_of_below x xs h.0, IsAscending-IsDistinct xs h.1)

heads_equal :
    (x y : String) (xs ys : List String)
    → IsAscending (x ∷ xs)
    → IsAscending (y ∷ ys)
    → SameMembers (x ∷ xs) (y ∷ ys)
    → x ≡ y
heads_equal x y xs ys h k same = ground (
  arith,
  same x,
  same y,
  eq_refl x,
  eq_refl y,
  eq_iff x y,
  eq_iff y x,
  below_of_contains x y xs h.0,
  below_of_contains y x ys k.0,
  less_asymm x y,
)

tails_same :
    (x y : String) (xs ys : List String)
    → x ≡ y
    → IsAscending (x ∷ xs)
    → IsAscending (y ∷ ys)
    → SameMembers (x ∷ xs) (y ∷ ys)
    → SameMembers xs ys
tails_same x y xs ys e h k same z = ground (
  arith,
  same z,
  eq_iff x z,
  eq_iff y z,
  not-contains_of_below x xs h.0,
  not-contains_of_below y ys k.0,
)

-- An ascending list is determined by its members.
pub IsAscending-eq :
    (xs ys : List String) → IsAscending xs → IsAscending ys → SameMembers xs ys → xs ≡ ys
IsAscending-eq [] [] h k same = refl
IsAscending-eq [] (y ∷ ys) h k same = ground (arith, same y, eq_refl y)
IsAscending-eq (x ∷ xs) [] h k same = ground (arith, same x, eq_refl x)
IsAscending-eq (x ∷ xs) (y ∷ ys) h k same =
    let e = heads_equal x y xs ys h k same in
    cc (e, IsAscending-eq xs ys h.1 k.1 (tails_same x y xs ys e h k same))
