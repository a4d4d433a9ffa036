-- ===== src/Containers/Sorting.antt =====
-- `sort.Strings`, as an insertion sort. The result is the same as for any other correct sort: a
-- permutation in ascending order.
use agent_action_control.Prelude.{
  String, ◌≡◌, refl, true, false, ◌||◌, List, [], ◌∷◌, All, ◌==◌, eq_iff, if◌then◌else◌, arith,
  length, ◌+◌, Bool-cases, inl, inr,
}
use agent_action_control.Strings.{less, less_connected}
use agent_action_control.Containers.Sets.{
  contains, IsDistinct, IsAscending, IsAscending-eq, IsAscending-IsDistinct, below_of_less,
}

insert : String → List String → List String
insert x [] = x ∷ []
insert x (y ∷ ys) = if less y x then y ∷ insert x ys else x ∷ y ∷ ys

unfoldable pub sort_strings : List String → List String
unfolding insert
sort_strings [] = []
sort_strings (x ∷ xs) = insert x (sort_strings xs)

contains-insert :
    (x j : String) (xs : List String) → contains j (insert x xs) ≡ (x == j || contains j xs)
unfolding insert
contains-insert x j [] = refl
contains-insert x j (y ∷ ys) = ground (arith, contains-insert x j ys)

pub contains-sort_strings :
    (j : String) (xs : List String) → contains j (sort_strings xs) ≡ contains j xs
unfolding sort_strings
contains-sort_strings j [] = refl
contains-sort_strings j (x ∷ xs) =
    ground (arith, contains-insert x j (sort_strings xs), contains-sort_strings j xs)

length-insert : (x : String) (xs : List String) → length (insert x xs) ≡ length xs + 1
unfolding insert
length-insert x [] = omega arith
length-insert x (y ∷ ys) = ground (arith, length-insert x ys)

pub length-sort_strings : (xs : List String) → length (sort_strings xs) ≡ length xs
unfolding sort_strings
length-sort_strings [] = refl
length-sort_strings (x ∷ xs) =
    omega (arith, length-insert x (sort_strings xs), length-sort_strings xs)

below-insert :
    (z x : String) (xs : List String)
    → less z x ≡ true
    → All (λ y. less z y ≡ true) xs
    → All (λ y. less z y ≡ true) (insert x xs)
unfolding insert
below-insert z x [] h k = (h, tt)
below-insert z x (y ∷ ys) h k = ground (arith, below-insert z x ys h k.1)

insert-IsAscending :
    (x : String) (xs : List String)
    → IsAscending xs
    → contains x xs ≡ false
    → IsAscending (insert x xs)
unfolding insert
insert-IsAscending x [] h k = (tt, tt)
insert-IsAscending x (y ∷ ys) h k = elim (Bool-cases (less y x)) [
  | inl e ↦ rw e (below-insert y x ys e h.0, insert-IsAscending x ys h.1 (ground arith))
  | inr e ↦
      let first : less x y ≡ true = ground (arith, less_connected x y, eq_iff y x) in
      rw e ((first, below_of_less x y ys first h.0), h)
]

-- Distinct strings are sorted into ascending order.
pub sort_strings-IsAscending : (xs : List String) → IsDistinct xs → IsAscending (sort_strings xs)
unfolding sort_strings
sort_strings-IsAscending [] h = tt
sort_strings-IsAscending (x ∷ xs) h =
    insert-IsAscending x (sort_strings xs) (sort_strings-IsAscending xs h.1)
      (rw (contains-sort_strings x xs) h.0)

-- Sorting an ascending list changes nothing.
pub sort_strings_of_IsAscending : (xs : List String) → IsAscending xs → sort_strings xs ≡ xs
sort_strings_of_IsAscending xs h =
    IsAscending-eq (sort_strings xs) xs (sort_strings-IsAscending xs (IsAscending-IsDistinct xs h))
      h (λ j. contains-sort_strings j xs)
