-- ===== src/Domain/Normalize/Strings.antt =====
-- The result of `normalizeStrings`.
use agent_action_control.Prelude.{
  String, len, ℕ, ◌≡◌, ◌≢◌, ◌≤◌, ◌+◌, refl, sym, ap, ◌∙◌, Bool, true, false, ◌||◌, ◌==◌, eq_iff,
  eq_refl, List, [], ◌∷◌, map, length, All, arith, Bool-cases, inl, inr,
}
use agent_action_control.Strings.{trim_space, trim_space_idem}
use agent_action_control.Containers.{
  put, keys, sort_strings, contains, IsDistinct, IsAscending, IsAscending-eq, SameMembers,
  contains-keys-put, keys-put-IsDistinct, length-keys-put, contains-sort_strings,
  length-sort_strings, sort_strings-IsAscending,
}
use agent_action_control.Errors.{Result-cases, ok}
use agent_action_control.Domain.Normalize.{collect_strings, normalize_strings}

-- Trimmed, not empty, and of at most `most` bytes.
pub record IsLabel (most : ℕ) (s : String) : Type 0 where
  pub trimmed : trim_space s ≡ s
  pub present : s ≢ ""
  pub short : len s ≤ most

-- At most `items` labels, in ascending order and so without repetition.
pub record IsLabels (items most : ℕ) (xs : List String) : Type 0 where
  pub labels : All (IsLabel most) xs
  pub ascending : IsAscending xs
  pub few : length xs ≤ items

abbrev Map : Type 0
Map = List (String × Unit {0})

All-of_contains :
    (most : ℕ) (xs : List String)
    → ((j : String) → contains j xs ≡ true → IsLabel most j)
    → All (IsLabel most) xs
All-of_contains most [] h = tt
All-of_contains most (x ∷ xs) h =
    (h x (ground (arith, eq_refl x)), All-of_contains most xs (λ j p. h j (ground (arith, p))))

IsLabel-of_All :
    (most : ℕ) (j : String) (xs : List String)
    → All (IsLabel most) xs
    → contains j xs ≡ true
    → IsLabel most j
IsLabel-of_All most j [] h p = cc
IsLabel-of_All most j (x ∷ xs) h p = elim (Bool-cases (x == j)) [
  | inl e ↦ rw (← (eq_iff x j).0 e) h.0
  | inr e ↦ IsLabel-of_All most j xs h.1 (ground arith)
]

-- The loop succeeds exactly on slices of labels, once trimmed.
collect_strings_labels :
    (most : ℕ) (values : List String) (m r : Map)
    → collect_strings most values m ≡ ok r
    → All (IsLabel most) (map trim_space values)
unfolding collect_strings
collect_strings_labels most [] m r h = tt
collect_strings_labels most (v ∷ vs) m r h = (
  ground (arith, eq_iff (trim_space v) "", trim_space_idem v),
  collect_strings_labels most vs (put (trim_space v) tt m) r (ground arith),
)

collect_strings_total :
    (most : ℕ) (values : List String) (m : Map)
    → All (IsLabel most) values
    → (r : Map) × (collect_strings most values m ≡ ok r)
unfolding collect_strings
collect_strings_total most [] m h = (m, refl)
collect_strings_total most (v ∷ vs) m h =
    let (r, e) = collect_strings_total most vs (put (trim_space v) tt m) h.1 in
    (r, ground (arith, e, eq_iff v "", eq_iff (trim_space v) ""))

collect_strings_members :
    (most : ℕ) (j : String) (values : List String) (m r : Map)
    → collect_strings most values m ≡ ok r
    → contains j (keys r) ≡ (contains j (map trim_space values) || contains j (keys m))
unfolding collect_strings
collect_strings_members most j [] m r h = ground arith
collect_strings_members most j (v ∷ vs) m r h = ground (
  arith,
  collect_strings_members most j vs (put (trim_space v) tt m) r,
  contains-keys-put (trim_space v) j tt m,
)

collect_strings-IsDistinct :
    (most : ℕ) (values : List String) (m r : Map)
    → IsDistinct (keys m)
    → collect_strings most values m ≡ ok r
    → IsDistinct (keys r)
unfolding collect_strings
collect_strings-IsDistinct most [] m r d h = ground arith
collect_strings-IsDistinct most (v ∷ vs) m r d h =
    collect_strings-IsDistinct most vs (put (trim_space v) tt m) r
      (keys-put-IsDistinct (trim_space v) tt m d) (ground arith)

length-collect_strings :
    (most : ℕ) (values : List String) (m r : Map)
    → collect_strings most values m ≡ ok r
    → length (keys r) ≤ length values + length (keys m)
unfolding collect_strings
length-collect_strings most [] m r h = ground arith
length-collect_strings most (v ∷ vs) m r h = ground (
  arith,
  length-collect_strings most vs (put (trim_space v) tt m) r,
  length-keys-put (trim_space v) tt m,
)

or_false : (b : Bool) → (b || false) ≡ b
or_false b = ground arith

-- The loop from the empty map.
module _ (most : ℕ) (values : List String) (m : Map)
    (run : collect_strings most values [] ≡ ok m) where
  collected_members : SameMembers (sort_strings (keys m)) (map trim_space values)
  collected_members j =
      contains-sort_strings j (keys m)
      ∙ (collect_strings_members most j values [] m run
          ∙ unfold keys in or_false (contains j (map trim_space values)))

  collected-IsAscending : IsAscending (sort_strings (keys m))
  collected-IsAscending =
      sort_strings-IsAscending (keys m)
        (collect_strings-IsDistinct most values [] m (unfold keys in tt) run)

  collected-IsLabels :
      (items : ℕ) → length values ≤ items → IsLabels items most (sort_strings (keys m))
  collected-IsLabels items h = record {
    labels = All-of_contains most (sort_strings (keys m)) (λ j p.
        IsLabel-of_All most j (map trim_space values) (collect_strings_labels most values [] m run)
          (sym (collected_members j) ∙ p));
    ascending = collected-IsAscending;
    few =
        unfold keys in
        omega (arith, length-sort_strings (keys m), length-collect_strings most values [] m run);
  }

run_of_normalize_strings :
    (values : List String) (items most : ℕ) (r : List String)
    → normalize_strings values items most ≡ ok r
    → (m : Map) × (collect_strings most values [] ≡ ok m)
      × (length values ≤ items)
      × (sort_strings (keys m) ≡ r)
unfolding normalize_strings
run_of_normalize_strings values items most r h =
    elim (Result-cases (collect_strings most values [])) [
      | inl (m, run) ↦ (m, run, ground arith, ground arith)
      | inr (e, run) ↦ absurd (ground arith)
    ]

-- The result is a list of labels in ascending order, with the members of the trimmed input.
pub normalize_strings-IsLabels :
    (values : List String) (items most : ℕ) (r : List String)
    → normalize_strings values items most ≡ ok r
    → IsLabels items most r × SameMembers r (map trim_space values)
normalize_strings-IsLabels values items most r h =
    let (m, run, few, e) = run_of_normalize_strings values items most r h in
    rw (← e) (collected-IsLabels most values m run items few, collected_members most values m run)

trimmed_labels : (most : ℕ) (xs : List String) → All (IsLabel most) xs → map trim_space xs ≡ xs
trimmed_labels most [] h = refl
trimmed_labels most (x ∷ xs) h = cc (h.0.trimmed, trimmed_labels most xs h.1)

-- What is normalised already is returned as it is.
pub normalize_strings_of_IsLabels :
    (items most : ℕ) (xs : List String)
    → IsLabels items most xs
    → normalize_strings xs items most ≡ ok xs
unfolding normalize_strings
normalize_strings_of_IsLabels items most xs h =
    let (m, run) = collect_strings_total most xs [] h.labels in
    let e : sort_strings (keys m) ≡ xs =
      IsAscending-eq _ xs (collected-IsAscending most xs m run) h.ascending (λ j.
        collected_members most xs m run j ∙ ap (contains j) (trimmed_labels most xs h.labels)) in
    let few = h.few in ground (arith, run, e)

-- Two slices with the same strings, up to white space at the ends, order and repetition, are
-- normalised to the same slice, if both are accepted.
pub normalize_strings_canonical :
    (items most items' most' : ℕ) (xs ys r s : List String)
    → SameMembers (map trim_space xs) (map trim_space ys)
    → normalize_strings xs items most ≡ ok r
    → normalize_strings ys items' most' ≡ ok s
    → r ≡ s
normalize_strings_canonical items most items' most' xs ys r s same p q =
    let (u, v) = normalize_strings-IsLabels xs items most r p in
    let (u', v') = normalize_strings-IsLabels ys items' most' s q in
    IsAscending-eq r s u.ascending u'.ascending (λ j. v j ∙ (same j ∙ sym (v' j)))
