-- ===== src/Containers/Index.antt =====
-- A map that holds each value under its own key, and its values in the order of their keys: how
-- the program removes repetitions from a slice of structs.
use agent_action_control.Prelude.{
  String, ◌≡◌, refl, ap, ◌∙◌, Bool, true, false, ◌||◌, List, [], ◌∷◌, map, some, All, ◌==◌, eq_iff,
  eq_refl, suc, length, ◌≤◌, ◌+◌, Bool-cases, inl, inr, arith,
}
use agent_action_control.Containers.Sets.{
  contains, IsDistinct, IsAscending, IsAscending-IsDistinct, IsAscending-eq,
}
use agent_action_control.Containers.Maps.{
  lookup, put, keys, get_or, lookup-put, length-keys-put, contains-keys-put, lookup_of_contains,
  keys-put-IsDistinct,
}
use agent_action_control.Containers.Sorting.{
  sort_strings, contains-sort_strings, length-sort_strings, sort_strings-IsAscending,
}

module _ {ℓ} {V : Type ℓ} where
  -- `for _, key := range keys { result = append(result, unique[key]) }`
  unfoldable pub values_at : V → List String → List (String × V) → List V
  unfolding get_or
  values_at zero_value [] m = []
  values_at zero_value (k ∷ ks) m = get_or zero_value k m ∷ values_at zero_value ks m

  -- The same with the keys sorted.
  unfoldable pub sorted_values : V → List (String × V) → List V
  unfolding values_at
  sorted_values zero_value m = values_at zero_value (sort_strings (keys m)) m

or_false : (b : Bool) → (b || false) ≡ b
or_false b = ground arith

module _ {ℓ} {V : Type ℓ} (key : V → String) where
  -- Each value stands under its key, and satisfies `P`.
  abbrev pub IsIndex {κ} : (V → Type κ) → List (String × V) → Type (ℓ ⊔ κ)
  IsIndex P m = (k : String) (v : V) → lookup k m ≡ some v → (key v ≡ k) × P v

  pub put-IsIndex {κ} :
      (P : V → Type κ) (v : V) (m : List (String × V))
      → P v
      → IsIndex P m
      → IsIndex P (put (key v) v m)
  put-IsIndex P v m p h j w e = elim (Bool-cases (key v == j)) [
    | inl t ↦
        let q : v ≡ w = ground (arith, lookup-put (key v) j v m) in
        rw (← q) ((eq_iff (key v) j).0 t, p)
    | inr t ↦ h j w (ground (arith, lookup-put (key v) j v m))
  ]

  -- The keys of the values at given keys are those keys.
  keys-values_at {κ} :
      (P : V → Type κ) (zero_value : V) (ks : List String) (m : List (String × V))
      → ((k : String) → contains k ks ≡ true → contains k (keys m) ≡ true)
      → IsIndex P m
      → (map key (values_at zero_value ks m) ≡ ks) × All P (values_at zero_value ks m)
  unfolding values_at get_or
  keys-values_at P z [] m sub h = (refl, tt)
  keys-values_at P z (k ∷ ks) m sub h =
      let (v, e) = lookup_of_contains k m (sub k (ground (arith, eq_refl k))) in
      let (same, all) = keys-values_at P z ks m (λ j p. sub j (ground (arith, p))) h in
      let (q, p) = h k v e in rw (e, get_or) (cc (q, same), (p, all))

  pub sorted_values-IsAscending {κ} :
      (P : V → Type κ) (zero_value : V) (m : List (String × V))
      → IsDistinct (keys m)
      → IsIndex P m
      → (map key (sorted_values zero_value m) ≡ sort_strings (keys m))
        × IsAscending (map key (sorted_values zero_value m))
        × All P (sorted_values zero_value m)
  unfolding sorted_values
  sorted_values-IsAscending P z m d h =
      let (same, all) =
        keys-values_at P z (sort_strings (keys m)) m
          (λ k p. ground (arith, contains-sort_strings k (keys m), p)) h in
      (same, rw same (sort_strings-IsAscending (keys m) d), all)

  -- The map that a loop over a slice builds.
  unfoldable pub put_all : List V → List (String × V) → List (String × V)
  put_all [] m = m
  put_all (v ∷ vs) m = put_all vs (put (key v) v m)

  pub contains-keys-put_all :
      (j : String) (vs : List V) (m : List (String × V))
      → contains j (keys (put_all vs m)) ≡ (contains j (map key vs) || contains j (keys m))
  unfolding put_all
  contains-keys-put_all j [] m = refl
  contains-keys-put_all j (v ∷ vs) m =
      ground (arith, contains-keys-put_all j vs (put (key v) v m), contains-keys-put (key v) j v m)

  pub keys-put_all-IsDistinct :
      (vs : List V) (m : List (String × V)) → IsDistinct (keys m) → IsDistinct (keys (put_all vs m))
  unfolding put_all
  keys-put_all-IsDistinct [] m d = d
  keys-put_all-IsDistinct (v ∷ vs) m d =
      keys-put_all-IsDistinct vs (put (key v) v m) (keys-put-IsDistinct (key v) v m d)

  pub put_all-IsIndex {κ} :
      (P : V → Type κ) (vs : List V) (m : List (String × V))
      → All P vs
      → IsIndex P m
      → IsIndex P (put_all vs m)
  unfolding put_all
  put_all-IsIndex P [] m p h = h
  put_all-IsIndex P (v ∷ vs) m p h =
      put_all-IsIndex P vs (put (key v) v m) p.1 (put-IsIndex P v m p.0 h)

  length-keys-put_all :
      (vs : List V) (m : List (String × V))
      → length (keys (put_all vs m)) ≤ length vs + length (keys m)
  unfolding put_all
  length-keys-put_all [] m = omega arith
  length-keys-put_all (v ∷ vs) m =
      omega (arith, length-keys-put_all vs (put (key v) v m), length-keys-put (key v) v m)

  length-map_key : (vs : List V) → length (map key vs) ≡ length vs
  length-map_key [] = refl
  length-map_key (v ∷ vs) = ap suc (length-map_key vs)

  -- What a slice becomes: in ascending order of the keys, with the same keys, no longer than it
  -- was, and of values that satisfy what all values satisfied.
  pub record IsSortedByKey {κ} (P : V → Type κ) (vs result : List V) : Type (ℓ ⊔ κ) where
    pub ascending : IsAscending (map key result)
    pub members : All P result
    pub no_longer : length result ≤ length vs
    pub same_keys : (k : String) → contains k (map key result) ≡ contains k (map key vs)

  pub sorted_values-IsSortedByKey {κ} :
      (P : V → Type κ) (zero_value : V) (vs : List V)
      → All P vs
      → IsSortedByKey P vs (sorted_values zero_value (put_all vs []))
  sorted_values-IsSortedByKey P z vs p =
      let m = put_all vs [] in
      let (e, up, all) =
        sorted_values-IsAscending P z m (keys-put_all-IsDistinct vs [] (unfold keys in tt))
          (put_all-IsIndex P vs [] p (unfold lookup in λ k v q. cc)) in
      record {
        ascending = up;
        members = all;
        no_longer =
            unfold keys in
            omega (
              arith,
              length-map_key (sorted_values z m),
              ap length e,
              length-sort_strings (keys m),
              length-keys-put_all vs [],
            );
        same_keys = λ k.
            ap (contains k) e
            ∙ (contains-sort_strings k (keys m)
                ∙ (contains-keys-put_all k vs []
                    ∙ unfold keys in or_false (contains k (map key vs))));
      }

  lookup-put_all_other :
      (j : String) (vs : List V) (m : List (String × V))
      → contains j (map key vs) ≡ false
      → lookup j (put_all vs m) ≡ lookup j m
  unfolding put_all
  lookup-put_all_other j [] m h = refl
  lookup-put_all_other j (v ∷ vs) m h =
      ground (arith, lookup-put_all_other j vs (put (key v) v m), lookup-put (key v) j v m)

  lookup-put_all :
      (vs : List V) (m : List (String × V))
      → IsDistinct (map key vs)
      → All (λ v. lookup (key v) (put_all vs m) ≡ some v) vs
  unfolding put_all
  lookup-put_all [] m d = tt
  lookup-put_all (v ∷ vs) m d = (
    ground (
      arith,
      lookup-put_all_other (key v) vs (put (key v) v m),
      lookup-put (key v) (key v) v m,
      eq_refl (key v),
    ),
    lookup-put_all vs (put (key v) v m) d.1,
  )

  values_at_of_lookup :
      (zero_value : V) (vs : List V) (m : List (String × V))
      → All (λ v. lookup (key v) m ≡ some v) vs
      → values_at zero_value (map key vs) m ≡ vs
  unfolding values_at get_or
  values_at_of_lookup z [] m h = refl
  values_at_of_lookup z (v ∷ vs) m h = ground (arith, values_at_of_lookup z vs m h.1)

  -- Values in ascending order of their keys come back as they are.
  pub sorted_values-put_all :
      (zero_value : V) (vs : List V)
      → IsAscending (map key vs)
      → sorted_values zero_value (put_all vs []) ≡ vs
  unfolding sorted_values
  sorted_values-put_all z vs h =
      let d = IsAscending-IsDistinct (map key vs) h in
      let e : sort_strings (keys (put_all vs [])) ≡ map key vs =
        IsAscending-eq _ _
          (sort_strings-IsAscending _ (keys-put_all-IsDistinct vs [] (unfold keys in tt))) h
          (λ j.
            contains-sort_strings j (keys (put_all vs []))
            ∙ (contains-keys-put_all j vs []
                ∙ unfold keys in or_false (contains j (map key vs)))) in
      rw e (values_at_of_lookup z vs (put_all vs []) (lookup-put_all vs [] d))
