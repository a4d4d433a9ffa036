-- ===== src/Containers/Maps.antt =====
-- A Go map with string keys, as an association list. Go iterates over a map in no fixed order; here
-- the order is that of the first insertions, and whatever the program collects it then sorts.
use agent_action_control.Prelude.{
  String, ◌≡◌, refl, true, false, ◌||◌, List, [], ◌∷◌, Option, none, some, ◌==◌, eq_iff,
  if◌then◌else◌, arith, length, ◌≤◌, ◌+◌,
}
use agent_action_control.Containers.Sets.{contains, IsDistinct}

module _ {ℓ} {V : Type ℓ} where
  unfoldable pub lookup : String → List (String × V) → Option V
  lookup key [] = none
  lookup key ((found, value) ∷ rest) = if found == key then some value else lookup key rest

  -- m[k] = v
  unfoldable pub put : String → V → List (String × V) → List (String × V)
  put k v [] = (k, v) ∷ []
  put k v ((found, old) ∷ rest) = if found == k then (k, v) ∷ rest else (found, old) ∷ put k v rest

  unfoldable pub keys : List (String × V) → List String
  keys [] = []
  keys ((k, v) ∷ m) = k ∷ keys m

  -- m[k], where a missing key reads as the zero value
  unfoldable pub get_or : V → String → List (String × V) → V
  unfolding lookup
  get_or zero_value k m = elim (lookup k m) [ none ↦ zero_value | some v ↦ v ]

  pub lookup-put :
      (k j : String) (v : V) (m : List (String × V))
      → lookup j (put k v m) ≡ (if k == j then some v else lookup j m)
  unfolding lookup put
  lookup-put k j v [] = refl
  lookup-put k j v ((i, w) ∷ m) =
      ground (arith, eq_iff k j, eq_iff i k, eq_iff i j, lookup-put k j v m)

  pub contains-keys-put :
      (k j : String) (v : V) (m : List (String × V))
      → contains j (keys (put k v m)) ≡ (k == j || contains j (keys m))
  unfolding keys put
  contains-keys-put k j v [] = refl
  contains-keys-put k j v ((i, w) ∷ m) =
      ground (arith, eq_iff k j, eq_iff i k, eq_iff i j, contains-keys-put k j v m)

  pub keys-put-IsDistinct :
      (k : String) (v : V) (m : List (String × V))
      → IsDistinct (keys m)
      → IsDistinct (keys (put k v m))
  unfolding keys put
  keys-put-IsDistinct k v [] h = (refl, tt)
  keys-put-IsDistinct k v ((i, w) ∷ m) h =
      ground
        (arith, eq_iff i k, eq_iff k i, contains-keys-put k i v m, keys-put-IsDistinct k v m h.1)

  -- A key is present exactly if a lookup finds it.
  pub lookup_of_contains :
      (k : String) (m : List (String × V))
      → contains k (keys m) ≡ true
      → (v : V) × (lookup k m ≡ some v)
  unfolding lookup keys
  lookup_of_contains k [] h = cc
  lookup_of_contains k ((i, w) ∷ m) h =
      elim (i == k)
          as (λ b.
            (b || contains k (keys m)) ≡ true
            → (v : V) × ((if b then some w else lookup k m) ≡ some v)) [
              | true ↦ λ _. (w, refl)
              | false ↦ λ e. lookup_of_contains k m e
            ]
        h

  pub length-keys-put :
      (k : String) (v : V) (m : List (String × V)) → length (keys (put k v m)) ≤ length (keys m) + 1
  unfolding keys put
  length-keys-put k v [] = omega arith
  length-keys-put k v ((i, w) ∷ m) = ground (arith, length-keys-put k v m)
