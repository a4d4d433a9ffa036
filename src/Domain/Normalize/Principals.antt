-- ===== src/Domain/Normalize/Principals.antt =====
-- The result of `normalizePrincipals`.
use agent_action_control.Prelude.{
  String, ◌≡◌, ◌≤◌, refl, List, [], ◌∷◌, map, length, All, arith, inl, inr,
}
use agent_action_control.Containers.{
  put, IsAscending, put_all, sorted_values, IsSortedByKey, sorted_values-IsSortedByKey,
  sorted_values-put_all,
}
use agent_action_control.Errors.{ok, Result-cases}
use agent_action_control.Domain.Principal.{Principal}
use agent_action_control.Domain.Principal.Laws.{IsPrincipal, principal_valid_of_IsPrincipal}
use agent_action_control.Domain.Normalize.{
  principal_key, zero_principal, collect_principals, normalize_principals,
}

-- At most 100 principals, in ascending order of their keys and so without repetition.
pub record IsPrincipals (ps : List Principal) : Type 0 where
  pub principals : All IsPrincipal ps
  pub ascending : IsAscending (map principal_key ps)
  pub few : length ps ≤ 100

collect_principals-put_all :
    (values : List Principal) (m r : List (String × Principal))
    → collect_principals values m ≡ ok r
    → put_all principal_key values m ≡ r
unfolding collect_principals put_all
collect_principals-put_all [] m r h = ground arith
collect_principals-put_all (p ∷ ps) m r h =
    collect_principals-put_all ps (put (principal_key p) p m) r (ground arith)

collect_principals_total :
    (values : List Principal) (m : List (String × Principal))
    → All IsPrincipal values
    → collect_principals values m ≡ ok (put_all principal_key values m)
unfolding collect_principals put_all
collect_principals_total [] m h = refl
collect_principals_total (p ∷ ps) m h = ground (
  arith,
  collect_principals_total ps (put (principal_key p) p m) h.1,
  principal_valid_of_IsPrincipal p h.0,
)

normalize_principals-eq-sorted_values :
    (values r : List Principal)
    → normalize_principals values ≡ ok r
    → (sorted_values zero_principal (put_all principal_key values []) ≡ r) × (length values ≤ 100)
unfolding normalize_principals
normalize_principals-eq-sorted_values values r h =
    elim (Result-cases (collect_principals values [])) [
      | inl (m, run) ↦ ground (arith, collect_principals-put_all values [] m run)
      | inr (e, run) ↦ absurd (ground arith)
    ]

pub normalize_principals-IsPrincipals :
    (values r : List Principal)
    → All IsPrincipal values
    → normalize_principals values ≡ ok r
    → IsPrincipals r × IsSortedByKey principal_key IsPrincipal values r
normalize_principals-IsPrincipals values r all h =
    let (q, small) = normalize_principals-eq-sorted_values values r h in
    let s = sorted_values-IsSortedByKey principal_key IsPrincipal zero_principal values all in
    let few = s.no_longer in
    rw (← q) (record { principals = s.members; ascending = s.ascending; few = omega arith }, s)

pub normalize_principals_of_IsPrincipals :
    (ps : List Principal) → IsPrincipals ps → normalize_principals ps ≡ ok ps
unfolding normalize_principals
normalize_principals_of_IsPrincipals ps h =
    let few = h.few in
    ground (
      arith,
      collect_principals_total ps [] h.principals,
      sorted_values-put_all principal_key zero_principal ps h.ascending,
    )
