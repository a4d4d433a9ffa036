-- ===== src/Auth/Laws.antt =====
-- Which runtimes a credential can authenticate.
use agent_action_control.Strings.{trim_space_idem, trim_space}
use agent_action_control.Containers.{lookup-put, put, lookup}
use agent_action_control.Auth.{
  authenticate, register_runtimes, new_static_runtime_authenticator, find_runtime,
  StaticRuntimeAuthenticator,
}
use agent_action_control.Errors.{ok, Result-cases}
use agent_action_control.Domain.Identifier.{IsIdentifier}
use agent_action_control.Application.Runtime.{
  new_authenticated_runtime-IsIdentifier, new_authenticated_runtime, AuthenticatedRuntime,
}
use agent_action_control.Prelude.{
  ◌∙◌, eq_iff, ◌⊎◌, ◌≡◌, ◌∷◌, ◌||◌, true, some, inr, inl, false, arith, [], String, Option-cases,
  List, Bool-cases, Bool, ◌==◌, ◌&&◌,
}

-- An entry for the credential, which names the runtime.
abbrev pub names_runtime : String → String → List (String × String) → Bool
names_runtime credential id [] = false
names_runtime credential id ((token, runtime_id) ∷ entries) =
    (trim_space token == credential && trim_space runtime_id == id)
    || names_runtime credential id entries

new_authenticated_runtime-trim :
    (id : String) (r : AuthenticatedRuntime)
    → new_authenticated_runtime id ≡ ok r
    → r.runtime_id ≡ trim_space id
unfolding new_authenticated_runtime
new_authenticated_runtime-trim id r h = ground arith

register_runtimes-names_runtime :
    (entries values result : List (String × String)) (k id : String)
    → register_runtimes entries values ≡ ok result
    → lookup k result ≡ some id
    → (lookup k values ≡ some id) ⊎ (names_runtime k id entries ≡ true)
unfolding register_runtimes
register_runtimes-names_runtime [] values result k id h l = inl (ground arith)
register_runtimes-names_runtime ((token, runtime_id) ∷ entries) values result k id h l =
    elim (Result-cases (new_authenticated_runtime runtime_id)) [
      | inr (e, q) ↦ absurd (ground arith)
      | inl (r, q) ↦
          elim (register_runtimes-names_runtime entries (put (trim_space token) r.runtime_id values)
            result k id (ground arith) l) [
              | inr m ↦ inr (ground arith)
              | inl m ↦ elim (Bool-cases (trim_space token == k)) [
                | inr n ↦ inl (ground (arith, lookup-put (trim_space token) k r.runtime_id values))
                | inl n ↦ inr (
                    ground (
                      arith,
                      lookup-put (trim_space token) k r.runtime_id values,
                      new_authenticated_runtime-trim runtime_id r q,
                      eq_iff (trim_space runtime_id) id,
                    ))
              ]
            ]
    ]

named_of :
    (entries result : List (String × String)) (k id : String)
    → register_runtimes entries [] ≡ ok result
    → lookup k result ≡ some id
    → names_runtime k id entries ≡ true
unfolding lookup
named_of entries result k id h l =
    elim (register_runtimes-names_runtime entries [] result k id h l) [
      | inl m ↦ absurd (ground arith)
      | inr m ↦ m
    ]

names_runtime-trimmed :
    (k id : String) (entries : List (String × String))
    → names_runtime k id entries ≡ true
    → trim_space id ≡ id
names_runtime-trimmed k id [] h = absurd (ground arith)
names_runtime-trimmed k id ((token, runtime_id) ∷ entries) h =
    elim (Bool-cases (names_runtime k id entries)) [
      | inl n ↦ names_runtime-trimmed k id entries n
      | inr n ↦
          let q : trim_space runtime_id ≡ id = ground (arith, eq_iff (trim_space runtime_id) id) in
          rw (← q, trim_space_idem runtime_id)
    ]

-- A credential authenticates no runtime but one that was configured for it, whatever the order of
-- the configuration: some entry has the trimmed credential as its trimmed token and names the
-- runtime, whose identifier is trimmed, of at most 256 bytes and not empty.
pub authenticate-IsIdentifier :
    (entries : List (String × String)) (a : StaticRuntimeAuthenticator) (credential : String)
    (r : AuthenticatedRuntime)
    → new_static_runtime_authenticator entries ≡ ok a
    → authenticate (some a) credential ≡ ok r
    → IsIdentifier r.runtime_id
      × (names_runtime (trim_space credential) r.runtime_id entries ≡ true)
unfolding new_static_runtime_authenticator authenticate find_runtime
authenticate-IsIdentifier entries a credential r h k =
    elim (Result-cases (register_runtimes entries [])) [
      | inr (e, q) ↦ absurd (ground arith)
      | inl (values, q) ↦ elim (Option-cases (lookup (trim_space credential) values)) [
        | inl n ↦ absurd (ground arith)
        | inr (id, n) ↦
            let built : new_authenticated_runtime id ≡ ok r = ground arith in
            let named : names_runtime (trim_space credential) id entries ≡ true =
              named_of entries values (trim_space credential) id q n in
            let same_id : r.runtime_id ≡ id =
              new_authenticated_runtime-trim id r built
              ∙ names_runtime-trimmed (trim_space credential) id entries named in
            (new_authenticated_runtime-IsIdentifier id r built, rw same_id named)
      ]
    ]
