-- ===== src/Auth.antt =====
-- internal/auth/runtime.go. A Go map is its entries in the order in which a loop happens to meet
-- them, so that what is proved for every list holds for every order.
pub mod Laws
use agent_action_control.Strings.{trim_space}
use agent_action_control.Containers.{put, lookup}
use agent_action_control.Errors.{
  refuse_if, ◌>>◌, ◌>>=◌, ok, invalid_input, err, credential_missing, credential_invalid, Result,
}
use agent_action_control.Application.Runtime.{new_authenticated_runtime, AuthenticatedRuntime}
use agent_action_control.Prelude.{List, ◌∷◌, some, none, length, eqb, [], String, Option, ◌==◌}

unfoldable pub register_runtimes :
    List (String × String) → List (String × String) → Result (List (String × String))
register_runtimes [] values = ok values
register_runtimes ((token, runtime_id) ∷ entries) values = do
  let token = trim_space token
  refuse_if (token == "") (invalid_input ∷ [])
  runtime ← new_authenticated_runtime runtime_id
  register_runtimes entries (put token runtime.runtime_id values)

pub record StaticRuntimeAuthenticator : Type 0 where
  pub runtimes_by_token : List (String × String)

unfoldable pub new_static_runtime_authenticator :
    List (String × String) → Result StaticRuntimeAuthenticator
new_static_runtime_authenticator runtimes_by_token = do
  refuse_if (eqb (length runtimes_by_token) 0) (invalid_input ∷ [])
  values ← register_runtimes runtimes_by_token []
  ok (record { runtimes_by_token = values })

unfoldable pub find_runtime : Option String → Result AuthenticatedRuntime
find_runtime none = err (credential_invalid ∷ [])
find_runtime (some runtime_id) = new_authenticated_runtime runtime_id

-- The authenticator is a pointer, and `none` is its nil.
unfoldable pub authenticate :
    Option StaticRuntimeAuthenticator → String → Result AuthenticatedRuntime
authenticate authenticator credential = do
  let credential = trim_space credential
  refuse_if (credential == "") (credential_missing ∷ [])
  elim authenticator [
    | none ↦ err (credential_invalid ∷ [])
    | some a ↦ find_runtime (lookup credential a.runtimes_by_token)
  ]
