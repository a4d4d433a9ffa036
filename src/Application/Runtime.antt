-- ===== src/Application/Runtime.antt =====
-- internal/application/runtime_context.go.
use agent_action_control.Prelude.{String, len, ◌≡◌, ltb, ◌==◌, eq_iff, [], ◌∷◌, arith}
use agent_action_control.Strings.{trim_space, trim_space_idem}
use agent_action_control.Errors.{Result, ok, ◌>>◌, refuse_if, invalid_input}
use agent_action_control.Domain.Identifier.{IsIdentifier}

pub record AuthenticatedRuntime : Type 0 where
  pub runtime_id : String

unfoldable pub new_authenticated_runtime : String → Result AuthenticatedRuntime
new_authenticated_runtime runtime_id = do
  let runtime_id = trim_space runtime_id
  refuse_if (runtime_id == "") (invalid_input ∷ [])
  refuse_if (ltb 256 (len runtime_id)) (invalid_input ∷ [])
  ok (record { runtime_id = runtime_id })

pub new_authenticated_runtime-IsIdentifier :
    (id : String) (r : AuthenticatedRuntime)
    → new_authenticated_runtime id ≡ ok r
    → IsIdentifier r.runtime_id
unfolding new_authenticated_runtime
new_authenticated_runtime-IsIdentifier id r h =
    ground (arith, trim_space_idem id, eq_iff (trim_space id) "")
