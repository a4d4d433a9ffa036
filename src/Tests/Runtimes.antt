-- ===== src/Tests/Runtimes.antt =====
-- Credentials.
use agent_action_control.Errors.{ok}
use agent_action_control.Application.Runtime.{new_authenticated_runtime}
use agent_action_control.Containers.{put, lookup}
use agent_action_control.Strings.{keep, trim_space, trim_right, trim_left, is_space}
use agent_action_control.Auth.Laws.{names_runtime, authenticate-IsIdentifier}
use agent_action_control.Auth.{
  authenticate, register_runtimes, new_static_runtime_authenticator, find_runtime,
  StaticRuntimeAuthenticator,
}
use agent_action_control.Prelude.{◌≡◌, ◌∷◌, true, some, refl, [], String, List}
use agent_action_control.Domain.Identifier.{IsIdentifier}

abbrev configured : List (String × String)
configured = (" t-1 ", "rt-1") ∷ ("t-2", " rt-2 ") ∷ []

abbrev authenticator : StaticRuntimeAuthenticator
authenticator = record { runtimes_by_token = ("t-1", "rt-1") ∷ ("t-2", "rt-2") ∷ [] }

configured_run : new_static_runtime_authenticator configured ≡ ok authenticator
unfolding new_static_runtime_authenticator register_runtimes new_authenticated_runtime put
    trim_space trim_left trim_right keep is_space
configured_run = refl

authenticate_run : authenticate (some authenticator) "t-2 " ≡ ok (record { runtime_id = "rt-2" })
unfolding authenticate find_runtime new_authenticated_runtime lookup trim_space trim_left trim_right
    keep is_space
authenticate_run = refl

authenticate-IsIdentifier_example :
    IsIdentifier "rt-2" × (names_runtime (trim_space "t-2 ") "rt-2" configured ≡ true)
authenticate-IsIdentifier_example =
    authenticate-IsIdentifier configured authenticator "t-2 " (record { runtime_id = "rt-2" })
      configured_run authenticate_run
