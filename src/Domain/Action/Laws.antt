-- ===== src/Domain/Action/Laws.antt =====
-- What the constructors of action types, digests and actors guarantee.
use agent_action_control.Prelude.{String, ◌≡◌, true, arith}
use agent_action_control.Strings.{trim_space}
use agent_action_control.Errors.{ok}
use agent_action_control.Domain.Identifier.{
  IsIdentifier, IsOptionalIdentifier, normalize_required_identifier-IsIdentifier,
  normalize_required_identifier_of_IsIdentifier, normalize_optional_identifier-IsOptionalIdentifier,
  normalize_optional_identifier_of_IsOptionalIdentifier, not-is_blank_of_IsIdentifier,
}
use agent_action_control.Domain.Action.{
  parse_action_digest, action_digest_valid, Actor, new_actor, actor_valid, parse_payload_digest,
  payload_digest_valid,
}

pub record IsActor (a : Actor) : Type 0 where
  pub agent : IsIdentifier a.agent_id
  pub runtime : IsIdentifier a.runtime_id
  pub session : IsOptionalIdentifier a.session_id

pub new_actor-IsActor :
    (agent runtime session : String) (a : Actor)
    → new_actor agent runtime session ≡ ok a
    → IsActor a
      × (a.agent_id ≡ trim_space agent)
      × (a.runtime_id ≡ trim_space runtime)
      × (a.session_id ≡ trim_space session)
unfolding new_actor
new_actor-IsActor agent runtime session a h = ground (
  arith,
  normalize_required_identifier-IsIdentifier agent a.agent_id,
  normalize_required_identifier-IsIdentifier runtime a.runtime_id,
  normalize_optional_identifier-IsOptionalIdentifier session a.session_id,
)

pub new_actor_of_IsActor :
    (a : Actor) → IsActor a → new_actor a.agent_id a.runtime_id a.session_id ≡ ok a
unfolding new_actor
new_actor_of_IsActor a h = ground (
  arith,
  normalize_required_identifier_of_IsIdentifier a.agent_id h.agent,
  normalize_required_identifier_of_IsIdentifier a.runtime_id h.runtime,
  normalize_optional_identifier_of_IsOptionalIdentifier a.session_id h.session,
)

pub actor_valid_of_IsActor : (a : Actor) → IsActor a → actor_valid a ≡ true
unfolding actor_valid
actor_valid_of_IsActor a h = ground (
  arith,
  not-is_blank_of_IsIdentifier a.agent_id h.agent,
  not-is_blank_of_IsIdentifier a.runtime_id h.runtime,
)

pub parse_payload_digest-valid :
    (value : String) (d : String)
    → parse_payload_digest value ≡ ok d
    → (d ≡ value) × (payload_digest_valid d ≡ true)
unfolding parse_payload_digest payload_digest_valid
parse_payload_digest-valid value d h = ground arith

pub parse_payload_digest_of_valid :
    (value : String) → payload_digest_valid value ≡ true → parse_payload_digest value ≡ ok value
unfolding parse_payload_digest payload_digest_valid
parse_payload_digest_of_valid value h = ground arith

pub parse_action_digest_of_valid :
    (value : String) → action_digest_valid value ≡ true → parse_action_digest value ≡ ok value
unfolding parse_action_digest action_digest_valid
parse_action_digest_of_valid value h = ground arith
