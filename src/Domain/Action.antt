-- ===== src/Domain/Action.antt =====
-- internal/domain/proposed_action.go: action types, digests, actors.
pub mod Laws
use Prim.Native.String
use agent_action_control.Prelude.{
  String, len, code, ℕ, Bool, true, false, not, ◌||◌, ◌&&◌, ltb, leb, eqb, ◌==◌, [], ◌∷◌,
  if◌then◌else◌,
}
use agent_action_control.Strings.{has_prefix, trim_prefix}
use agent_action_control.Errors.{
  Result, ok, err, ◌>>=◌, ◌>>◌, refuse_if, succeeds, invalid_action_type, invalid_digest,
}
use agent_action_control.Domain.Identifier.{
  is_blank, normalize_required_identifier, normalize_optional_identifier,
}

abbrev pub ActionType : Type 0
ActionType = String

abbrev pub action_external_send : ActionType
action_external_send = "EXTERNAL_SEND"

abbrev pub action_update_resource_access : ActionType
action_update_resource_access = "UPDATE_RESOURCE_ACCESS"

abbrev pub action_delete : ActionType
action_delete = "DELETE"

unfoldable pub action_type_valid : ActionType → Bool
action_type_valid typ =
    typ == action_external_send || typ == action_update_resource_access || typ == action_delete

unfoldable pub parse_action_type : String → Result ActionType
parse_action_type value =
    if action_type_valid value then ok value else err (invalid_action_type ∷ [])

-- The loop over the characters behind the prefix.
unfoldable pub is_lower_hex : String → Bool
is_lower_hex String.[] = true
is_lower_hex (String.◌∷◌ c s) =
    let c = code c in
    let rest = is_lower_hex s in
    if (ltb c b'a' || ltb b'f' c) && (ltb c b'0' || ltb b'9' c) then false else rest

unfoldable pub validate_sha256_digest : String → Result (Unit {0})
unfolding is_lower_hex
validate_sha256_digest value =
    if not (eqb (len value) 71) || not (has_prefix value "sha256:")
    then err (invalid_digest ∷ [])
    else if is_lower_hex (trim_prefix value "sha256:")
    then ok tt
    else err (invalid_digest ∷ [])

abbrev pub ActionDigest : Type 0
ActionDigest = String

unfoldable pub parse_action_digest : String → Result ActionDigest
parse_action_digest value = do validate_sha256_digest value; ok value

unfoldable pub action_digest_valid : ActionDigest → Bool
unfolding parse_action_digest
action_digest_valid digest = succeeds (parse_action_digest digest)

abbrev pub PayloadDigest : Type 0
PayloadDigest = String

unfoldable pub parse_payload_digest : String → Result PayloadDigest
parse_payload_digest value = do validate_sha256_digest value; ok value

unfoldable pub payload_digest_valid : PayloadDigest → Bool
unfolding parse_payload_digest
payload_digest_valid digest = succeeds (parse_payload_digest digest)

pub record Actor : Type 0 where
  pub agent_id : String
  pub runtime_id : String
  pub session_id : String

unfoldable pub new_actor : String → String → String → Result Actor
new_actor agent_id runtime_id session_id = do
  agent_id ← normalize_required_identifier agent_id
  runtime_id ← normalize_required_identifier runtime_id
  session_id ← normalize_optional_identifier session_id
  ok (record { agent_id = agent_id; runtime_id = runtime_id; session_id = session_id })

unfoldable pub actor_valid : Actor → Bool
actor_valid actor = not (is_blank actor.agent_id) && not (is_blank actor.runtime_id)
