-- ===== src/Domain/Canonical.antt =====
-- internal/domain/action_digest.go. SHA-256 and `time.Time.Format` are parameters; an instant is
-- all that the format depends on, since the time is in UTC.
pub mod Laws
use Prim.Native.String
use agent_action_control.Time.{utc}
use agent_action_control.Strings.{Unicode}
use agent_action_control.Errors.{◌>>=◌, ok, invalid_argument, err, Result}
use agent_action_control.Domain.ProposedAction.{rebuild, ProposedAction}
use agent_action_control.Domain.Principal.{Principal}
use agent_action_control.Prelude.{◌++◌, ◌≡◌, ◌∷◌, ℤ, true, some, none, map, len, [], String, Option}
use agent_action_control.Domain.CanonicalValue.{
  marshal, canonical_update_resource_access, canonical_external_send, canonical_delete,
  CanonicalPrincipal, CanonicalParameters, CanonicalAuthorizationEvidence, CanonicalAction,
}
use agent_action_control.Domain.Evidence.{AuthorizationEvidence}
use agent_action_control.Domain.Parameters.{
  delete, update_resource_access, external_send, ActionParameters,
}
use agent_action_control.Domain.Action.{is_lower_hex, ActionDigest}

pub record Digests : Type 0 where
  -- `hex.EncodeToString` of `sha256.Sum256`: 32 bytes, two lower-case digits each.
  pub sha256_hex : String → String
  pub sha256_hex_len : (s : String) → len (sha256_hex s) ≡ 64
  pub sha256_hex_digits : (s : String) → is_lower_hex (sha256_hex s) ≡ true
  -- `t.Format("2006-01-02T15:04:05.000000000Z")`
  pub format_instant : ℤ → String

abbrev pub canonical_action_schema_v1 : String
canonical_action_schema_v1 = "agent-action-control/action-digest/v1"

unfoldable pub canonical_principal_value : Principal → CanonicalPrincipal
canonical_principal_value principal = record { typ = principal.typ; id = principal.id }

unfoldable pub canonical_parameters : Option ActionParameters → Result CanonicalParameters
canonical_parameters (some (external_send value)) = ok (
    canonical_external_send
      (record { destination_scope = value.destination_scope; recipients = value.recipients }))
canonical_parameters (some (update_resource_access value)) = ok (
    canonical_update_resource_access (record {
      current_scope = value.current_scope;
      requested_scope = value.requested_scope;
      target_principals = map canonical_principal_value value.target_principals;
    }))
canonical_parameters (some (delete value)) =
    ok (canonical_delete (record { delete_mode = value.mode; recoverable = value.recoverable }))
canonical_parameters none = err (invalid_argument ∷ [])

unfoldable pub canonical_evidence : AuthorizationEvidence → CanonicalAuthorizationEvidence
canonical_evidence evidence = record {
  typ = evidence.typ;
  evidence_id = evidence.id;
  issued_by = canonical_principal_value evidence.issued_by;
  scope = record {
    action_type = evidence.scope.action_type;
    destination_scope = evidence.scope.destination_scope;
    requested_scope = evidence.scope.requested_scope;
    delete_mode = evidence.scope.delete_mode;
  };
}

module _ ⦃u : Unicode⦄ ⦃d : Digests⦄ where
  -- The value that `CanonicalActionBytes` marshals.
  unfoldable pub canonical_action : ProposedAction → Result CanonicalAction
  canonical_action action = do
    normalized ← rebuild action
    parameters ← canonical_parameters normalized.parameters
    ok (record {
      schema = canonical_action_schema_v1;
      typ = normalized.typ;
      requested_at = d.format_instant (utc normalized.requested_at).instant;
      actor = record {
        agent_id = normalized.actor.agent_id;
        runtime_id = normalized.actor.runtime_id;
        session_id = normalized.actor.session_id;
      };
      delegation = record {
        id = normalized.delegation.id;
        delegator = canonical_principal_value normalized.delegation.delegator;
      };
      target = record {
        resource_type = normalized.target.resource_type;
        resource_id = normalized.target.resource_id;
      };
      parameters = parameters;
      payload = record {
        digest = normalized.payload.digest;
        classification = normalized.payload.classification;
        size_bytes = normalized.payload.size_bytes;
      };
      authorization_evidence = map canonical_evidence normalized.evidence;
    })

  -- Marshalling values of these types does not fail.
  unfoldable pub canonical_action_bytes : ProposedAction → Result String
  canonical_action_bytes action = do value ← canonical_action action; ok (marshal value)

  unfoldable pub compute_action_digest : ProposedAction → Result ActionDigest
  compute_action_digest action = do
    canonical ← canonical_action_bytes action
    ok (String.◌++◌ "sha256:" (d.sha256_hex canonical))
