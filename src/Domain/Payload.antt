-- ===== src/Domain/Payload.antt =====
-- internal/domain/payload_facts.go. A size is an `int64`, so it may be negative.
pub mod Laws
use agent_action_control.Prelude.{
  ℤ, is_negative, String, ℕ, Bool, not, List, [], ◌∷◌, Option, none, some, if◌then◌else◌, true,
  false,
}
use agent_action_control.Errors.{
  Result, ok, err, ◌>>=◌, ◌>>◌, refuse_if, hide, succeeds, invalid_digest, invalid_argument,
}
use agent_action_control.Domain.Normalize.{normalize_strings}
use agent_action_control.Domain.Action.{PayloadDigest, payload_digest_valid}

pub record PayloadFacts : Type 0 where
  pub digest : PayloadDigest
  pub classification : List String
  pub size_bytes : Option ℤ

-- `sizeBytes != nil && *sizeBytes < 0`
abbrev pub has_negative_size : Option ℤ → Bool
has_negative_size none = false
has_negative_size (some size) = is_negative size

unfoldable pub new_payload_facts : PayloadDigest → List String → Option ℤ → Result PayloadFacts
new_payload_facts digest classification size_bytes = do
  refuse_if (not (payload_digest_valid digest)) (invalid_digest ∷ [])
  labels ← hide invalid_argument (normalize_strings classification 32 128)
  refuse_if (has_negative_size size_bytes) (invalid_argument ∷ [])
  ok (record { digest = digest; classification = labels; size_bytes = size_bytes })

unfoldable pub payload_valid : PayloadFacts → Bool
payload_valid payload =
    succeeds (new_payload_facts payload.digest payload.classification payload.size_bytes)
