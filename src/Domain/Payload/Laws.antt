-- ===== src/Domain/Payload/Laws.antt =====
-- The constructor `NewPayloadFacts`.
use agent_action_control.Prelude.{ℤ, map, String, ◌≡◌, true, false, List, Option, arith}
use agent_action_control.Strings.{trim_space}
use agent_action_control.Containers.{SameMembers}
use agent_action_control.Errors.{ok}
use agent_action_control.Domain.Normalize.Strings.{
  IsLabels, normalize_strings-IsLabels, normalize_strings_of_IsLabels,
}
use agent_action_control.Domain.Action.{payload_digest_valid}
use agent_action_control.Domain.Payload.{
  PayloadFacts, has_negative_size, new_payload_facts, payload_valid,
}

pub record IsPayload (p : PayloadFacts) : Type 0 where
  pub digested : payload_digest_valid p.digest ≡ true
  pub labels : IsLabels 32 128 p.classification
  pub sized : has_negative_size p.size_bytes ≡ false

pub new_payload_facts-IsPayload :
    (digest : String) (classification : List String) (size : Option ℤ) (p : PayloadFacts)
    → new_payload_facts digest classification size ≡ ok p
    → IsPayload p
      × (p.digest ≡ digest)
      × (p.size_bytes ≡ size)
      × SameMembers p.classification (map trim_space classification)
unfolding new_payload_facts
new_payload_facts-IsPayload digest classification size p h = (
  record {
    digested = ground arith;
    labels = (normalize_strings-IsLabels classification 32 128 p.classification (ground arith)).0;
    sized = ground arith;
  },
  ground arith,
  ground arith,
  (normalize_strings-IsLabels classification 32 128 p.classification (ground arith)).1,
)

pub new_payload_facts_of_IsPayload :
    (p : PayloadFacts)
    → IsPayload p
    → new_payload_facts p.digest p.classification p.size_bytes ≡ ok p
unfolding new_payload_facts
new_payload_facts_of_IsPayload p h =
    ground
      (arith, h.digested, h.sized, normalize_strings_of_IsLabels 32 128 p.classification h.labels)

pub payload_valid_of_IsPayload : (p : PayloadFacts) → IsPayload p → payload_valid p ≡ true
unfolding payload_valid
payload_valid_of_IsPayload p h = ground (arith, new_payload_facts_of_IsPayload p h)
