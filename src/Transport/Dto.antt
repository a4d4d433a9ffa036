-- ===== src/Transport/Dto.antt =====
-- The structs of internal/transport/http/dto.go, their strict decoding by the field tags, and
-- `Validate`. The text of a time is read by a parameter.
use agent_action_control.Prelude.{
  ◌∷◌, ℤ, ◌||◌, true, not, length, if◌then◌else◌, false, eqb, [], String, Option, List, Bool, ◌==◌,
  ◌&&◌,
}
use agent_action_control.Errors.{◌>>◌, ok, err, Result, refuse_if}
use agent_action_control.Json.{Json}
use agent_action_control.Time.{Time}

abbrev pub api_version_v1 : String
api_version_v1 = "v1"

-- `time.Time.UnmarshalJSON` on the text of a string.
pub record JsonTimes : Type 0 where
  pub read_time : String → Result Time

pub record DtoActor : Type 0 where
  pub agent_id : String
  pub runtime_id : String
  pub session_id : String

pub record DtoPrincipal : Type 0 where
  pub typ : String
  pub id : String

pub record DtoDelegation : Type 0 where
  pub delegation_id : String
  pub delegator : DtoPrincipal

pub record DtoTarget : Type 0 where
  pub resource_type : String
  pub resource_id : String

pub record DtoPayload : Type 0 where
  pub digest : String
  pub classification : List String
  pub size_bytes : Option ℤ

pub record DtoScope : Type 0 where
  pub action_type : String
  pub destination_scope : String
  pub requested_scope : String
  pub delete_mode : String

pub record DtoEvidence : Type 0 where
  pub typ : String
  pub evidence_id : String
  pub issued_by : DtoPrincipal
  pub scope : DtoScope

pub record DtoAction : Type 0 where
  pub typ : String
  pub requested_at : Time
  pub actor : DtoActor
  pub delegation : DtoDelegation
  pub target : DtoTarget
  pub parameters : Option Json
  pub payload : DtoPayload
  pub authorization_evidence : List DtoEvidence

pub record EvaluateActionRequest : Type 0 where
  pub api_version : String
  pub request_id : String
  pub proposed_action : DtoAction

pub record DtoExternalSend : Type 0 where
  pub destination_scope : String
  pub recipients : List String

pub record DtoUpdateResourceAccess : Type 0 where
  pub current_scope : String
  pub requested_scope : String
  pub target_principals : List DtoPrincipal

pub record DtoDelete : Type 0 where
  pub delete_mode : String
  pub recoverable : Bool

pub record DecisionResponse : Type 0 where
  pub api_version : String
  pub request_id : String
  pub decision_id : String
  pub action_digest : String
  pub decision : String
  pub reason_codes : List String
  -- the types of the required actions
  pub required_actions : List String
  -- the version of the policy
  pub policy : String
  pub evaluated_at : Time

-- The loop that looks for the reason.
unfoldable pub has_approval_reason : List String → Bool
has_approval_reason [] = false
has_approval_reason (reason ∷ reasons) =
    reason == "DELEGATOR_APPROVAL_REQUIRED" || has_approval_reason reasons

-- The loop over the required actions.
unfoldable pub check_required_actions : List String → Result (Unit {0})
check_required_actions [] = ok tt
check_required_actions (typ ∷ typs) =
    let rest = check_required_actions typs in if typ == "REQUIRE_APPROVAL" then rest else err []

abbrev pub differ : Bool → Bool → Bool
differ true b = not b
differ false b = b

-- the method `Validate`
unfoldable pub validate_response : DecisionResponse → Result (Unit {0})
validate_response r =
    if not (r.api_version == api_version_v1)
    then err []
    else if not (r.decision == "ALLOW") && not (r.decision == "DENY")
    then err []
    else if r.decision == "ALLOW"
    then (if not (eqb (length r.reason_codes) 0)
        then err []
        else if not (eqb (length r.required_actions) 0)
        then err []
        else ok tt)
    else if eqb (length r.reason_codes) 0
    then err []
    else (do
      check_required_actions r.required_actions
      refuse_if (differ (has_approval_reason r.reason_codes) (eqb (length r.required_actions) 1))
          [])
