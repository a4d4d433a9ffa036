-- ===== src/Tests/Fixtures.antt =====
-- The inputs that the tests share: a case table that knows ASCII alone, a digest, and actions with
-- the inputs that they are the normal forms of.
use agent_action_control.Errors.{traverse, ok}
use agent_action_control.Domain.Payload.{payload_valid, new_payload_facts}
use agent_action_control.Containers.{
  lookup, get_or, values_at, sorted_values, sort_strings, put, keys,
}
use agent_action_control.Json.Numbers.{number_text}
use agent_action_control.Time.{utc, is_zero}
use agent_action_control.Domain.Parameters.{
  parse_delete_mode, new_delete_parameters, delete, delete_hard, validate_parameters,
  parse_destination_scope, parameters_type, new_external_send_parameters, external_send,
  destination_external,
}
use agent_action_control.Domain.Principal.{
  principal_runtime, target_valid, principal_valid, principal_user, principal_type_valid,
  new_target, new_principal, new_delegation, delegation_valid,
}
use agent_action_control.Domain.Normalize.{normalize_strings, collect_strings}
use agent_action_control.Domain.Evidence.{
  conflicts, scope_valid, parse_authorization_evidence_type, new_authorization_scope,
  new_authorization_evidence, evidence_valid, evidence_key, evidence_user_instruction,
  evidence_delegation_grant, AuthorizationScope, AuthorizationEvidence,
  normalize_authorization_evidence, collect_evidence,
}
use agent_action_control.Domain.Action.{
  action_delete, validate_sha256_digest, payload_digest_valid, parse_payload_digest, new_actor,
  is_lower_hex, actor_valid, action_type_valid, action_external_send,
}
use agent_action_control.Strings.{
  less, keep, trim_space, trim_right, trim_prefix, trim_left, to_upper, is_space, has_prefix,
  cut_prefix, ascii_upper, Unicode,
}
use agent_action_control.Application.Normalizer.{
  normalize_authorization_scope, normalize_evidence_item, delete_input, AuthorizationEvidenceInput,
  normalize, normalize_principal, normalize_parameters, normalize_evidence, normalize_action,
  input_type, external_send_input, build_parameters, ProposedActionInput,
}
use agent_action_control.Domain.ProposedAction.{
  new_proposed_action, check_parameters, ProposedAction,
}
use agent_action_control.Domain.Identifier.{
  normalize_required_identifier, normalize_optional_identifier, is_blank, IsIdentifier,
}
use agent_action_control.Domain.Canonical.{Digests}
use agent_action_control.Application.Runtime.{AuthenticatedRuntime}
use agent_action_control.Prelude.{
  List, ◌⊎◌, ◌≡◌, ◌∷◌, ℕ, true, some, refl, pos, leb, inr, inl, false, eq_iff, code, arith, [],
  String, Char, Bool, ◌<◌, ◌-◌, ◌&&◌,
}
use Prim.Native.Nat.{compare, Ordering}
use Prim.Native.Char.{char, IsScalar}

abbrev pub is_lower : ℕ → Bool
is_lower n = leb b'a' n && leb n b'z'

pub IsScalar-of_lt : (n : ℕ) → n < 128 → IsScalar n
IsScalar-of_lt n h = let e : compare n 55296 ≡ Ordering.lt = ground arith in rw e tt

pub lower_lt : (n : ℕ) → is_lower n ≡ true → n - 32 < 128
lower_lt n h = ground arith

abbrev pub split : (b : Bool) → (b ≡ true) ⊎ (b ≡ false)
split true = inl refl
split false = inr refl

abbrev pub upper_by : (c : Char) → (is_lower (code c) ≡ true) ⊎ (is_lower (code c) ≡ false) → Char
upper_by c (inl h) = char (code c - 32) (IsScalar-of_lt (code c - 32) (lower_lt (code c) h))
upper_by c (inr h) = c

abbrev pub upper_char : Char → Char
upper_char c = upper_by c (split (is_lower (code c)))

pub upper_by-code :
    (c : Char) (h : (is_lower (code c) ≡ true) ⊎ (is_lower (code c) ≡ false))
    → code (upper_by c h) ≡ ascii_upper (code c)
upper_by-code c (inl h) = ground arith
upper_by-code c (inr h) = ground arith

pub upper_by_same :
    (c : Char) (h : (is_lower (code c) ≡ true) ⊎ (is_lower (code c) ≡ false))
    → is_lower (code c) ≡ false
    → upper_by c h ≡ c
upper_by_same c (inl h) k = absurd (ground arith)
upper_by_same c (inr h) k = refl

pub upper_char-is_lower : (c : Char) → is_lower (code (upper_char c)) ≡ false
upper_char-is_lower c = ground (arith, upper_by-code c (split (is_lower (code c))))

pub upper_char-is_space : (c : Char) → is_space (code (upper_char c)) ≡ is_space (code c)
unfolding is_space
upper_char-is_space c = rw (upper_by-code c (split (is_lower (code c)))) (ground arith)

instance abbrev pub ascii : Unicode
ascii = record {
  upper = upper_char;
  upper_ascii = λ c h. upper_by-code c (split (is_lower (code c)));
  upper_idem = λ c.
      upper_by_same (upper_char c) (split (is_lower (code (upper_char c)))) (upper_char-is_lower c);
  upper_space = upper_char-is_space;
}

abbrev pub sixty_four : String
sixty_four = "0123456789abcdef0123456789abcdef0123456789abcdef0123456789abcdef"

pub sixty_four_digits : is_lower_hex sixty_four ≡ true
unfolding is_lower_hex
sixty_four_digits = refl

instance abbrev pub digests : Digests
digests = record {
  sha256_hex = λ s. sixty_four;
  sha256_hex_len = λ s. refl;
  sha256_hex_digits = λ s. sixty_four_digits;
  format_instant = number_text;
}

abbrev pub a_digest : String
a_digest = "sha256:0123456789abcdef0123456789abcdef0123456789abcdef0123456789abcdef"

abbrev pub caller : AuthenticatedRuntime
caller = record { runtime_id = "rt-1" }

pub caller-IsIdentifier : IsIdentifier caller.runtime_id
unfolding trim_space trim_left trim_right keep is_space
caller-IsIdentifier = record {
  trimmed = refl;
  short = ground arith;
  present = λ h. ground (arith, eq_iff "rt-1" "");
}

-- A message to an external address, whose payload is secret, without evidence.
abbrev pub send_input : ProposedActionInput
send_input = record {
  typ = action_external_send;
  requested_at = record { instant = pos 5; location = "Local" };
  actor = record { agent_id = " a-1 "; runtime_id = ""; session_id = "" };
  delegation = record { id = "d-1"; delegator = record { typ = principal_user; id = "u-1" } };
  target = record { resource_type = "MAIL"; resource_id = "m-1" };
  parameters = some (external_send_input " external" ("b@x" ∷ "a@x " ∷ "b@x" ∷ []));
  payload = record { digest = a_digest; classification = "SECRET" ∷ []; size_bytes = some (pos 7) };
  evidence = [];
}

abbrev pub send_action : ProposedAction
send_action = record {
  typ = action_external_send;
  requested_at = record { instant = pos 5; location = "UTC" };
  actor = record { agent_id = "a-1"; runtime_id = "rt-1"; session_id = "" };
  delegation = record { id = "d-1"; delegator = record { typ = principal_user; id = "u-1" } };
  target = record { resource_type = "MAIL"; resource_id = "m-1" };
  parameters = some (
      external_send
        (record { destination_scope = destination_external; recipients = "a@x" ∷ "b@x" ∷ [] }));
  payload = record { digest = a_digest; classification = "SECRET" ∷ []; size_bytes = some (pos 7) };
  evidence = [];
}

pub normalize_run : normalize caller send_input ≡ ok send_action
unfolding normalize normalize_action normalize_parameters input_type build_parameters
    normalize_evidence normalize_principal normalize_authorization_evidence collect_evidence
    new_actor new_principal new_delegation new_target principal_valid principal_type_valid is_blank
    normalize_required_identifier normalize_optional_identifier trim_space trim_left trim_right keep
    is_space to_upper parse_destination_scope new_external_send_parameters normalize_strings
    collect_strings put keys sort_strings sorted_values values_at less parse_payload_digest
    validate_sha256_digest is_lower_hex has_prefix trim_prefix cut_prefix new_payload_facts
    payload_digest_valid payload_valid new_proposed_action check_parameters validate_parameters
    parameters_type action_type_valid actor_valid delegation_valid target_valid is_zero utc traverse
normalize_run = refl

-- A hard deletion, with evidence from the runtime itself and from another one.
abbrev pub delete_scope : AuthorizationScope
delete_scope = record {
  action_type = action_delete;
  destination_scope = "";
  requested_scope = "";
  delete_mode = delete_hard;
}

abbrev pub foreign_evidence : AuthorizationEvidence
foreign_evidence = record {
  typ = evidence_delegation_grant;
  id = "e-1";
  issued_by = record { typ = principal_runtime; id = "rt-9" };
  scope = delete_scope;
}

abbrev pub own_evidence : AuthorizationEvidence
own_evidence = record {
  typ = evidence_user_instruction;
  id = "e-1";
  issued_by = record { typ = principal_runtime; id = "rt-1" };
  scope = delete_scope;
}

abbrev pub delete_input_of : List AuthorizationEvidenceInput → ProposedActionInput
delete_input_of evidence = record send_input {
  typ = action_delete;
  parameters = some (delete_input "hard" false);
  evidence = evidence;
}

abbrev pub delete_action : ProposedAction
delete_action = record send_action {
  typ = action_delete;
  parameters = some (delete (record { mode = delete_hard; recoverable = false }));
  evidence = foreign_evidence ∷ own_evidence ∷ [];
}

abbrev pub evidence_input : String → String → AuthorizationEvidenceInput
evidence_input typ runtime = record {
  typ = typ;
  evidence_id = "e-1";
  issued_by = record { typ = principal_runtime; id = runtime };
  scope = record {
    action_type = action_delete;
    destination_scope = "";
    requested_scope = "";
    delete_mode = "hard";
  };
}

abbrev pub delete_input_two : ProposedActionInput
delete_input_two =
    delete_input_of
      (evidence_input "user_instruction" "rt-1" ∷ evidence_input "delegation_grant" " rt-9" ∷ [])

pub delete_run : normalize caller delete_input_two ≡ ok delete_action
unfolding normalize normalize_action normalize_parameters input_type build_parameters
    normalize_evidence normalize_principal normalize_authorization_evidence collect_evidence
    new_actor new_principal new_delegation new_target principal_valid principal_type_valid is_blank
    normalize_required_identifier normalize_optional_identifier trim_space trim_left trim_right keep
    is_space to_upper parse_destination_scope new_external_send_parameters normalize_strings
    collect_strings put keys sort_strings sorted_values values_at less parse_payload_digest
    validate_sha256_digest is_lower_hex has_prefix trim_prefix cut_prefix new_payload_facts
    payload_digest_valid payload_valid new_proposed_action check_parameters validate_parameters
    parameters_type action_type_valid actor_valid delegation_valid target_valid is_zero utc traverse
    normalize_evidence_item parse_authorization_evidence_type new_authorization_scope
    new_authorization_evidence scope_valid evidence_valid evidence_key conflicts lookup get_or
    parse_delete_mode new_delete_parameters normalize_authorization_scope
delete_run = refl
