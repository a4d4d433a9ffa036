-- ===== src/Domain/Identifier.antt =====
-- Identifiers, `normalizeRequiredIdentifier` and `normalizeOptionalIdentifier` of
-- internal/domain/principal.go. The label of the error message is left out.
use agent_action_control.Prelude.{
  String, len, ◌≡◌, ◌≢◌, ◌≤◌, Bool, false, ltb, ◌==◌, eq_iff, [], ◌∷◌, if◌then◌else◌, arith,
}
use agent_action_control.Strings.{trim_space, trim_space_idem}
use agent_action_control.Errors.{Result, ok, err, invalid_argument}

-- `strings.TrimSpace(s) == ""`
unfoldable pub is_blank : String → Bool
is_blank s = trim_space s == ""

unfoldable pub normalize_required_identifier : String → Result String
normalize_required_identifier value =
    let value = trim_space value in
    if value == ""
    then err (invalid_argument ∷ [])
    else if ltb 256 (len value)
    then err (invalid_argument ∷ [])
    else ok value

unfoldable pub normalize_optional_identifier : String → Result String
normalize_optional_identifier value =
    let value = trim_space value in
    if ltb 256 (len value) then err (invalid_argument ∷ []) else ok value

-- Trimmed, of at most 256 bytes.
pub record IsOptionalIdentifier (s : String) : Type 0 where
  pub trimmed : trim_space s ≡ s
  pub short : len s ≤ 256

-- Trimmed, of at most 256 bytes, and not empty.
pub record IsIdentifier (s : String) : Type 0 where
  pub trimmed : trim_space s ≡ s
  pub short : len s ≤ 256
  pub present : s ≢ ""

pub normalize_required_identifier-IsIdentifier :
    (v r : String) → normalize_required_identifier v ≡ ok r → (r ≡ trim_space v) × IsIdentifier r
unfolding normalize_required_identifier
normalize_required_identifier-IsIdentifier v r h =
    ground (arith, eq_iff (trim_space v) "", trim_space_idem v)

pub normalize_required_identifier_of_IsIdentifier :
    (r : String) → IsIdentifier r → normalize_required_identifier r ≡ ok r
unfolding normalize_required_identifier
normalize_required_identifier_of_IsIdentifier r h = rw h.trimmed (ground (arith, eq_iff r ""))

pub normalize_optional_identifier-IsOptionalIdentifier :
    (v r : String)
    → normalize_optional_identifier v ≡ ok r
    → (r ≡ trim_space v) × IsOptionalIdentifier r
unfolding normalize_optional_identifier
normalize_optional_identifier-IsOptionalIdentifier v r h = ground (arith, trim_space_idem v)

pub normalize_optional_identifier_of_IsOptionalIdentifier :
    (r : String) → IsOptionalIdentifier r → normalize_optional_identifier r ≡ ok r
unfolding normalize_optional_identifier
normalize_optional_identifier_of_IsOptionalIdentifier r h = rw h.trimmed (ground arith)

pub not-is_blank_of_IsIdentifier : (r : String) → IsIdentifier r → is_blank r ≡ false
unfolding is_blank
not-is_blank_of_IsIdentifier r h = rw h.trimmed (ground (arith, eq_iff r ""))
