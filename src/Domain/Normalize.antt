-- ===== src/Domain/Normalize.antt =====
-- `normalizeStrings` and `normalizePrincipals` of internal/domain/action_parameters.go.
pub mod Strings
pub mod Principals
use Prim.Native.Char.{nul}
use Prim.Native.String
use agent_action_control.Prelude.{
  String, len, ℕ, Bool, not, ◌||◌, ltb, ◌==◌, List, [], ◌∷◌, length, if◌then◌else◌,
}
use agent_action_control.Strings.{trim_space}
use agent_action_control.Containers.{put, keys, sort_strings, sorted_values}
use agent_action_control.Errors.{Result, ok, err, ◌>>=◌, ◌>>◌, refuse_if, invalid_argument}
use agent_action_control.Domain.Principal.{Principal, principal_valid}

-- The loop that fills `unique`.
unfoldable pub collect_strings :
    ℕ → List String → List (String × Unit {0}) → Result (List (String × Unit {0}))
collect_strings maximum_length [] unique = ok unique
collect_strings maximum_length (value ∷ values) unique =
    let value = trim_space value in
    let rest = collect_strings maximum_length values (put value tt unique) in
    if value == "" || ltb maximum_length (len value) then err (invalid_argument ∷ []) else rest

unfoldable pub normalize_strings : List String → ℕ → ℕ → Result (List String)
normalize_strings values maximum_items maximum_length = do
  refuse_if (ltb maximum_items (length values)) (invalid_argument ∷ [])
  unique ← collect_strings maximum_length values []
  ok (sort_strings (keys unique))

-- `string(principal.Type())+"\x00"+principal.ID()`
unfoldable pub principal_key : Principal → String
principal_key principal = String.◌++◌ principal.typ (String.◌∷◌ nul principal.id)

abbrev pub zero_principal : Principal
zero_principal = record { typ = ""; id = "" }

unfoldable pub collect_principals :
    List Principal → List (String × Principal) → Result (List (String × Principal))
collect_principals [] unique = ok unique
collect_principals (principal ∷ values) unique =
    let rest = collect_principals values (put (principal_key principal) principal unique) in
    if not (principal_valid principal) then err (invalid_argument ∷ []) else rest

unfoldable pub normalize_principals : List Principal → Result (List Principal)
normalize_principals values = do
  refuse_if (ltb 100 (length values)) (invalid_argument ∷ [])
  unique ← collect_principals values []
  ok (sorted_values zero_principal unique)
