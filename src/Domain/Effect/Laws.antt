-- ===== src/Domain/Effect/Laws.antt =====
-- What `NewSafetyReviewRequirement` accepts.
use agent_action_control.Prelude.{String, ◌≡◌, refl, false, List, [], ◌∷◌, arith}
use agent_action_control.Containers.{contains}
use agent_action_control.Errors.{ok}
use agent_action_control.Domain.Identifier.{is_blank}
use agent_action_control.Domain.Effect.{check_refs}

-- No reference is blank, and none stands twice or among those seen.
abbrev pub IsFresh : List String → List String → Type 0
IsFresh [] seen = Unit
IsFresh (ref ∷ refs) seen =
    (is_blank ref ≡ false) × (contains ref seen ≡ false) × IsFresh refs (ref ∷ seen)

pub check_refs_of_IsFresh :
    (refs seen : List String) → IsFresh refs seen → check_refs refs seen ≡ ok tt
unfolding check_refs
check_refs_of_IsFresh [] seen h = refl
check_refs_of_IsFresh (r ∷ refs) seen h = ground (arith, check_refs_of_IsFresh refs (r ∷ seen) h.2)
