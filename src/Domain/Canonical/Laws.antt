-- ===== src/Domain/Canonical/Laws.antt =====
-- The canonical form and the digest of normal actions.
use Prim.Native.String
use Prim.Native.String.append
use text.Mathlib.TextPositions.{len-append}
use agent_action_control.Time.{utc}
use agent_action_control.Errors.{ok}
use agent_action_control.Strings.{trim_prefix, has_prefix, cut_prefix, Unicode}
use agent_action_control.Domain.ProposedAction.{ProposedAction}
use agent_action_control.Domain.Principal.{Principal}
use agent_action_control.Prelude.{
  ◌≡◌, ◌∷◌, ℤ, true, some, refl, map, len, arith, ap₂, [], String, List,
}
use agent_action_control.Domain.ProposedAction.Laws.{rebuild_of_IsAction, IsAction}
use agent_action_control.Domain.Canonical.{
  compute_action_digest, canonical_principal_value, canonical_parameters, canonical_evidence,
  canonical_action_bytes, canonical_action, Digests,
}
use agent_action_control.Domain.CanonicalValue.{marshal, CanonicalParameters, CanonicalAction}
use agent_action_control.Domain.Evidence.{AuthorizationEvidence}
use agent_action_control.Domain.Parameters.{
  delete, update_resource_access, external_send, ActionParameters,
}
use agent_action_control.Domain.Action.{
  validate_sha256_digest, parse_action_digest, is_lower_hex, action_digest_valid, ActionDigest,
}

-- Behind a prefix stands the rest.
cut_prefix-append : (p s : String) → cut_prefix (String.◌++◌ p s) p ≡ some s
unfolding cut_prefix
cut_prefix-append String.[] s = rw (append.nil s) refl
cut_prefix-append (String.◌∷◌ c p) s =
    rw (append.cons c p s) (ground (arith, cut_prefix-append p s))

validate_sha256_digest_of_hex :
    (s : String)
    → len s ≡ 64
    → is_lower_hex s ≡ true
    → validate_sha256_digest (String.◌++◌ "sha256:" s) ≡ ok tt
unfolding validate_sha256_digest has_prefix trim_prefix
validate_sha256_digest_of_hex s h k =
    let cut = cut_prefix-append "sha256:" s in ground (arith, len-append "sha256:" s)

canonical_principal_value-injective :
    (p q : Principal) → canonical_principal_value p ≡ canonical_principal_value q → p ≡ q
unfolding canonical_principal_value
canonical_principal_value-injective p q h = ground arith

-- `map` of an injective function is injective.
map-injective :
    {A B : Type 0} (f : A → B)
    → ((x y : A) → f x ≡ f y → x ≡ y)
    → (xs ys : List A) → map f xs ≡ map f ys
    → xs ≡ ys
map-injective f inj [] [] h = refl
map-injective f inj [] (y ∷ ys) h = cc
map-injective f inj (x ∷ xs) [] h = cc
map-injective f inj (x ∷ xs) (y ∷ ys) h =
    let p : f x ≡ f y = cc in
    let q : map f xs ≡ map f ys = cc in ap₂ ◌∷◌ (inj x y p) (map-injective f inj xs ys q)

canonical_evidence-injective :
    (e f : AuthorizationEvidence) → canonical_evidence e ≡ canonical_evidence f → e ≡ f
unfolding canonical_evidence
canonical_evidence-injective e f h =
    ground (arith, canonical_principal_value-injective e.issued_by f.issued_by)

canonical_parameters-injective :
    (p q : ActionParameters) → canonical_parameters (some p) ≡ canonical_parameters (some q) → p ≡ q
unfolding canonical_parameters
canonical_parameters-injective (external_send p) (external_send q) h = ground arith
canonical_parameters-injective (external_send p) (update_resource_access q) h = ground arith
canonical_parameters-injective (external_send p) (delete q) h = ground arith
canonical_parameters-injective (update_resource_access p) (external_send q) h = ground arith
canonical_parameters-injective (update_resource_access p) (update_resource_access q) h = ground (
  arith,
  map-injective canonical_principal_value canonical_principal_value-injective p.target_principals
      q.target_principals,
)
canonical_parameters-injective (update_resource_access p) (delete q) h = ground arith
canonical_parameters-injective (delete p) (external_send q) h = ground arith
canonical_parameters-injective (delete p) (update_resource_access q) h = ground arith
canonical_parameters-injective (delete p) (delete q) h = ground arith

pub canonical_parameters-total :
    (p : ActionParameters) → (c : CanonicalParameters) × (canonical_parameters (some p) ≡ ok c)
unfolding canonical_parameters
canonical_parameters-total (external_send p) = (_, refl)
canonical_parameters-total (update_resource_access p) = (_, refl)
canonical_parameters-total (delete p) = (_, refl)

module _ ⦃u : Unicode⦄ ⦃d : Digests⦄ where
  pub canonical_action-total :
      (a : ProposedAction) → IsAction a → (v : CanonicalAction) × (canonical_action a ≡ ok v)
  unfolding canonical_action
  canonical_action-total a h =
      let (c, q) = canonical_parameters-total h.facts in
      rw (rebuild_of_IsAction a h, h.has_facts, q) (_, refl)

  -- The digest of every normal action is computed, and is a valid digest.
  pub compute_action_digest-valid :
      (a : ProposedAction)
      → IsAction a
      → (digest : ActionDigest) × (compute_action_digest a ≡ ok digest)
        × (action_digest_valid digest ≡ true)
  unfolding compute_action_digest canonical_action_bytes action_digest_valid parse_action_digest
  compute_action_digest-valid a h =
      let (v, q) = canonical_action-total a h in
      let hex = d.sha256_hex (marshal v) in
      rw (q) (
        String.◌++◌ "sha256:" hex,
        refl,
        rw
            (validate_sha256_digest_of_hex hex (d.sha256_hex_len (marshal v))
              (d.sha256_hex_digits (marshal v)))
            refl,
      )

  -- Normal actions with the same canonical form are equal, where the format tells instants apart:
  -- no fact of an action is left out of what its digest is computed from.
  pub canonical_action-injective :
      (a b : ProposedAction)
      → IsAction a
      → IsAction b
      → ((s t : ℤ) → d.format_instant s ≡ d.format_instant t → s ≡ t)
      → canonical_action a ≡ canonical_action b
      → a ≡ b
  unfolding canonical_action utc
  canonical_action-injective a b ha hb inj h =
      let (p, qp) = canonical_parameters-total ha.facts in
      let (q, qq) = canonical_parameters-total hb.facts in
      let la = ha.in_utc in
      let lb = hb.in_utc in
      let fa = ha.has_facts in
      let fb = hb.has_facts in
      ground (
        arith,
        rebuild_of_IsAction a ha,
        rebuild_of_IsAction b hb,
        inj a.requested_at.instant b.requested_at.instant,
        canonical_principal_value-injective a.delegation.delegator b.delegation.delegator,
        canonical_parameters-injective ha.facts hb.facts,
        map-injective canonical_evidence canonical_evidence-injective a.evidence b.evidence,
      )
