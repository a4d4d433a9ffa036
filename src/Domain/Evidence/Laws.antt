-- ===== src/Domain/Evidence/Laws.antt =====
-- The constructors of internal/domain/authorization_evidence.go.
use agent_action_control.Prelude.{
  String, ◌≡◌, ◌≤◌, refl, true, eq_iff, eq_refl, List, [], ◌∷◌, map, none, length, All, arith, inl,
  inr,
}
use agent_action_control.Strings.{Unicode, upper-trim_idem}
use agent_action_control.Containers.{
  lookup, put, contains, lookup-put, IsAscending, IsDistinct, IsAscending-IsDistinct, put_all,
  sorted_values, IsSortedByKey, sorted_values-IsSortedByKey, sorted_values-put_all,
}
use agent_action_control.Errors.{ok, Result-cases}
use agent_action_control.Domain.Identifier.{
  IsIdentifier, normalize_required_identifier-IsIdentifier,
  normalize_required_identifier_of_IsIdentifier,
}
use agent_action_control.Domain.Principal.{Principal}
use agent_action_control.Domain.Principal.Laws.{IsPrincipal, principal_valid_of_IsPrincipal}
use agent_action_control.Domain.Parameters.Laws.{
  parse_destination_scope_idem, parse_access_scope_idem, parse_delete_mode_idem,
}
use agent_action_control.Domain.Evidence.{
  AuthorizationScope, AuthorizationEvidence, evidence_key, principal_eq, scope_eq, evidence_eq,
  conflicts, zero_evidence, parse_authorization_evidence_type, new_authorization_scope, scope_valid,
  new_authorization_evidence, evidence_valid, collect_evidence, normalize_authorization_evidence,
}

pub evidence_eq-eq : (a b : AuthorizationEvidence) → evidence_eq a b ≡ true → a ≡ b
unfolding evidence_eq principal_eq scope_eq
evidence_eq-eq a b h = ground (
  arith,
  eq_iff a.typ b.typ,
  eq_iff a.id b.id,
  eq_iff a.issued_by.typ b.issued_by.typ,
  eq_iff a.issued_by.id b.issued_by.id,
  eq_iff a.scope.action_type b.scope.action_type,
  eq_iff a.scope.destination_scope b.scope.destination_scope,
  eq_iff a.scope.requested_scope b.scope.requested_scope,
  eq_iff a.scope.delete_mode b.scope.delete_mode,
)

pub evidence_eq_refl : (a : AuthorizationEvidence) → evidence_eq a a ≡ true
unfolding evidence_eq principal_eq scope_eq
evidence_eq_refl a = ground (
  arith,
  eq_refl a.typ,
  eq_refl a.id,
  eq_refl a.issued_by.typ,
  eq_refl a.issued_by.id,
  eq_refl a.scope.action_type,
  eq_refl a.scope.destination_scope,
  eq_refl a.scope.requested_scope,
  eq_refl a.scope.delete_mode,
)

module _ ⦃u : Unicode⦄ where
  pub parse_authorization_evidence_type_idem :
      (v r : String)
      → parse_authorization_evidence_type v ≡ ok r
      → parse_authorization_evidence_type r ≡ ok r
  unfolding parse_authorization_evidence_type
  parse_authorization_evidence_type_idem v r h = ground (arith, upper-trim_idem v)

  abbrev pub IsScope : AuthorizationScope → Type 0
  IsScope s =
      new_authorization_scope s.action_type s.destination_scope s.requested_scope s.delete_mode
      ≡ ok s

  pub new_authorization_scope-IsScope :
      (typ destination requested mode : String) (s : AuthorizationScope)
      → new_authorization_scope typ destination requested mode ≡ ok s
      → IsScope s
  unfolding new_authorization_scope
  new_authorization_scope-IsScope typ destination requested mode s h = ground (
    arith,
    parse_destination_scope_idem destination s.destination_scope,
    parse_access_scope_idem requested s.requested_scope,
    parse_delete_mode_idem mode s.delete_mode,
  )

  pub record IsEvidence (e : AuthorizationEvidence) : Type 0 where
    pub typed : parse_authorization_evidence_type e.typ ≡ ok e.typ
    pub identified : IsIdentifier e.id
    pub issued : IsPrincipal e.issued_by
    pub scoped : IsScope e.scope

  pub new_authorization_evidence-IsEvidence :
      (typ id : String) (p : Principal) (s : AuthorizationScope) (e : AuthorizationEvidence)
      → IsPrincipal p
      → IsScope s
      → new_authorization_evidence typ id p s ≡ ok e
      → IsEvidence e
  unfolding new_authorization_evidence
  new_authorization_evidence-IsEvidence typ id p s e hp hs h = ground (
    arith,
    parse_authorization_evidence_type_idem typ e.typ,
    normalize_required_identifier-IsIdentifier id e.id,
  )

  pub new_authorization_evidence_of_IsEvidence :
      (e : AuthorizationEvidence)
      → IsEvidence e
      → new_authorization_evidence e.typ e.id e.issued_by e.scope ≡ ok e
  unfolding new_authorization_evidence scope_valid
  new_authorization_evidence_of_IsEvidence e h = ground (
    arith,
    h.typed,
    h.scoped,
    normalize_required_identifier_of_IsIdentifier e.id h.identified,
    principal_valid_of_IsPrincipal e.issued_by h.issued,
  )

  pub evidence_valid_of_IsEvidence :
      (e : AuthorizationEvidence) → IsEvidence e → evidence_valid e ≡ true
  unfolding evidence_valid
  evidence_valid_of_IsEvidence e h = rw (new_authorization_evidence_of_IsEvidence e h) refl

  -- At most 100 pieces of evidence, in ascending order of their keys and so without repetition.
  pub record IsEvidenceList (es : List AuthorizationEvidence) : Type 0 where
    pub evidence : All IsEvidence es
    pub ascending : IsAscending (map evidence_key es)
    pub few : length es ≤ 100

  pub collect_evidence-put_all :
      (values : List AuthorizationEvidence) (m r : List (String × AuthorizationEvidence))
      → collect_evidence values m ≡ ok r
      → put_all evidence_key values m ≡ r
  unfolding collect_evidence put_all
  collect_evidence-put_all [] m r h = ground arith
  collect_evidence-put_all (e ∷ es) m r h =
      collect_evidence-put_all es (put (evidence_key e) e m) r (ground arith)

  pub normalize_authorization_evidence-eq-sorted_values :
      (values r : List AuthorizationEvidence)
      → normalize_authorization_evidence values ≡ ok r
      → (m : List (String × AuthorizationEvidence)) × (collect_evidence values [] ≡ ok m)
        × (sorted_values zero_evidence m ≡ r)
        × (length values ≤ 100)
  unfolding normalize_authorization_evidence
  normalize_authorization_evidence-eq-sorted_values values r h =
      elim (Result-cases (collect_evidence values [])) [
        | inl (m, run) ↦ (m, run, ground arith, ground arith)
        | inr (e, run) ↦ absurd (ground arith)
      ]

  -- What all items satisfied, the items of the normalised list satisfy.
  pub normalize_authorization_evidence-IsSortedByKey :
      (P : AuthorizationEvidence → Type 0) (values r : List AuthorizationEvidence)
      → All P values
      → normalize_authorization_evidence values ≡ ok r
      → IsSortedByKey evidence_key P values r
  normalize_authorization_evidence-IsSortedByKey P values r all h =
      let (m, run, q, small) = normalize_authorization_evidence-eq-sorted_values values r h in
      rw (← q, ← collect_evidence-put_all values [] m run)
        (sorted_values-IsSortedByKey evidence_key P zero_evidence values all)

  -- The normalised list of valid evidence is valid, of at most 100 items, in ascending order of the
  -- keys and so without repetition, no longer than the input, and has the same keys.
  pub normalize_authorization_evidence-IsEvidenceList :
      (values r : List AuthorizationEvidence)
      → All IsEvidence values
      → normalize_authorization_evidence values ≡ ok r
      → IsEvidenceList r × IsSortedByKey evidence_key IsEvidence values r
  normalize_authorization_evidence-IsEvidenceList values r all h =
      let (m, run, q, small) = normalize_authorization_evidence-eq-sorted_values values r h in
      let s = sorted_values-IsSortedByKey evidence_key IsEvidence zero_evidence values all in
      let few = s.no_longer in
      rw (← q, ← collect_evidence-put_all values [] m run)
        (record { evidence = s.members; ascending = s.ascending; few = omega arith }, s)

  -- Distinct keys meet no conflict.
  collect_evidence_total :
      (values : List AuthorizationEvidence) (m : List (String × AuthorizationEvidence))
      → All IsEvidence values
      → IsDistinct (map evidence_key values)
      → ((k : String) → contains k (map evidence_key values) ≡ true → lookup k m ≡ none)
      → collect_evidence values m ≡ ok (put_all evidence_key values m)
  unfolding collect_evidence put_all conflicts
  collect_evidence_total [] m h d fresh = refl
  collect_evidence_total (e ∷ es) m h d fresh = ground (
    arith,
    collect_evidence_total es (put (evidence_key e) e m) h.1 d.1 (λ k p.
        ground (arith, lookup-put (evidence_key e) k e m, fresh k, eq_iff (evidence_key e) k)),
    evidence_valid_of_IsEvidence e h.0,
    fresh (evidence_key e),
    eq_refl (evidence_key e),
  )

  pub normalize_authorization_evidence_of_IsEvidenceList :
      (es : List AuthorizationEvidence)
      → IsEvidenceList es
      → normalize_authorization_evidence es ≡ ok es
  unfolding normalize_authorization_evidence
  normalize_authorization_evidence_of_IsEvidenceList es h =
      let few = h.few in
      let d = IsAscending-IsDistinct (map evidence_key es) h.ascending in
      ground (
        arith,
        collect_evidence_total es [] h.evidence d (λ k p. unfold lookup in refl),
        sorted_values-put_all evidence_key zero_evidence es h.ascending,
      )
