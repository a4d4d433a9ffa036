-- ===== src/Application/Normalizer/Describes.antt =====
-- What the parts of an action say of the input that they were made of.
use Prim.Native.Char.{nul}
use Prim.Native.String
use agent_action_control.Strings.{to_upper, trim_space, upper-trim_idem, Unicode}
use agent_action_control.Containers.{contains, SameMembers}
use agent_action_control.Domain.Normalize.{principal_key}
use agent_action_control.Domain.Normalize.Strings.{normalize_strings-IsLabels}
use agent_action_control.Domain.Normalize.Principals.{normalize_principals-IsPrincipals}
use agent_action_control.Domain.Principal.{Principal}
use agent_action_control.Domain.Principal.Laws.{new_principal-IsPrincipal, IsPrincipal}
use agent_action_control.Domain.Action.{
  action_external_send, action_update_resource_access, action_delete,
}
use agent_action_control.Domain.Identifier.{normalize_required_identifier-IsIdentifier}
use agent_action_control.Domain.Parameters.{
  ActionParameters, ExternalSendParameters, UpdateResourceAccessParameters, external_send,
  update_resource_access, delete, parse_destination_scope, parse_access_scope, parse_delete_mode,
  new_external_send_parameters, new_update_resource_access_parameters, new_delete_parameters,
}
use agent_action_control.Domain.Evidence.{
  AuthorizationEvidence, AuthorizationScope, evidence_key, parse_authorization_evidence_type,
  new_authorization_scope, new_authorization_evidence, normalize_authorization_evidence,
}
use agent_action_control.Domain.Evidence.Laws.{normalize_authorization_evidence-IsSortedByKey}
use agent_action_control.Application.Normalizer.Laws.{normalize_principal-IsPrincipal}
use agent_action_control.Application.Normalizer.{
  ActionParametersInput, AuthorizationEvidenceInput, AuthorizationScopeInput, PrincipalInput,
  external_send_input, update_resource_access_input, delete_input, build_parameters,
  normalize_parameters, normalize_principal, normalize_authorization_scope, normalize_evidence,
  normalize_evidence_item,
}
use agent_action_control.Errors.{Result, Result-cases, ok, traverse, traverse-All}
use agent_action_control.Prelude.{
  All, All-map, Some, inl, inr, map, if◌then◌else◌, ◌≡◌, ◌∷◌, ◌∙◌, ◌==◌, refl, ap, ap₂, eq_iff,
  arith, none, some, false, Bool-cases, eq_refl, ◌&&◌, [], String, Option, List,
}

-- Each result of a loop that stops at the first error is that of one of the inputs.
traverse-Some :
    {A B : Type 0} (f : A → Result B) (R : A → B → Type 0)
    → ((x : A) (y : B) → f x ≡ ok y → R x y)
    → (xs : List A) (ys : List B) → traverse f xs ≡ ok ys
    → All (λ y. Some (λ x. R x y) xs) ys
unfolding traverse
traverse-Some f R each [] [] h = tt
traverse-Some f R each [] (y ∷ ys) h = cc
traverse-Some f R each (x ∷ xs) ys h = elim (Result-cases (f x)) [
  | inr (e, run) ↦ absurd (ground arith)
  | inl (z, run) ↦ elim (Result-cases (traverse f xs)) [
    | inr (e, run') ↦ absurd (ground arith)
    | inl (zs, run') ↦
        let q : z ∷ zs ≡ ys = ground arith in
        rw (← q) (inl (each x z run), All-map (λ y h. inr h) zs (traverse-Some f R each xs zs run'))
  ]
]

traverse-map :
    {A B C : Type 0} (f : A → Result B) (g : A → C) (h : B → C)
    → ((x : A) (y : B) → f x ≡ ok y → h y ≡ g x)
    → (xs : List A) (ys : List B) → traverse f xs ≡ ok ys
    → map h ys ≡ map g xs
unfolding traverse
traverse-map f g h each [] [] e = refl
traverse-map f g h each [] (y ∷ ys) e = cc
traverse-map f g h each (x ∷ xs) ys e = elim (Result-cases (f x)) [
  | inr (c, run) ↦ absurd (ground arith)
  | inl (z, run) ↦ elim (Result-cases (traverse f xs)) [
    | inr (c, run') ↦ absurd (ground arith)
    | inl (zs, run') ↦
        let q : z ∷ zs ≡ ys = ground arith in
        rw (← q) (ap₂ (◌∷◌) (each x z run) (traverse-map f g h each xs zs run'))
  ]
]

-- A text is not two different texts.
only_one : (x c d : String) → (c == d) ≡ false → (x == c && x == d) ≡ false
only_one x c d apart = elim (Bool-cases (x == c)) [
  | inr e ↦ rw e refl
  | inl e ↦ let same = (eq_iff x c).0 e in rw (same, eq_refl c, apart) refl
]

-- A type and an identifier in one text.
abbrev pub typed_key : String → String → String
typed_key typ id = String.◌++◌ typ (String.◌∷◌ nul id)

module _ ⦃u : Unicode⦄ where
  -- A name of the domain as a caller may write it.
  abbrev pub upper_text : String → String
  upper_text s = to_upper (trim_space s)

  abbrev pub target_key : PrincipalInput → String
  target_key input = typed_key input.typ (trim_space input.id)

  -- The parameters are those of the input: the same scopes or mode, the same recipients or target
  -- principals up to order and repetition, and the same answer to whether the deletion can be undone.
  abbrev pub DescribesParameters : Option ActionParametersInput → Option ActionParameters → Type 0
  DescribesParameters (some (external_send_input scope recipients)) (some (external_send p)) =
      (p.destination_scope ≡ upper_text scope)
      × SameMembers p.recipients (map trim_space recipients)
  DescribesParameters (some (update_resource_access_input current requested targets))
        (some (update_resource_access p)) =
      (p.current_scope ≡ upper_text current)
      × (p.requested_scope ≡ upper_text requested)
      × SameMembers (map principal_key p.target_principals) (map target_key targets)
  DescribesParameters (some (delete_input mode recoverable)) (some (delete p)) =
      (p.mode ≡ upper_text mode) × (p.recoverable ≡ recoverable)
  DescribesParameters _ _ = ⊥

  parse_destination_scope-eq : (v r : String) → parse_destination_scope v ≡ ok r → r ≡ upper_text v
  unfolding parse_destination_scope
  parse_destination_scope-eq v r h = ground arith

  parse_access_scope-eq : (v r : String) → parse_access_scope v ≡ ok r → r ≡ upper_text v
  unfolding parse_access_scope
  parse_access_scope-eq v r h = ground arith

  parse_delete_mode-eq : (v r : String) → parse_delete_mode v ≡ ok r → r ≡ upper_text v
  unfolding parse_delete_mode
  parse_delete_mode-eq v r h = ground arith

  new_external_send_parameters-facts :
      (scope : String) (recipients : List String) (p : ExternalSendParameters)
      → new_external_send_parameters scope recipients ≡ ok p
      → (p.destination_scope ≡ upper_text scope)
        × SameMembers p.recipients (map trim_space recipients)
  unfolding new_external_send_parameters
  new_external_send_parameters-facts scope recipients p h = (
    parse_destination_scope-eq scope p.destination_scope (ground arith),
    (normalize_strings-IsLabels recipients 100 320 p.recipients (ground arith)).1,
  )

  new_update_resource_access_parameters-facts :
      (current requested : String) (targets : List Principal) (p : UpdateResourceAccessParameters)
      → All IsPrincipal targets
      → new_update_resource_access_parameters current requested targets ≡ ok p
      → (p.current_scope ≡ upper_text current)
        × (p.requested_scope ≡ upper_text requested)
        × SameMembers (map principal_key p.target_principals) (map principal_key targets)
  unfolding new_update_resource_access_parameters
  new_update_resource_access_parameters-facts current requested targets p all h =
      let sorted =
        (normalize_principals-IsPrincipals targets p.target_principals all (ground arith)).1 in
      (
        parse_access_scope-eq current p.current_scope (ground arith),
        parse_access_scope-eq requested p.requested_scope (ground arith),
        sorted.same_keys,
      )

  normalize_principal-key :
      (input : PrincipalInput) (p : Principal)
      → normalize_principal input ≡ ok p
      → principal_key p ≡ target_key input
  unfolding normalize_principal principal_key
  normalize_principal-key input p h =
      let (good, typ, id) = new_principal-IsPrincipal input.typ input.id p h in ap₂ typed_key typ id

  build_parameters-Describes :
      (input : ActionParametersInput) (p : ActionParameters)
      → build_parameters input ≡ ok p
      → DescribesParameters (some input) (some p)
  unfolding build_parameters new_delete_parameters
  build_parameters-Describes (external_send_input scope recipients) (external_send p) h =
      elim (Result-cases (parse_destination_scope scope)) [
        | inr (e, run) ↦ absurd (ground arith)
        | inl (s, run) ↦
            let (same, members) =
              new_external_send_parameters-facts s recipients p (ground arith) in
            (
              same ∙ ap upper_text (parse_destination_scope-eq scope s run) ∙ upper-trim_idem scope,
              members,
            )
      ]
  build_parameters-Describes (update_resource_access_input c r targets) (update_resource_access p)
        h =
      elim (Result-cases (parse_access_scope c)) [
        | inr (e, run) ↦ absurd (ground arith)
        | inl (current, run) ↦ elim (Result-cases (parse_access_scope r)) [
          | inr (e, run') ↦ absurd (ground arith)
          | inl (requested, run') ↦ elim (Result-cases (traverse normalize_principal targets)) [
            | inr (e, run'') ↦ absurd (ground arith)
            | inl (ps, run'') ↦
                let (same, same', members) =
                  new_update_resource_access_parameters-facts current requested ps p
                    (traverse-All normalize_principal IsPrincipal normalize_principal-IsPrincipal
                      targets ps run'')
                    (ground arith) in
                let keys =
                  traverse-map normalize_principal target_key principal_key normalize_principal-key
                    targets ps run'' in
                (
                  same ∙ ap upper_text (parse_access_scope-eq c current run) ∙ upper-trim_idem c,
                  same'
                      ∙ ap upper_text (parse_access_scope-eq r requested run')
                      ∙ upper-trim_idem r,
                  rw (← keys) members,
                )
          ]
        ]
      ]
  build_parameters-Describes (delete_input mode recoverable) (delete p) h =
      elim (Result-cases (parse_delete_mode mode)) [
        | inr (e, run) ↦ absurd (ground arith)
        | inl (m, run) ↦ elim (Result-cases (parse_delete_mode m)) [
          | inr (e, run') ↦ absurd (ground arith)
          | inl (n, run') ↦
              let same : n ≡ p.mode = ground arith in
              let same' = parse_delete_mode-eq mode m run in
              let same'' = parse_delete_mode-eq m n run' in
              let idem = upper-trim_idem mode in (cc (same, same', same'', idem), ground arith)
        ]
      ]
  build_parameters-Describes (external_send_input _ _) (update_resource_access _) h = ground arith
  build_parameters-Describes (external_send_input _ _) (delete _) h = ground arith
  build_parameters-Describes (update_resource_access_input _ _ _) (external_send _) h = ground arith
  build_parameters-Describes (update_resource_access_input _ _ _) (delete _) h = ground arith
  build_parameters-Describes (delete_input _ _) (external_send _) h = ground arith
  build_parameters-Describes (delete_input _ _) (update_resource_access _) h = ground arith

  pub normalize_parameters-Describes :
      (typ : String) (input : Option ActionParametersInput) (p : ActionParameters)
      → normalize_parameters typ input ≡ ok p
      → DescribesParameters input (some p)
  unfolding normalize_parameters
  normalize_parameters-Describes typ none p h = absurd (ground arith)
  normalize_parameters-Describes typ (some input) p h =
      build_parameters-Describes input p (ground arith)

  -- The scope has the dimension of its action type, as the input says it, and no other.
  pub record DescribesScope (input : AuthorizationScopeInput) (s : AuthorizationScope)
      : Type 0 where
    pub action_type : s.action_type ≡ input.action_type
    pub destination : s.destination_scope ≡ (
        if input.action_type == action_external_send
        then upper_text input.destination_scope
        else "")
    pub requested : s.requested_scope ≡ (
        if input.action_type == action_update_resource_access
        then upper_text input.requested_scope
        else "")
    pub mode :
        s.delete_mode
        ≡ (if input.action_type == action_delete then upper_text input.delete_mode else "")

  -- The item of evidence states what an item of the input states.
  pub record DescribesEvidence (input : AuthorizationEvidenceInput) (e : AuthorizationEvidence)
      : Type 0 where
    pub typ : e.typ ≡ upper_text input.typ
    pub id : e.id ≡ trim_space input.evidence_id
    pub issuer_type : e.issued_by.typ ≡ input.issued_by.typ
    pub issuer : e.issued_by.id ≡ trim_space input.issued_by.id
    pub scope : DescribesScope input.scope e.scope

  normalize_authorization_scope-Describes :
      (input : AuthorizationScopeInput) (s : AuthorizationScope)
      → normalize_authorization_scope input ≡ ok s
      → DescribesScope input s
  unfolding normalize_authorization_scope new_authorization_scope parse_destination_scope
      parse_access_scope parse_delete_mode
  normalize_authorization_scope-Describes input s h =
      let a = only_one input.action_type action_external_send action_update_resource_access refl in
      let b = only_one input.action_type action_external_send action_delete refl in
      let c = only_one input.action_type action_update_resource_access action_delete refl in
      record {
        action_type = ground arith;
        destination = ground (arith, a, b, c, upper-trim_idem input.destination_scope);
        requested = ground (arith, a, b, c, upper-trim_idem input.requested_scope);
        mode = ground (arith, a, b, c, upper-trim_idem input.delete_mode);
      }

  normalize_evidence_item-Describes :
      (input : AuthorizationEvidenceInput) (e : AuthorizationEvidence)
      → normalize_evidence_item input ≡ ok e
      → DescribesEvidence input e
  unfolding normalize_evidence_item normalize_principal new_authorization_evidence
      parse_authorization_evidence_type
  normalize_evidence_item-Describes input e h =
      elim (Result-cases (parse_authorization_evidence_type input.typ)) [
        | inr (x, run) ↦ absurd (ground arith)
        | inl (typ, run) ↦ elim (Result-cases (normalize_principal input.issued_by)) [
          | inr (x, run') ↦ absurd (ground arith)
          | inl (p, run') ↦ elim (Result-cases (normalize_authorization_scope input.scope)) [
            | inr (x, run'') ↦ absurd (ground arith)
            | inl (s, run'') ↦
                let (good, issuer_type, issuer) =
                  new_principal-IsPrincipal input.issued_by.typ input.issued_by.id p run' in
                let issued : p ≡ e.issued_by = ground arith in
                let scoped : s ≡ e.scope = ground arith in
                record {
                  typ = ground (arith, upper-trim_idem input.typ);
                  id =
                      ground
                        (arith, normalize_required_identifier-IsIdentifier input.evidence_id e.id);
                  issuer_type = rw (← issued) issuer_type;
                  issuer = rw (← issued) issuer;
                  scope =
                      rw (← scoped) (normalize_authorization_scope-Describes input.scope s run'');
                }
          ]
        ]
      ]

  abbrev pub item_key : AuthorizationEvidenceInput → String
  item_key input = typed_key (upper_text input.typ) (trim_space input.evidence_id)

  -- The evidence has the types and identifiers of the input's, and each item of it states what an
  -- item of the input states.
  pub record DescribesEvidenceList (inputs : List AuthorizationEvidenceInput)
      (es : List AuthorizationEvidence) : Type 0 where
    pub keys : SameMembers (map evidence_key es) (map item_key inputs)
    pub stated : All (λ e. Some (λ input. DescribesEvidence input e) inputs) es

  normalize_evidence_item-key :
      (input : AuthorizationEvidenceInput) (e : AuthorizationEvidence)
      → normalize_evidence_item input ≡ ok e
      → evidence_key e ≡ item_key input
  unfolding evidence_key
  normalize_evidence_item-key input e h =
      let d = normalize_evidence_item-Describes input e h in ap₂ typed_key d.typ d.id

  pub normalize_authorization_evidence-Describes :
      (inputs : List AuthorizationEvidenceInput) (es r : List AuthorizationEvidence)
      → DescribesEvidenceList inputs es
      → normalize_authorization_evidence es ≡ ok r
      → DescribesEvidenceList inputs r
  normalize_authorization_evidence-Describes inputs es r d h =
      let sorted =
        normalize_authorization_evidence-IsSortedByKey
          (λ e. Some (λ input. DescribesEvidence input e) inputs) es r d.stated h in
      record { keys = λ k. sorted.same_keys k ∙ d.keys k; stated = sorted.members }

  pub normalize_evidence-Describes :
      (inputs : List AuthorizationEvidenceInput) (es : List AuthorizationEvidence)
      → normalize_evidence inputs ≡ ok es
      → DescribesEvidenceList inputs es
  unfolding normalize_evidence
  normalize_evidence-Describes inputs es h =
      elim (Result-cases (traverse normalize_evidence_item inputs)) [
        | inr (x, run) ↦ absurd (ground arith)
        | inl (items, run) ↦
            let keys =
              traverse-map normalize_evidence_item item_key evidence_key normalize_evidence_item-key
                inputs items run in
            normalize_authorization_evidence-Describes inputs items es
              (record {
                keys = λ k. ap (contains k) keys;
                stated =
                    traverse-Some normalize_evidence_item DescribesEvidence
                      normalize_evidence_item-Describes inputs items run;
              })
              (ground arith)
      ]
