-- ===== src/Tests/Evidences.antt =====
-- Lists of evidence.
use agent_action_control.Domain.Principal.{principal_valid, principal_type_valid}
use agent_action_control.Domain.Parameters.{parse_delete_mode}
use agent_action_control.Errors.{ok}
use agent_action_control.Strings.{less, keep, trim_space, trim_right, trim_left, to_upper, is_space}
use agent_action_control.Domain.Identifier.{normalize_required_identifier, is_blank}
use agent_action_control.Tests.Actions.{delete-IsAction}
use agent_action_control.Domain.Evidence.{
  conflicts, normalize_authorization_evidence, scope_valid, scope_eq, principal_eq,
  parse_authorization_evidence_type, new_authorization_scope, new_authorization_evidence,
  evidence_valid, evidence_key, evidence_eq, collect_evidence,
}
use agent_action_control.Domain.Action.{action_type_valid}
use agent_action_control.Containers.{
  values_at, sorted_values, sort_strings, put, lookup, keys, get_or, IsSortedByKey,
}
use agent_action_control.Domain.Evidence.Laws.{
  normalize_authorization_evidence-IsEvidenceList, IsEvidenceList, IsEvidence,
}
use agent_action_control.Prelude.{◌≡◌, ◌∷◌, refl, [], All}
use agent_action_control.Tests.Fixtures.{own_evidence, foreign_evidence, ascii}

evidence_run :
    normalize_authorization_evidence (own_evidence ∷ foreign_evidence ∷ own_evidence ∷ [])
    ≡ ok (foreign_evidence ∷ own_evidence ∷ [])
unfolding normalize_authorization_evidence collect_evidence evidence_key evidence_valid conflicts
    evidence_eq principal_eq scope_eq new_authorization_evidence parse_authorization_evidence_type
    new_authorization_scope scope_valid action_type_valid parse_delete_mode principal_valid
    principal_type_valid is_blank to_upper normalize_required_identifier trim_space trim_left
    trim_right keep is_space put lookup get_or keys sort_strings sorted_values values_at less
evidence_run = refl

All-IsEvidence : All IsEvidence (foreign_evidence ∷ own_evidence ∷ [])
All-IsEvidence = delete-IsAction.evidence.evidence

normalize_authorization_evidence-IsEvidenceList_example :
    IsEvidenceList (foreign_evidence ∷ own_evidence ∷ [])
    × IsSortedByKey evidence_key IsEvidence
        (own_evidence ∷ foreign_evidence ∷ own_evidence ∷ [])
        (foreign_evidence ∷ own_evidence ∷ [])
normalize_authorization_evidence-IsEvidenceList_example =
    normalize_authorization_evidence-IsEvidenceList
      (own_evidence ∷ foreign_evidence ∷ own_evidence ∷ []) (foreign_evidence ∷ own_evidence ∷ [])
      (All-IsEvidence.1.0, (All-IsEvidence.0, (All-IsEvidence.1.0, tt))) evidence_run
