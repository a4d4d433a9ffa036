-- ===== src/Domain.antt =====
-- internal/domain: the entities and values of the core, and their invariants.
pub mod Identifier
pub mod Principal
pub mod Action
pub mod Normalize
pub mod Parameters
pub mod Payload
pub mod Evidence
pub mod ProposedAction
pub mod Decision
pub mod Effect
pub mod CanonicalValue
pub mod Canonical
