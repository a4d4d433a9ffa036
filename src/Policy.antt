-- ===== src/Policy.antt =====
-- internal/policy: the policy engines.
pub mod Embedded
pub mod Osprey
