-- ===== src/Application.antt =====
-- internal/application: the use case that turns a proposed action into a persisted decision.
pub mod Evaluation
pub mod Composer
pub mod Runtime
pub mod Normalizer
pub mod Ports
pub mod Service
