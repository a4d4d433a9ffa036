-- ===== src/Tests.antt =====
-- Concrete inputs: the theorems of the development at work, and runs of the code.
mod Fixtures
mod Actions
mod Policies
mod Worlds
mod Services
mod Runtimes
mod Evidences
mod Ledgers
mod Transports
mod Coordinators
mod Bindings
