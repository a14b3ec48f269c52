-- ===== src/Domain.antt =====
-- internal/domain: the data that the components share, and the validation of a configuration.
pub mod Clock
pub mod Outcome
pub mod Snapshot
pub mod Operation
pub mod Config
pub mod Validate
