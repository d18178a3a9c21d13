-- ===== src/Persistence.antt =====
-- internal/persistence: template hashes and audit records kept as custom resources.
pub mod Names
pub mod HashStore
pub mod Recorder
mod Examples
