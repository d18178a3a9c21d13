-- ===== src/Diagnostic.antt =====
-- internal/diagnostic: the analysis of one rollout.
pub mod Cluster
pub mod Conditions
pub mod Logs
pub mod Soak
pub mod Monitor
pub mod Report
pub mod Target
mod Examples
