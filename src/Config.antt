-- ===== src/Config.antt =====
-- internal/config: kubeconfig files, environments and settings.
pub mod Directory
pub mod Environment
pub mod Fields
pub mod Sources
pub mod Settings
mod Examples
