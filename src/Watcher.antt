-- ===== src/Watcher.antt =====
-- internal/watcher: detection of rollouts on the watched clusters.
pub mod Filter
pub mod ConfigWatcher
pub mod Debouncer
pub mod Informer
pub mod Manager
mod Examples
