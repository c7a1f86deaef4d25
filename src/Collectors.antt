-- ===== src/Collectors.antt =====
-- internal/collectors: the metrics, the registry that exposes them, and the parser that reads the
-- output of plugins.
pub mod Metric
pub mod Registry
pub mod Parser
pub mod RoundTrip
pub mod Verify
pub mod Plugin
pub mod Disk
pub mod Types
pub mod Linux
pub mod Windows
