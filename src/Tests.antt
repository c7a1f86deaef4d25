-- ===== src/Tests.antt =====
-- The theorems at concrete inputs, and runs of the definitions.
pub mod Numbers
pub mod Collectors
pub mod Std
pub mod Plugins
pub mod Monitor
pub mod LocalWriter
pub mod Datas
pub mod Ports
pub mod Days
pub mod DiskStats
pub mod DirSize
pub mod ProcFiles
pub mod Inventory
pub mod Winsvc
pub mod Windows
pub mod WindowsInventory
pub mod Tls
pub mod TlsGenerate
pub mod TlsWindows
