-- ===== src/Monitor.antt =====
-- internal/monitor: the log of the collections, and its summary on the command line.
pub mod Record
pub mod Dates
pub mod Store
pub mod Reader
pub mod Summary
pub mod Hourly
pub mod Cli
