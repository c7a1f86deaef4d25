-- ===== src/Collectors/Linux.antt =====
-- The collectors of internal/collectors that read the files of /proc. A file is its text, none where it
-- cannot be opened.
pub mod Cpu
pub mod Memory
pub mod Network
pub mod Filesystem
pub mod Loadavg
pub mod Types
