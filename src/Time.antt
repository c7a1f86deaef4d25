-- ===== src/Time.antt =====
-- Go's `time` package, as far as the program calls it.
pub mod Duration
