-- ===== src/LocalWriter.antt =====
-- internal/localwriter: the periodic writer of metrics and its JSONL backend.
pub mod Intervals
pub mod Jsonl
pub mod Writer
