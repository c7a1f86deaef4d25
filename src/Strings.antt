-- ===== src/Strings.antt =====
-- The functions of Go's `strings` and `bufio` that the program calls, over texts that are lists of
-- code points. A text is valid UTF-8, so bytes and code points agree on every test made here.
pub mod Affix
pub mod Trim
pub mod Split
pub mod Fields
pub mod Lines
pub mod Case
