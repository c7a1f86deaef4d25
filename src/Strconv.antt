-- ===== src/Strconv.antt =====
-- Go's `strconv.Itoa` on numbers that are not negative, and the digits that `strconv` and
-- `fmt.Sscanf` read.
pub mod Decimal
pub mod Hex
