-- ===== src/Text.antt =====
-- The functions of Go's `strconv` and `strings` that the sources call, over bytes.
pub mod Number
pub mod Trim
