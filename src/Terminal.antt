-- ===== src/Terminal.antt =====
-- The guest output filter of cmd/hull/termfilter.go.
pub mod Rune
pub mod Measure
pub mod Policy
pub mod Sanitize
pub mod Extend
pub mod Stream
pub mod Writer
pub mod Complete
pub mod Queries
pub mod Refuse
pub mod Pieces
mod Tests
