-- ===== src/Supervisor.antt =====
-- Restart policies and the project supervisor of cmd/hull/supervisor.go.
pub mod Policy
pub mod RoundTrip
pub mod Backoff
pub mod Engine
pub mod Budget
pub mod Crash
pub mod Persist
pub mod Teardown
pub mod Service
pub mod Restart
pub mod World
pub mod Outcome
mod Tests
