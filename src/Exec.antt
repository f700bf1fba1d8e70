-- ===== src/Exec.antt =====
-- cmd/hull/exec_compose.go: the arguments of `compose exec`, and the healthchecks of services.
mod Args
mod Rendered
mod Hooks
mod Order
mod Health
mod Tries
mod Tests
