-- ===== src/Run.antt =====
-- What `run` makes of its flags: the environment entries of cmd/hull/env.go.
mod Env
mod Shadow
mod Resolve
mod Tests
