-- ===== src/Images.antt =====
-- The image store: references and how a stored image answers one (pkg/store/reference.go), what
-- `rmi` takes of the matches (cmd/hull/rmi.go, rmi_darwin.go), what `run` finds in the cache or
-- pulls (`cachedDigest` and `resolveImageDigest` of cmd/hull/run.go), and what `prune` removes
-- (cmd/hull/prune.go).
mod Reference
mod Order
mod Choice
mod Pull
mod Remove
mod Prune
mod Newest
mod Justified
mod Kept
mod Single
mod Names
mod Parts
mod Tests
