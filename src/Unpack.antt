-- ===== src/Unpack.antt =====
-- Unpacking the layers of an image: pkg/ociclient/unpack.go.
mod Path
mod Inside
mod Joined
mod Tar
mod Extract
mod Layer
mod Contained
mod Written
mod Confined
mod Counted
mod Bounded
mod Retry
mod Tries
mod User
mod Resolved
mod Tests
