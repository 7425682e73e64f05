-- ===== src/Build.antt =====
-- The programs of bzl/private, which put the release together and test it, and the one of
-- examples/testing.
pub mod Files
pub mod Distdir
pub mod Platforms
pub mod Registry
pub mod Workspace
pub mod Runner
pub mod CheckHash
