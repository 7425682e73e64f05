-- ===== src/Config.antt =====
-- config/config.go: the configuration file, the choice of a helper from it, and its patterns.
pub mod Glob
pub mod Find
pub mod Read
