-- ===== src/Authenticate/Oci.antt =====
-- The OCI helper of authenticate/oci.
pub mod Repository
pub mod Challenge
pub mod Tokens
pub mod Docker
pub mod AuthConfig
pub mod Exchange
pub mod Resolver
