-- ===== src/Authenticate/Instructions.antt =====
-- `SetupInstructionsForURI` of the helpers: what `setup-uri` prints.
pub mod Plain
pub mod Chains
