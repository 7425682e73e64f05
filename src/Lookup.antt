-- ===== src/Lookup.antt =====
-- authenticate/internal/lookupchain/lookupchain.go: the sources of secrets and the chain of them.
pub mod Source
pub mod Chain
