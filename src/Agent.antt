-- ===== src/Agent.antt =====
-- The agent process: the handlers behind its socket and the connections that it serves.
pub mod Locate
pub mod Client
pub mod Service
pub mod Shutdown
pub mod Serve
pub mod Start
pub mod Replies
pub mod Refinement
pub mod Harden
