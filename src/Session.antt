-- ===== src/Session.antt =====
-- core/session/session.go: the registry of live client sessions.
pub mod Manager
pub mod Counting
pub mod Invariant
pub mod Listing
pub mod Oldest
pub mod Listed
pub mod Closing
pub mod Steps
pub mod Runs
pub mod Limits
pub mod Hooks
pub mod Refinement
pub mod Behaviour
pub mod Examples
