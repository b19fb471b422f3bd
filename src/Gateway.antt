-- ===== src/Gateway.antt =====
-- core/gateway: where the sessions, the lifecycle and the provider meet.
pub mod Names
pub mod Redact
pub mod Resolve
pub mod Opening
pub mod Wiring
pub mod Access
pub mod Leaks
pub mod Texts
pub mod Examples
