-- ===== src/Lifecycle.antt =====
-- core/lifecycle: the state machine that brings an environment up.
pub mod Phase
pub mod States
pub mod History
pub mod Flight
pub mod Snapshots
pub mod World
pub mod Defaults
pub mod Ensure
pub mod Watch
pub mod BringUp
pub mod Connect
pub mod Wp
pub mod Reaching
pub mod Outcome
pub mod Connecting
pub mod Closing
pub mod Halting
pub mod Examples
