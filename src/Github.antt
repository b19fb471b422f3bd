-- ===== src/Github.antt =====
-- providers/github: the provider for GitHub Codespaces, but for its connections.
pub mod Sources
pub mod Recall
pub mod Users
pub mod Client
pub mod Requests
pub mod Codespaces
pub mod Creating
pub mod Paging
pub mod Streams
pub mod Settings
pub mod HostKeys
pub mod Pending
pub mod Pinning
pub mod Options
pub mod Ready
pub mod Kept
pub mod Examples
