-- ===== src/Ssh.antt =====
-- ssh: the channels of a client, and who may be one.
pub mod Channel
pub mod Answers
pub mod Exit
pub mod Notices
pub mod Teardown
pub mod Releasing
pub mod Auth
mod Examples
