-- ===== src/Server.antt =====
-- bin/server/src: authentication, proofs and the handlers, over any storage.
pub mod Checks
pub mod Auth
pub mod Timestamps
pub mod Proof
pub mod Upload
pub mod App
pub mod Download
pub mod Errors
pub mod Serve
pub mod Refused
pub mod Reads
pub mod Reach
pub mod Config
pub mod Start
