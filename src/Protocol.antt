-- ===== src/Protocol.antt =====
-- The client and the server together.
pub mod Download
pub mod Files
pub mod Stores
pub mod Forms
pub mod Upload
pub mod Roundtrip
pub mod Remote
pub mod Session
