-- ===== src/Protocol/Session.antt =====
-- Whole runs of the client's commands against the server.
pub mod Uploads
pub mod Directory
pub mod Download
pub mod Upload
pub mod Encrypted
pub mod Runs
pub mod Commands
