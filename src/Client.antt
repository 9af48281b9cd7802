-- ===== src/Client.antt =====
-- bin/client/src: what the client does with the server's answers, and what it uploads.
pub mod Verify
pub mod Download
pub mod Files
pub mod Upload
pub mod Trust
pub mod Saved
pub mod Below
pub mod Config
pub mod Keypair
pub mod RootHash
pub mod Main
pub mod Runs
pub mod Paths
pub mod Genuine
use verifiable_storage.Disk.{IoError}
use verifiable_storage.Merkle.{MerkleTreeError}
use verifiable_storage.Crypto.{CryptoError}
use verifiable_storage.Common.Filename.{FilenameValidationError}

pub data ClientError : Type 0 where
  request_failed filename_mismatch decode_content_failed : ClientError
  decode_hex_failed invalid_hex_length root_mismatch io_failed no_files_found : ClientError
  keypair_exists root_hash_not_found : ClientError
  invalid_filename : FilenameValidationError → ClientError
  merkle_failed : MerkleTreeError → ClientError
  crypto_failed : CryptoError → ClientError

instance abbrev pub client_io : IoError ClientError
client_io = record { failed = io_failed }
