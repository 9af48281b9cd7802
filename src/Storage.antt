-- ===== src/Storage.antt =====
-- crates/storage/src/lib.rs: the trait `Storage`, over the state of a backend.
pub mod Tables
pub mod Database
pub mod Leaves
pub mod Trees
pub mod Store
pub mod Race
pub mod Pool
pub mod Success
pub mod Keeps
pub mod Valid
pub mod Batches
pub mod Directory
pub mod Strict
pub mod Histories
pub mod Connect
pub mod Schema
pub mod Metadata
pub mod Filesystem
use verifiable_storage.Prelude.{ℕ, Bool, Option, List}
use verifiable_storage.Prelude.Text.{Bytes, Str}
use verifiable_storage.Prelude.Exec.{Exec}
use verifiable_storage.Disk.{IoError}
use verifiable_storage.Merkle.{MerkleTree, MerkleTreeError}

-- What a backend can fail with.
pub data StorageError : Type 0 where
  query_failed file_not_found batch_not_found connection_failed : StorageError
  io_failed invalid_metadata decode_failed serialize_failed : StorageError
  tree_failed : MerkleTreeError → StorageError

instance abbrev pub storage_io : IoError StorageError
storage_io = record { failed = io_failed }

pub record Storage : Type 1 where
  pub State : Type 0
  pub read_file : Str → Str → Str → Exec StorageError State Bytes
  pub load_batch_filenames : Str → Str → Exec StorageError State (List Str)
  pub file_exists : Str → Str → Str → Exec StorageError State Bool
  pub store_public_key : Str → Bytes → Exec StorageError State (Unit {0})
  pub load_public_key : Str → Exec StorageError State (Option Bytes)
  pub load_merkle_tree : Str → Str → Exec StorageError State (Option MerkleTree)
  pub store_file_and_update_tree : Str → Str → Str → Bytes → Exec StorageError State (Unit {0})
