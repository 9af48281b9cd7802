-- ===== src/Storage/Filesystem.antt =====
-- crates/storage/src/filesystem.rs: the storage in files, one directory for a client with one
-- directory for each of its batches.
pub mod Batch
pub mod Paths
pub mod Views
pub mod Steps
pub mod Writes
pub mod Frames
pub mod Refinement
pub mod Keys
pub mod Failures
pub mod Parts
use verifiable_storage.Prelude.{
  ◌≡◌, Bool, true, false, Option, none, some, List, [], ◌∷◌, if◌then◌else◌,
}
use verifiable_storage.Prelude.Result
use verifiable_storage.Prelude.Result.{ok_or}
use verifiable_storage.Prelude.Text.{Bytes, Str, text, as_bytes, trim}
use verifiable_storage.Prelude.Exec.{Exec, ◌>>=◌, ◌>>◌, lift, pure, require}
use verifiable_storage.Disk.{
  Disk, create_dir_all, write, read, read_to_string, exists, create, write_all, sync_all,
  open_or_create, lock_exclusive,
}
use verifiable_storage.Crates.{Crates}
use verifiable_storage.Crypto.{hash_leaf}
use verifiable_storage.Merkle.{MerkleTree, from_leaf_hashes}
use verifiable_storage.Common.FilePath.{join}
use verifiable_storage.Storage.{
  Storage, StorageError, storage_io, batch_not_found, decode_failed, serialize_failed, tree_failed,
}
use verifiable_storage.Storage.Metadata
use verifiable_storage.Storage.Metadata.{Json, Map, insert_filename, load_filenames, save_atomic}

unfoldable pub write_file_atomic : Str → Bytes → Exec StorageError Disk (Unit {0})
write_file_atomic file_path content = do
  create file_path
  write_all file_path content
  sync_all file_path

-- The paths below the directory of the storage.
module _ (data_dir : Str) where
  unfoldable pub client_dir : Str → Str
  client_dir client_id = join data_dir client_id

  unfoldable pub batch_dir : Str → Str → Str
  batch_dir client_id batch_id = join (join data_dir client_id) batch_id

  unfoldable pub file_path : Str → Str → Str → Str
  file_path client_id batch_id filename = join (batch_dir client_id batch_id) filename

  unfoldable pub metadata_path : Str → Str → Str
  metadata_path client_id batch_id = join (batch_dir client_id batch_id) (text "metadata.json")

  unfoldable pub public_key_path : Str → Str
  public_key_path client_id = join (client_dir client_id) (text "public_key.hex")

  unfoldable pub merkle_tree_path : Str → Str → Str
  merkle_tree_path client_id batch_id =
      join (batch_dir client_id batch_id) (text "merkle_tree.json")

  unfoldable pub lock_file_path : Str → Str → Str
  lock_file_path client_id batch_id = join (batch_dir client_id batch_id) (text ".lock")

  unfoldable pub read_file : Str → Str → Str → Exec StorageError Disk Bytes
  read_file client_id batch_id filename = read (file_path client_id batch_id filename)

  unfoldable pub file_exists : Str → Str → Str → Exec StorageError Disk Bool
  file_exists client_id batch_id filename = exists (file_path client_id batch_id filename)

  module _ ⦃K : Crates⦄ ⦃J : Json⦄ where
    unfoldable pub load_batch_filenames : Str → Str → Exec StorageError Disk (List Str)
    load_batch_filenames client_id batch_id = do
      let metadata_file = metadata_path client_id batch_id
      found ← exists metadata_file
      require found batch_not_found
      load_filenames metadata_file

    unfoldable pub store_public_key : Str → Bytes → Exec StorageError Disk (Unit {0})
    store_public_key client_id public_key = do
      create_dir_all (client_dir client_id)
      write (public_key_path client_id) (as_bytes (K.hex_encode public_key))

    unfoldable pub load_public_key : Str → Exec StorageError Disk (Option Bytes)
    load_public_key client_id = do
      let public_key_file = public_key_path client_id
      found ← exists public_key_file
      (if found
          then (do
            public_key_hex ← read_to_string public_key_file
            public_key_bytes ← lift (ok_or decode_failed (K.hex_decode (trim public_key_hex)))
            pure (some public_key_bytes))
          else pure none)

    unfoldable pub load_merkle_tree : Str → Str → Exec StorageError Disk (Option MerkleTree)
    load_merkle_tree client_id batch_id = do
      let tree_file = merkle_tree_path client_id batch_id
      found ← exists tree_file
      (if found
          then (do
            tree_json ← read_to_string tree_file
            tree ← lift (ok_or decode_failed (J.tree_from_str tree_json))
            pure (some tree))
          else pure none)

    unfoldable pub read_leaf_hashes : Str → Str → List Str → Exec StorageError Disk (List Bytes)
    read_leaf_hashes client_id batch_id [] = pure []
    read_leaf_hashes client_id batch_id (filename ∷ filenames) = do
      file_content ← read (file_path client_id batch_id filename)
      leaf_hashes ← read_leaf_hashes client_id batch_id filenames
      pure (hash_leaf file_content ∷ leaf_hashes)

    unfoldable pub load_or_new : Str → Exec StorageError Disk Map
    load_or_new metadata_file = do
      found ← exists metadata_file
      if found then Metadata.load metadata_file else pure []

    -- The lock is released at the end, on errors too.
    unfoldable pub store_file_and_update_tree :
        Str → Str → Str → Bytes → Exec StorageError Disk (Unit {0})
    store_file_and_update_tree client_id batch_id filename content = do
      create_dir_all (batch_dir client_id batch_id)
      open_or_create (lock_file_path client_id batch_id)
      lock_exclusive (lock_file_path client_id batch_id)
      write_file_atomic (file_path client_id batch_id filename) content
      let metadata_file = metadata_path client_id batch_id
      metadata ← load_or_new metadata_file
      save_atomic metadata_file (insert_filename metadata filename)
      filenames ← load_filenames metadata_file
      leaf_hashes ← read_leaf_hashes client_id batch_id filenames
      tree ← lift (Result.map_err tree_failed (from_leaf_hashes leaf_hashes))
      tree_json ← lift (ok_or serialize_failed (J.tree_to_string tree))
      write_file_atomic (merkle_tree_path client_id batch_id) (as_bytes tree_json)

    abbrev pub filesystem_storage : Storage
    filesystem_storage = record {
      State = Disk;
      read_file = read_file;
      load_batch_filenames = load_batch_filenames;
      file_exists = file_exists;
      store_public_key = store_public_key;
      load_public_key = load_public_key;
      load_merkle_tree = load_merkle_tree;
      store_file_and_update_tree = store_file_and_update_tree;
    }
