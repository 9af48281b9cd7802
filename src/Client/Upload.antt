-- ===== src/Client/Upload.antt =====
-- bin/client/src/upload.rs: an upload, from the encrypted files of a directory to the requests to the server
-- and the record of the root hash.
use verifiable_storage.Prelude.{ℕ, suc, Option, some, List, [], ◌∷◌, ◌++◌, map, ltb, length}
use verifiable_storage.Prelude.Result
use verifiable_storage.Prelude.Text.{Bytes, Str, as_bytes, to_be_bytes}
use verifiable_storage.Prelude.Exec.{Exec, ◌>>=◌, ◌>>◌, pure, lift, require}
use verifiable_storage.Crates.{Crates}
use verifiable_storage.Crypto.{sign_message, hash_leaf}
use verifiable_storage.Merkle.{from_data, root_hash}
use verifiable_storage.Common.FilePath.{join}
use verifiable_storage.Server.Upload.{UploadForm}
use verifiable_storage.Client.{client_io, ClientError, merkle_failed, no_files_found}
use verifiable_storage.Client.Config.{root_hash_file, filenames_file, upload_endpoint}
use verifiable_storage.Disk.{Disk, write, create_dir_all}
use verifiable_storage.Client.Files.{
  FileUploader, DirEntry, read_files_from_directory, encrypt_files,
}

unfoldable pub build_upload_message : FileUploader → Str → Str → Bytes → ℕ → Bytes
build_upload_message u filename file_hash file_content timestamp =
    as_bytes filename
    ++ (as_bytes u.batch_id ++ (as_bytes file_hash ++ (file_content ++ to_be_bytes timestamp)))

-- Code that sees the remote side or the disk alone.
abbrev on_remote : {S A : Type 0} → Exec ClientError S A → Exec ClientError (S × Disk) A
on_remote m (s, d) = let (r, s') = m s in (r, (s', d))

abbrev pub on_disk : {S A : Type 0} → Exec ClientError Disk A → Exec ClientError (S × Disk) A
on_disk m (s, d) = let (r, d') = m d in (r, (s, d'))

module _ ⦃K : Crates⦄ where
  unfoldable pub build_multipart_form : FileUploader → ℕ → Str → Bytes → Str → UploadForm
  build_multipart_form u timestamp filename content public_key_hex =
      let leaf_hash_hex = K.hex_encode (hash_leaf content) in
      let message = build_upload_message u filename leaf_hash_hex content timestamp in
      record {
        file = some content;
        filename = filename;
        batch_id = u.batch_id;
        file_hash = leaf_hash_hex;
        signature = K.hex_encode (sign_message u.signing_key message);
        timestamp = timestamp;
        public_key = public_key_hex;
      }

  -- The remote side has a state of its own, and answers a form at a URL with success or an error;
  -- `clock` gives the time of each request.
  module _ {S : Type 0} (post : Str → UploadForm → Exec ClientError S (Unit {0})) where
    unfoldable pub upload_files_to_server :
        FileUploader → (ℕ → ℕ) → List (Str × Bytes) → Exec ClientError S (Unit {0})
    upload_files_to_server u clock [] = pure tt
    upload_files_to_server u clock ((filename, content) ∷ file_list) = do
      let public_key_hex = K.hex_encode (K.verifying_key u.signing_key)
      post (u.server ++ upload_endpoint)
          (build_multipart_form u (clock 0) filename content public_key_hex)
      upload_files_to_server u (λ i. clock (suc i)) file_list

  -- `to_string_pretty` is that of serde_json.
  module _ (to_string_pretty : List Str → Str) where
    unfoldable pub save_upload_metadata :
        FileUploader → Str → List (Str × Bytes) → Exec ClientError Disk (Unit {0})
    unfolding write create_dir_all
    save_upload_metadata u root_hash_hex file_list = do
      let batch_dir = join u.data_dir u.batch_id
      create_dir_all batch_dir
      write (join batch_dir root_hash_file) (as_bytes root_hash_hex)
      write (join batch_dir filenames_file)
          (as_bytes (to_string_pretty (map (λ (f : Str × Bytes). f.0) file_list)))

    unfoldable pub upload_from_directory :
        {S : Type 0}
        → (Str → UploadForm → Exec ClientError S (Unit {0}))
        → FileUploader
        → (ℕ → ℕ)
        → Option (List DirEntry)
        → Exec ClientError (S × Disk) Str
    unfolding root_hash
    upload_from_directory post u clock dir = do
      file_list ← lift (read_files_from_directory dir)
      require (ltb 0 (length file_list)) no_files_found
      encrypted_file_list ← lift (encrypt_files u file_list)
      let encrypted_file_data = map (λ (f : Str × Bytes). f.1) encrypted_file_list
      tree ← lift (Result.map_err merkle_failed (from_data encrypted_file_data))
      let root_hash_hex = K.hex_encode (root_hash tree)
      on_remote (upload_files_to_server post u clock encrypted_file_list)
      on_disk (save_upload_metadata u root_hash_hex file_list)
      pure root_hash_hex

    abbrev pub upload_files :
        {S : Type 0}
        → (Str → UploadForm → Exec ClientError S (Unit {0}))
        → (ℕ → ℕ)
        → Option (List DirEntry)
        → Str
        → Str
        → Bytes
        → Str
        → Exec ClientError (S × Disk) Str
    upload_files post clock dir server batch_id signing_key data_dir =
        upload_from_directory post
          (record {
            server = server;
            batch_id = batch_id;
            signing_key = signing_key;
            data_dir = data_dir;
          })
          clock dir
