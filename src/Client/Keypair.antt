-- ===== src/Client/Keypair.antt =====
-- bin/client/src/keypair.rs: the client's keys on its disk.
pub mod Laws
pub mod Held
use verifiable_storage.Prelude.{
  Bool, true, false, not, ◌&&◌, Option, none, some, [], ◌++◌, if◌then◌else◌,
}
use verifiable_storage.Prelude.Result
use verifiable_storage.Prelude.Text.{Bytes, Str, text, as_bytes}
use verifiable_storage.Prelude.Exec.{Exec, ◌>>=◌, ◌>>◌, lift, pure, require}
use verifiable_storage.Disk.{Disk, create_dir_all, write, read_to_string, exists, remove_file}
use verifiable_storage.Crates.{Crates}
use verifiable_storage.Crypto
use verifiable_storage.Crypto.{compute_client_id}
use verifiable_storage.Common.FilePath.{join}
use verifiable_storage.Client.{ClientError, client_io, keypair_exists, crypto_failed}
use verifiable_storage.Client.Config.{client_id_file, get_key_file_path}

unfoldable pub remove_existing_keypair : Str → Str → Exec ClientError Disk (Unit {0})
remove_existing_keypair data_dir key_file = do
  remove_file key_file
  let id_file = join data_dir client_id_file
  found ← exists id_file
  (if found then remove_file id_file else pure tt)

-- The parent of both files is the data directory.
unfoldable pub save_client_id : Str → Str → Exec ClientError Disk (Unit {0})
save_client_id data_dir client_id = do
  create_dir_all data_dir
  write (join data_dir client_id_file) (as_bytes client_id)

abbrev pub text_or_nil : Option Str → Str
text_or_nil none = []
text_or_nil (some s) = s

module _ ⦃K : Crates⦄ (data_dir : Str) where
  unfoldable pub save_keypair : Str → Bytes → Bytes → Exec ClientError Disk (Unit {0})
  save_keypair key_file signing_key verifying_key = do
    create_dir_all data_dir
    write key_file (as_bytes (K.hex_encode (signing_key ++ verifying_key)))

  -- The random generator's 32 bytes come in as an argument.
  module _ (random : Bytes) where
    unfoldable pub generate_keypair : Bool → Exec ClientError Disk (Unit {0})
    generate_keypair force = do
      create_dir_all data_dir
      let key_file = get_key_file_path data_dir
      found ← exists key_file
      require (not (found && not force)) keypair_exists
      (if force
          then (do
            again ← exists key_file
            (if again then remove_existing_keypair data_dir key_file else pure tt))
          else pure tt)
      let (signing_key, verifying_key) = Crypto.generate_keypair random
      let client_id = compute_client_id verifying_key
      save_keypair key_file signing_key verifying_key
      save_client_id data_dir client_id

    -- `crypto::load_or_generate_keypair` with its calls on files: the text of the key file is read, or
    -- that of the new keys is written.
    unfoldable pub load_or_generate : Str → Exec ClientError Disk Crypto.Keypair
    load_or_generate key_file = do
      found ← exists key_file
      (if found
          then (do
            key_data ← read_to_string key_file
            loaded ← lift (
                Result.map_err crypto_failed
                  (Crypto.load_or_generate_keypair random (some key_data)))
            pure loaded.0)
          else (do
            loaded ←
                lift (Result.map_err crypto_failed (Crypto.load_or_generate_keypair random none))
            create_dir_all data_dir
            write key_file (as_bytes (text_or_nil loaded.1))
            pure loaded.0))

    unfoldable pub get_or_create_keypair : Exec ClientError Disk (Bytes × Str)
    get_or_create_keypair = do
      create_dir_all data_dir
      keys ← load_or_generate (get_key_file_path data_dir)
      pure (keys.signing_key, keys.client_id)
