-- ===== src/Client/Main.antt =====
-- bin/client/src/main.rs: the commands of the client.
use verifiable_storage.Prelude.{ℕ, Bool, Option, none, some, List}
use verifiable_storage.Prelude.Result.{Result, ok, err, panic}
use verifiable_storage.Prelude.Text.{Bytes, Str, as_bytes}
use verifiable_storage.Prelude.Exec.{Exec, ◌>>=◌, ◌>>◌, pure}
use verifiable_storage.Disk.{Disk, create_dir_all, write}
use verifiable_storage.Crates.{Crates}
use verifiable_storage.Common.FilePath.{join}
use verifiable_storage.Server.Upload.{UploadForm}
use verifiable_storage.Client.{ClientError, client_io}
use verifiable_storage.Client.Config
use verifiable_storage.Client.Config.{ClientConfig, client_id_file, get_server_url}
use verifiable_storage.Client.Keypair.{generate_keypair, get_or_create_keypair}
use verifiable_storage.Client.Files.{DirEntry}
use verifiable_storage.Client.Upload.{upload_files, on_disk}
use verifiable_storage.Client.Download.{Server, download_file}
use verifiable_storage.Client.RootHash.{load_root_hash}

pub data Commands : Type 0 where
  generate_keypair_command : (force : Bool) → Commands
  upload_command : (dir : Option (List DirEntry)) (server : Option Str) (batch_id : Str) → Commands
  download_command : (filename batch_id : Str) (server root_hash output_dir : Option Str) → Commands

-- `.expect(…)`
abbrev pub expect : {S A : Type 0} → Result ClientError A × S → Result ClientError A × S
expect (ok a, s) = (ok a, s)
expect (err e, s) = (panic, s)
expect (panic, s) = (panic, s)

unfoldable pub root_hash_or_saved : Option Str → Str → Str → Exec ClientError Disk Str
root_hash_or_saved (some root_hash) batch_id data_dir d = (ok root_hash, d)
root_hash_or_saved none batch_id data_dir d = expect (load_root_hash batch_id data_dir d)

module _ ⦃K : Crates⦄ (to_string_pretty : List Str → Str) {S : Type 0}
    (post : Str → UploadForm → Exec ClientError S (Unit {0})) (respond : Server) where
  -- What comes after the keys are there.
  unfoldable pub dispatch :
      ClientConfig → Bytes → Str → (ℕ → ℕ) → Commands → Exec ClientError (S × Disk) (Unit {0})
  dispatch config signing_key client_id clock (generate_keypair_command force) s = (panic, s)
  dispatch config signing_key client_id clock (upload_command dir server batch_id) s =
      (upload_files to_string_pretty post clock dir (get_server_url config server) batch_id
            signing_key config.data_dir
          >>= λ _. pure tt)
        s
  dispatch config signing_key client_id clock
        (download_command filename batch_id server root_hash output_dir) s =
      on_disk
        (root_hash_or_saved root_hash batch_id config.data_dir >>= λ root.
          download_file respond
            (record {
              server = get_server_url config server;
              batch_id = batch_id;
              signing_key = signing_key;
              client_id = client_id;
              data_dir = config.data_dir;
            })
            (clock 0) filename root output_dir)
        s

  -- The parent of the file of the identifier is the data directory.
  unfoldable pub with_keys :
      ClientConfig → Bytes → (ℕ → ℕ) → Commands → Exec ClientError (S × Disk) (Unit {0})
  with_keys config random clock command = do
    (signing_key, client_id) ← on_disk (get_or_create_keypair config.data_dir random)
    on_disk (create_dir_all config.data_dir)
    on_disk (write (join config.data_dir client_id_file) (as_bytes client_id))
    dispatch config signing_key client_id clock command

  unfoldable pub main :
      (Str → Option Str) → Bytes → (ℕ → ℕ) → Commands → Exec ClientError (S × Disk) (Unit {0})
  main var random clock (generate_keypair_command force) =
      on_disk (generate_keypair (Config.load var).data_dir random force)
  main var random clock (upload_command dir server batch_id) =
      with_keys (Config.load var) random clock (upload_command dir server batch_id)
  main var random clock (download_command filename batch_id server root_hash output_dir) =
      with_keys (Config.load var) random clock
        (download_command filename batch_id server root_hash output_dir)
