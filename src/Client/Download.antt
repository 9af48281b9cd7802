-- ===== src/Client/Download.antt =====
-- bin/client/src/download.rs: a download, from the signed request to the files on disk.
use verifiable_storage.Prelude.{ℕ, Option, none, some, ◌++◌, ◌==◌}
use verifiable_storage.Prelude.Result
use verifiable_storage.Prelude.Result.{Result, ok_or}
use verifiable_storage.Prelude.Text.{Bytes, Str, text, as_bytes, to_be_bytes}
use verifiable_storage.Prelude.Exec.{Exec, ◌>>=◌, ◌>>◌, lift, require}
use verifiable_storage.Crates.{Crates}
use verifiable_storage.Crypto.{sign_message, hash_leaf, decrypt_file}
use verifiable_storage.Common.{DownloadRequest, DownloadResponse}
use verifiable_storage.Common.Filename.{validate_filename}
use verifiable_storage.Client.Config.{downloaded_dir, download_endpoint}
use verifiable_storage.Common.FilePath.{join}
use verifiable_storage.Client.{
  client_io, ClientError, filename_mismatch, decode_content_failed, crypto_failed, invalid_filename,
}
use verifiable_storage.Disk.{Disk, write, create_dir_all}
use verifiable_storage.Client.Verify.{verify_merkle_proof}

-- `FileDownloader`, and `DownloadConfig` with the same fields.
pub record FileDownloader : Type 0 where
  pub server : Str
  pub batch_id : Str
  pub signing_key : Bytes
  pub client_id : Str
  pub data_dir : Str

unfoldable pub build_download_message : FileDownloader → Str → ℕ → Bytes
build_download_message d filename timestamp =
    as_bytes filename ++ (as_bytes d.batch_id ++ to_be_bytes timestamp)

-- The directory given, or the one of the batch.
unfoldable pub output_path : FileDownloader → Option Str → Str
output_path d none = join (join d.data_dir d.batch_id) downloaded_dir
output_path d (some dir) = dir

unfoldable pub save_encrypted_file : Str → Bytes → Str → Exec ClientError Disk (Unit {0})
unfolding write create_dir_all
save_encrypted_file filename encrypted_content output_dir = do
  create_dir_all output_dir
  write (join output_dir (filename ++ text ".encrypted")) encrypted_content

unfoldable pub save_downloaded_file :
    FileDownloader → Str → Bytes → Option Str → Exec ClientError Disk (Unit {0})
unfolding write create_dir_all
save_downloaded_file d filename content output_dir = do
  create_dir_all (output_path d output_dir)
  write (join (output_path d output_dir) filename) content

-- What the server answers to a request at a URL; any failure of the connection, a status of
-- failure and a body that cannot be read are errors.
abbrev pub Server : Type 0
Server = Str → DownloadRequest → Result ClientError DownloadResponse

module _ ⦃K : Crates⦄ where
  unfoldable pub request_of : FileDownloader → ℕ → Str → DownloadRequest
  request_of d timestamp filename = record {
    filename = filename;
    batch_id = d.batch_id;
    signature =
        K.hex_encode (sign_message d.signing_key (build_download_message d filename timestamp));
    timestamp = timestamp;
    client_id = d.client_id;
  }

module _ ⦃K : Crates⦄ (respond : Server) where
  unfoldable pub request_file_proof : FileDownloader → ℕ → Str → Result ClientError DownloadResponse
  request_file_proof d timestamp filename =
      respond (d.server ++ download_endpoint) (request_of d timestamp filename)

  -- `timestamp` is the clock's.
  unfoldable pub download_and_verify :
      FileDownloader → ℕ → Str → Str → Option Str → Exec ClientError Disk (Unit {0})
  download_and_verify d timestamp filename root_hash output_dir = do
    result ← lift (request_file_proof d timestamp filename)
    require (result.filename == filename) filename_mismatch
    encrypted_content ← lift (ok_or decode_content_failed (K.base64_decode result.file_content))
    let file_hash = hash_leaf encrypted_content
    lift (verify_merkle_proof result file_hash root_hash)
    save_encrypted_file result.filename encrypted_content (output_path d output_dir)
    plaintext ← lift (
        Result.map_err crypto_failed
          (decrypt_file d.signing_key result.filename d.batch_id encrypted_content))
    save_downloaded_file d result.filename plaintext output_dir

  unfoldable pub download_file :
      FileDownloader → ℕ → Str → Str → Option Str → Exec ClientError Disk (Unit {0})
  unfolding download_and_verify
  download_file config timestamp filename root_hash output_dir = do
    lift (Result.map_err invalid_filename (validate_filename filename))
    download_and_verify config timestamp filename root_hash output_dir
