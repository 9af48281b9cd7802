-- ===== src/Protocol/Session/Download.antt =====
-- The download of bin/client/src/download.rs to the plaintext on the client's disk, once the server
-- has given an answer that the client accepts.
use verifiable_storage.Prelude.{ℕ, ◌≡◌, refl, Option, none, some, List, All, ◌++◌, ==_iff}
use verifiable_storage.Prelude.Result.{ok}
use verifiable_storage.Prelude.Text.{Bytes, Str, text, as_bytes}
use verifiable_storage.Prelude.Dict.{str_eq, lookup, insert}
use verifiable_storage.Prelude.Exec.{◌>>=◌}
use verifiable_storage.Crates.{Crates, IsLawful, IsByte}
use verifiable_storage.Crypto.{decrypt_file}
use verifiable_storage.Disk.{create_dir_all, write, exists}
use verifiable_storage.Disk.Laws.{sound, read_to_string-sound}
use verifiable_storage.Common.{DownloadResponse}
use verifiable_storage.Common.Filename.{validate_filename}
use verifiable_storage.Common.FilePath.{join}
use verifiable_storage.Client.{client_io}
use verifiable_storage.Client.Paths.{root_path}
use verifiable_storage.Client.RootHash.{load_root_hash}
use verifiable_storage.Client.Download.{
  FileDownloader, Server, output_path, request_file_proof, save_encrypted_file,
  save_downloaded_file, download_and_verify, download_file,
}
use verifiable_storage.Client.Main.{root_hash_or_saved}
use verifiable_storage.Protocol.Download.{IsAccepted}

-- The files after a download: the encrypted one, and the plaintext.
abbrev pub downloaded :
    FileDownloader → Str → Option Str → Bytes → Bytes → List (Str × Bytes) → List (Str × Bytes)
downloaded d f output_dir content plaintext files =
    insert (join (output_path d output_dir) f) plaintext
      (insert (join (output_path d output_dir) (f ++ text ".encrypted")) content files)

module _ ⦃K : Crates⦄ (L : IsLawful K) where
  -- The root hash in the file is loaded, and loading changes nothing.
  root_hash_or_saved-sound :
      (batch_id data_dir : Str) (root : Bytes) (files : List (Str × Bytes))
      → All IsByte root
      → lookup (root_path data_dir batch_id) files ≡ some (as_bytes (K.hex_encode root))
      → root_hash_or_saved none batch_id data_dir (sound files)
        ≡ (ok (K.hex_encode root), sound files)
  unfolding root_hash_or_saved load_root_hash exists
  root_hash_or_saved-sound batch_id data_dir root files bytes found =
      rw
        (
          found,
          read_to_string-sound (root_path data_dir batch_id) (K.hex_encode root) files found
              (L.hex_scalar root bytes),
          L.hex_trim root,
        )
        refl

  -- An answer that the client accepts leaves the plaintext on the disk.
  download_file-IsAccepted :
      (respond : Server) (d : FileDownloader) (timestamp : ℕ) (f : Str) (x p root : Bytes)
      (resp : DownloadResponse) (output_dir : Option Str) (files : List (Str × Bytes))
      → validate_filename f ≡ ok tt
      → request_file_proof respond d timestamp f ≡ ok resp
      → IsAccepted f x root resp
      → decrypt_file d.signing_key f d.batch_id x ≡ ok p
      → download_file respond d timestamp f (K.hex_encode root) output_dir (sound files)
        ≡ (ok tt, sound (downloaded d f output_dir x p files))
  unfolding download_file download_and_verify save_encrypted_file save_downloaded_file
      create_dir_all write
  download_file-IsAccepted respond d timestamp f x p root resp output_dir files valid answered a
        opened =
      rw
        (
          valid,
          answered,
          (==_iff resp.filename f).1 a.name_eq,
          a.content_eq,
          a.verified,
          a.name_eq,
          opened,
        )
        refl

  -- So does the command without `--root-hash`, where the root hash of the batch is on the disk.
  pub saved_root_download :
      (respond : Server) (d : FileDownloader) (timestamp : ℕ) (f : Str) (x p root : Bytes)
      (resp : DownloadResponse) (output_dir : Option Str) (files : List (Str × Bytes))
      → validate_filename f ≡ ok tt
      → request_file_proof respond d timestamp f ≡ ok resp
      → IsAccepted f x root resp
      → decrypt_file d.signing_key f d.batch_id x ≡ ok p
      → All IsByte root
      → lookup (root_path d.data_dir d.batch_id) files ≡ some (as_bytes (K.hex_encode root))
      → (root_hash_or_saved none d.batch_id d.data_dir >>= λ r.
            download_file respond d timestamp f r output_dir)
          (sound files)
        ≡ (ok tt, sound (downloaded d f output_dir x p files))
  saved_root_download respond d timestamp f x p root resp output_dir files valid answered a opened
        bytes found =
      rw
        (
          root_hash_or_saved-sound d.batch_id d.data_dir root files bytes found,
          download_file-IsAccepted respond d timestamp f x p root resp output_dir files valid
              answered a opened,
        )
        refl
