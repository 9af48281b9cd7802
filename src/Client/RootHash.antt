-- ===== src/Client/RootHash.antt =====
-- bin/client/src/download.rs: the root hash that an upload has left.
use verifiable_storage.Prelude.{◌≡◌, refl, false, some, List, map, All, ◌∙◌, ◌==◌}
use verifiable_storage.Prelude.Result.{ok}
use verifiable_storage.Prelude.Text.{Bytes, Str, as_bytes, trim}
use verifiable_storage.Prelude.Dict.{str_eq, lookup, insert, lookup-insert_self}
use verifiable_storage.Prelude.Exec.{Exec, ◌>>=◌, ◌>>◌, require, pure}
use verifiable_storage.Disk.{Disk, exists, read_to_string, create_dir_all, write}
use verifiable_storage.Disk.Laws.{sound, read_to_string-sound}
use verifiable_storage.Disk.Paths.{lookup-insert-join}
use verifiable_storage.Crates.{Crates, IsLawful, IsByte}
use verifiable_storage.Common.FilePath.{IsPlain, join}
use verifiable_storage.Client.{ClientError, client_io, root_hash_not_found}
use verifiable_storage.Client.Config.{root_hash_file, filenames_file}
use verifiable_storage.Client.Files.{FileUploader}
use verifiable_storage.Client.Upload.{save_upload_metadata}

unfoldable pub load_root_hash : Str → Str → Exec ClientError Disk Str
load_root_hash batch_id data_dir = do
  let path = join (join data_dir batch_id) root_hash_file
  found ← exists path
  require found root_hash_not_found
  root_hash ← read_to_string path
  pure (trim root_hash)

pub root_hash_file-IsPlain : IsPlain root_hash_file
root_hash_file-IsPlain = record {
  ne_nil = λ e. cc;
  ne_dot = λ e. cc;
  ne_dotdot = λ e. cc;
  no_slash = refl;
}

pub filenames_file-IsPlain : IsPlain filenames_file
filenames_file-IsPlain = record {
  ne_nil = λ e. cc;
  ne_dot = λ e. cc;
  ne_dotdot = λ e. cc;
  no_slash = refl;
}

files_differ : (filenames_file == root_hash_file) ≡ false
unfolding ◌==◌
files_differ = refl

module _ ⦃K : Crates⦄ (L : IsLawful K) (to_string_pretty : List Str → Str) where
  -- The root hash that an upload saves is the one that a download without `--root-hash` loads; while
  -- nothing fails, both succeed.
  pub load_root_hash-save_upload_metadata :
      (u : FileUploader) (root : Bytes) (file_list : List (Str × Bytes))
      (files : List (Str × Bytes))
      → All IsByte root
      → (files' : List (Str × Bytes)) × (save_upload_metadata to_string_pretty u
            (K.hex_encode root)
            file_list
            (sound files)
          ≡ (ok tt, sound files'))
        × (load_root_hash u.batch_id u.data_dir (sound files')
            ≡ (ok (K.hex_encode root), sound files'))
  unfolding save_upload_metadata load_root_hash create_dir_all write exists
  load_root_hash-save_upload_metadata u root file_list files bytes =
      let dir = join u.data_dir u.batch_id in
      let path = join dir root_hash_file in
      let fs₁ = insert path (as_bytes (K.hex_encode root)) files in
      let names = as_bytes (to_string_pretty (map (λ (f : Str × Bytes). f.0) file_list)) in
      let fs₂ = insert (join dir filenames_file) names fs₁ in
      let found : lookup path fs₂ ≡ some (as_bytes (K.hex_encode root)) =
        lookup-insert-join dir filenames_file root_hash_file names fs₁ filenames_file-IsPlain
          root_hash_file-IsPlain
        ∙ rw files_differ (lookup-insert_self path (as_bytes (K.hex_encode root)) files) in
      (
        fs₂,
        refl,
        rw
            (
              found,
              read_to_string-sound path (K.hex_encode root) fs₂ found (L.hex_scalar root bytes),
              L.hex_trim root,
            )
            refl,
      )
