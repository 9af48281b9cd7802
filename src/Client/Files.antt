-- ===== src/Client/Files.antt =====
-- bin/client/src/upload.rs: the files of a directory, read and encrypted for an upload.
use verifiable_storage.Prelude.{Bool, Option, List, [], ◌∷◌, if◌then◌else◌}
use verifiable_storage.Prelude.Result.{Result, ok, ok_or, map_err, ◌>>=◌, ◌>>◌}
use verifiable_storage.Prelude.Text.{Bytes, Str}
use verifiable_storage.Prelude.Sort.{str_leb, sort}
use verifiable_storage.Crates.{Crates}
use verifiable_storage.Crypto.{encrypt_file}
use verifiable_storage.Common.Filename.{validate_filename}
use verifiable_storage.Client.{ClientError, invalid_filename, io_failed, crypto_failed}

pub record FileUploader : Type 0 where
  pub server : Str
  pub batch_id : Str
  pub signing_key : Bytes
  pub data_dir : Str

-- An entry of the directory: its name as a text (that of the whole path where the name is no
-- Unicode), and what reading it gives.
pub record DirEntry : Type 0 where
  pub filename : Str
  pub is_file : Bool
  pub content : Option Bytes

-- `a.0.cmp(&b.0)`
abbrev pub name_leb : Str × Bytes → Str × Bytes → Bool
name_leb a b = str_leb a.0 b.0

-- The loop over the entries.
unfoldable pub read_entries : List DirEntry → Result ClientError (List (Str × Bytes))
unfolding validate_filename
read_entries [] = ok []
read_entries (e ∷ entries) =
    let rest = read_entries entries in
    if e.is_file
    then (do
      map_err invalid_filename (validate_filename e.filename)
      content ← ok_or io_failed e.content
      more ← rest
      ok ((e.filename, content) ∷ more))
    else rest

-- No entries are those of a directory that cannot be read.
unfoldable pub read_files_from_directory :
    Option (List DirEntry) → Result ClientError (List (Str × Bytes))
read_files_from_directory dir = do
  entries ← ok_or io_failed dir
  file_list ← read_entries entries
  ok (sort name_leb file_list)

module _ ⦃K : Crates⦄ where
  -- `map` and `collect`, which stops at the first error.
  unfoldable pub encrypt_files :
      FileUploader → List (Str × Bytes) → Result ClientError (List (Str × Bytes))
  encrypt_files u [] = ok []
  encrypt_files u ((filename, plaintext) ∷ file_list) = do
    encrypted ← map_err crypto_failed (encrypt_file u.signing_key filename u.batch_id plaintext)
    rest ← encrypt_files u file_list
    ok ((filename, encrypted) ∷ rest)
