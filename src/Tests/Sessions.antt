-- ===== src/Tests/Sessions.antt =====
-- A whole session of a client at data: two files in a directory, and the download of one of them.
use verifiable_storage.Prelude.{
  ℕ, ◌≡◌, refl, Bool, true, false, Option, none, some, List, [], ◌∷◌, ◌==◌,
}
use verifiable_storage.Prelude.Result.{ok, err}
use verifiable_storage.Prelude.Text.{Bytes, Str, text}
use verifiable_storage.Prelude.Sort.{str_leb, sort}
use verifiable_storage.Prelude.Dict.{str_eq, lookup}
use verifiable_storage.Common.Filename.{validate_filename}
use verifiable_storage.Storage.Tables.{Tables, names_of}
use verifiable_storage.Storage.Batches.{HoldsBatch}
use verifiable_storage.Server.Upload.{UploadForm}
use verifiable_storage.Client.{request_failed}
use verifiable_storage.Client.Files.{
  FileUploader, DirEntry, read_entries, read_files_from_directory,
}
use verifiable_storage.Client.Download.{Server}
use verifiable_storage.Protocol.Forms.{client_of}
use verifiable_storage.Protocol.Session.Runs.{uploader}
use verifiable_storage.Tests.ToyCrates.{toy_crates, zeros}
use verifiable_storage.Tests.Transfers.{nothing_stored}

abbrev var : Str → Option Str
var _ = none

abbrev key : Bytes
key = zeros 32

abbrev self : FileUploader
self = uploader var none (text "b1") key

-- Two files, not in the order of their names, and a directory.
abbrev entries : List DirEntry
entries =
    record { filename = text "b.txt"; is_file = true; content = some (1 ∷ 2 ∷ []) }
    ∷ record { filename = text "old"; is_file = false; content = none }
    ∷ record { filename = text "a.txt"; is_file = true; content = some (3 ∷ []) }
    ∷ []

abbrev contents : List (Str × Bytes)
contents = (text "a.txt", 3 ∷ []) ∷ (text "b.txt", 1 ∷ 2 ∷ []) ∷ []

abbrev accepts : UploadForm → Bool
accepts form = true

abbrev show_names : List Str → Str
show_names ns = text "[]"

abbrev respond : Server
respond url req = err request_failed

abbrev now : ℕ → Option ℕ
now i = some 1704067200000

abbrev clock : ℕ → ℕ
clock i = 1704067200000

read : read_files_from_directory (some entries) ≡ ok contents
unfolding read_files_from_directory read_entries validate_filename sort str_leb ◌==◌
read = refl

new : HoldsBatch (client_of self) (text "b1") nothing_stored []
unfolding lookup names_of sort
new = record { contents = λ name. refl; names_eq = refl }

abbrev first : Str → ℕ
first [] = 0
first (c ∷ s) = c
