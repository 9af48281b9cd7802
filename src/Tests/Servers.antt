-- ===== src/Tests/Servers.antt =====
-- Uploads to a server with the file system storage, and a download of one of the files.
use verifiable_storage.Prelude.{ℕ, ◌≡◌, refl, inl, Option, some, List, [], ◌∷◌, map, ◌==◌}
use verifiable_storage.Prelude.Result.{ok}
use verifiable_storage.Prelude.Text.{Bytes, Str, text, as_bytes}
use verifiable_storage.Prelude.Sort.{str_leb, sort}
use verifiable_storage.Prelude.Order.{has_name}
use verifiable_storage.Prelude.Dict.{str_eq, lookup, insert}
use verifiable_storage.Disk.Laws.{sound}
use verifiable_storage.Merkle.{MerkleTree, from_data}
use verifiable_storage.Common.{DownloadResponse}
use verifiable_storage.Common.FilePath.{IsPlain}
use verifiable_storage.Common.Filename.{validate_filename, validate_filename_iff}
use verifiable_storage.Storage.Filesystem.{batch_dir, filesystem_storage}
use verifiable_storage.Storage.Filesystem.Batch.{put, put_all}
use verifiable_storage.Storage.Filesystem.Views.{IsBatch, blank}
use verifiable_storage.Server.Checks.{validate_timestamp_default}
use verifiable_storage.Server.Download.{download}
use verifiable_storage.Client.Download.{request_of}
use verifiable_storage.Protocol.Download.{IsAccepted}
use verifiable_storage.Protocol.Forms.{client_of}
use verifiable_storage.Protocol.Upload.{downloader}
use verifiable_storage.Protocol.Stores.{IsUploadName, upload_all, upload_all-download}
use verifiable_storage.Tests.ToyCrates.{toy_crates, toy_crates-IsLawful}
use verifiable_storage.Tests.ToyJson.{toy_json, toy_json-IsFaithful}
use verifiable_storage.Tests.Transfers.{uploader}

abbrev root : Str
root = text "data"

abbrev clock : ℕ → ℕ
clock i = 1704067200000

abbrev now : ℕ → Option ℕ
now i = some 1704067200000

fresh : validate_timestamp_default (some 1704067200000) 1704067200000 ≡ ok tt
unfolding validate_timestamp_default
fresh = refl

batch-IsPlain : IsPlain (text "b1")
batch-IsPlain = record { ne_nil = λ e. cc; ne_dot = λ e. cc; ne_dotdot = λ e. cc; no_slash = refl }

nothing_there : IsBatch (batch_dir root (client_of uploader) (text "b1")) [] []
unfolding lookup
nothing_there = record { contents = λ name n. refl; all_names = tt; index = blank refl refl refl }

first_name : IsUploadName toy_crates-IsLawful toy_json-IsFaithful root uploader (text "a.txt")
first_name = record {
  name = record {
    valid = (validate_filename_iff (text "a.txt")).0 (unfold validate_filename ◌==◌ in refl);
    not_metadata = unfold ◌==◌ in refl;
    not_tree = unfold ◌==◌ in refl;
    not_lock = unfold ◌==◌ in refl;
  };
  short = unfold ◌==◌ as_bytes in refl;
}

second_name : IsUploadName toy_crates-IsLawful toy_json-IsFaithful root uploader (text "b.txt")
second_name = record {
  name = record {
    valid = (validate_filename_iff (text "b.txt")).0 (unfold validate_filename ◌==◌ in refl);
    not_metadata = unfold ◌==◌ in refl;
    not_tree = unfold ◌==◌ in refl;
    not_lock = unfold ◌==◌ in refl;
  };
  short = unfold ◌==◌ as_bytes in refl;
}

-- The second file comes first, and again.
abbrev rest : List (Str × Bytes)
rest = (text "a.txt", 2 ∷ 3 ∷ []) ∷ (text "b.txt", 4 ∷ []) ∷ []

abbrev uploads : List (Str × Bytes)
uploads = (text "b.txt", 1 ∷ []) ∷ rest

upload_all-download_example :
    (files' : List (Str × Bytes)) × (tree : MerkleTree) × (resp : DownloadResponse) × (upload_all
        toy_crates-IsLawful toy_json-IsFaithful root uploader now clock uploads
        (sound [])
      ≡ (ok tt, sound files'))
    × (from_data (map (λ (q : Str × Bytes). q.1) (put_all uploads [])) ≡ ok tree)
    × (download
          (filesystem_storage root)
          (some 1704067200000)
          (request_of (downloader uploader) 1704067200000 (text "b.txt"))
          (sound files')
        ≡ (ok resp, sound files'))
    × IsAccepted (text "b.txt") (4 ∷ []) tree.root resp
upload_all-download_example =
    upload_all-download toy_crates-IsLawful toy_json-IsFaithful root uploader [] (text "b.txt")
      (1 ∷ []) rest now clock (text "b.txt") (4 ∷ []) (some 1704067200000) 1704067200000
      batch-IsPlain (unfold ◌==◌ as_bytes in refl) (inl (unfold lookup in refl)) nothing_there
      (second_name, (first_name, (second_name, tt))) (λ i. fresh)
      (unfold put lookup insert has_name sort str_leb ◌==◌ in refl) second_name.name fresh
