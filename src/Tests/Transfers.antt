-- ===== src/Tests/Transfers.antt =====
-- Uploads to an empty database, and the proofs and downloads of what is then stored.
use mathlib.Core.Option.{some-injective}
use verifiable_storage.Prelude.{ℕ, ◌≡◌, refl, sym, ◌∙◌, some, [], ◌∷◌, ◌==◌, true, false}
use verifiable_storage.Prelude.Result.{ok, ok_inj}
use verifiable_storage.Prelude.Text.{Bytes, Str, text, as_bytes, to_be_bytes, trim}
use verifiable_storage.Prelude.Sort.{str_leb}
use verifiable_storage.Prelude.Dict.{str_eq, pair_eq, lookup}
use verifiable_storage.Crypto.{compute_client_id, hash_leaf}
use verifiable_storage.Common.{DownloadResponse}
use verifiable_storage.Common.Filename.{validate_filename}
use verifiable_storage.Storage.Tables.{Tables, fits}
use verifiable_storage.Storage.Database.{database_storage}
use verifiable_storage.Storage.Trees.{calm}
use verifiable_storage.Server.Checks.{validate_timestamp_default, parse_signature}
use verifiable_storage.Server.Upload.{UploadForm, upload, build_message}
use verifiable_storage.Server.Download.{download}
use verifiable_storage.Server.Refused.{Refused, upload-Refused}
use verifiable_storage.Client.Files.{FileUploader}
use verifiable_storage.Client.Upload.{build_multipart_form}
use verifiable_storage.Client.Download.{request_of}
use verifiable_storage.Protocol.Download.{IsAccepted}
use verifiable_storage.Protocol.Forms.{client_of, form_of}
use verifiable_storage.Protocol.Upload.{IsUploadable, IsUploaded, downloader, upload-IsUploaded}
use verifiable_storage.Protocol.Roundtrip.{upload-download}
use verifiable_storage.Tests.ToyCrates.{
  toy_crates, toy_crates-IsLawful, digest, to_hex, from_hex, zeros, signature_of,
}

abbrev pub nothing_stored : Tables
nothing_stored = record { batches = []; files = []; clients = []; merkle_trees = [] }

abbrev pub uploader : FileUploader
uploader = record {
  server = text "http://localhost";
  batch_id = text "b1";
  signing_key = 9 ∷ 8 ∷ [];
  data_dir = text "client_data";
}

abbrev pub name : Str
name = text "a.txt"

abbrev pub content : Bytes
content = 1 ∷ 2 ∷ 3 ∷ []

abbrev pub clock : ℕ
clock = 1704067200000

fresh : validate_timestamp_default (some clock) clock ≡ ok tt
unfolding validate_timestamp_default
fresh = refl

client_fits : fits (client_of uploader) ≡ true
unfolding fits digest to_hex compute_client_id
client_fits = refl

uploadable : IsUploadable nothing_stored uploader name
uploadable = record {
  valid = unfold validate_filename ◌==◌ in refl;
  name_short = unfold as_bytes ◌==◌ in refl;
  batch_short = unfold as_bytes ◌==◌ in refl;
  client_fits = client_fits;
  batch_fits = unfold fits in refl;
  name_fits = unfold fits in refl;
  own_key = λ k e. absurd (unfold lookup in cc);
}

-- The tables after the upload.
pub uploaded :
    (t' : Tables) × (upload
        (database_storage str_leb)
        (some clock)
        (form_of uploader clock name content)
        (calm nothing_stored)
      ≡ (ok tt, calm t'))
    × IsUploaded nothing_stored t' uploader name content
uploaded =
    upload-IsUploaded toy_crates-IsLawful nothing_stored uploader (some clock) clock name content
      uploadable fresh

upload-download_example :
    (t' : Tables) × (upload
        (database_storage str_leb)
        (some clock)
        (form_of uploader clock name content)
        (calm nothing_stored)
      ≡ (ok tt, calm t'))
    × (done : IsUploaded nothing_stored t' uploader name content) × (resp : DownloadResponse)
    × (download
          (database_storage str_leb)
          (some clock)
          (request_of (downloader uploader) clock name)
          (calm t')
        ≡ (ok resp, calm t'))
    × IsAccepted name content done.served.tree.tree.root resp
upload-download_example =
    upload-download toy_crates-IsLawful nothing_stored uploader (some clock) (some clock) clock
      clock name content uploadable fresh fresh

-- The form with a signature of nothing.
abbrev forged : UploadForm
forged = record (form_of uploader clock name content) { signature = to_hex (zeros 64) }

abbrev key : Bytes
key = digest uploader.signing_key

abbrev message : Bytes
message = build_message forged.filename forged.batch_id forged.file_hash content forged.timestamp

parsed : parse_signature forged.signature ≡ ok (zeros 64)
unfolding parse_signature build_multipart_form to_hex from_hex trim
parsed = refl

decoded : from_hex (trim forged.public_key) ≡ some key
unfolding from_hex trim build_multipart_form to_hex digest
decoded = refl

unsigned : (zeros 64 == signature_of key message) ≡ false
unfolding signature_of digest build_multipart_form build_message as_bytes to_be_bytes hash_leaf
    to_hex ◌==◌
unsigned = refl

forged_content : forged.file ≡ some content
unfolding build_multipart_form
forged_content = refl

upload-Refused_example :
    Refused
      (upload (database_storage str_leb) (some clock) forged (calm nothing_stored))
      (calm nothing_stored)
upload-Refused_example =
    upload-Refused (database_storage str_leb) (some clock) forged (calm nothing_stored)
      λ c sig k has_content has_sig has_key.
        let c_eq : c ≡ content = some-injective _ _ (sym has_content ∙ forged_content) in
        let sig_eq : sig ≡ zeros 64 = ok_inj (sym has_sig ∙ parsed) in
        let k_eq : k ≡ key = some-injective _ _ (sym has_key ∙ decoded) in
        rw (c_eq, sig_eq, k_eq) unsigned
