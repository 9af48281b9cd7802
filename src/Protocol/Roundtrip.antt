-- ===== src/Protocol/Roundtrip.antt =====
-- An upload by bin/client/src/upload.rs followed by a download by bin/client/src/download.rs, both
-- over the handlers of bin/server and the database.
use verifiable_storage.Prelude.{ℕ, ◌≡◌, Option}
use verifiable_storage.Prelude.Result.{ok}
use verifiable_storage.Prelude.Text.{Bytes, Str}
use verifiable_storage.Prelude.Sort.{str_leb}
use verifiable_storage.Crates.{Crates, IsLawful}
use verifiable_storage.Common.{DownloadResponse}
use verifiable_storage.Storage.Tables.{Tables}
use verifiable_storage.Storage.Database.{database_storage}
use verifiable_storage.Storage.Trees.{calm}
use verifiable_storage.Server.Checks.{validate_timestamp_default}
use verifiable_storage.Server.Upload.{upload}
use verifiable_storage.Server.Download.{download}
use verifiable_storage.Client.Files.{FileUploader}
use verifiable_storage.Client.Download.{request_of}
use verifiable_storage.Protocol.Download.{IsAccepted, download-IsAccepted}
use verifiable_storage.Protocol.Forms.{form_of}
use verifiable_storage.Protocol.Upload.{IsUploadable, IsUploaded, downloader, upload-IsUploaded}

module _ ⦃K : Crates⦄ (L : IsLawful K) where
  -- While no request to the database fails and the server orders names as its database does: what a
  -- client uploads, with names of their sizes, a valid filename, a timestamp in the window and no
  -- other key under its identifier, the server stores. A later request of the same client that the
  -- clock of the server allows is answered, and the client verifies the answer against the root of
  -- the tree that the server has stored, and decodes the content that it has uploaded.
  pub upload-download :
      (t : Tables) (u : FileUploader) (now later : Option ℕ) (timestamp timestamp' : ℕ) (f : Str)
      (x : Bytes)
      → IsUploadable t u f
      → validate_timestamp_default now timestamp ≡ ok tt
      → validate_timestamp_default later timestamp' ≡ ok tt
      → (t' : Tables) × (upload (database_storage str_leb) now (form_of u timestamp f x) (calm t)
          ≡ (ok tt, calm t'))
        × (done : IsUploaded t t' u f x) × (resp : DownloadResponse) × (download
              (database_storage str_leb)
              later
              (request_of (downloader u) timestamp' f)
              (calm t')
            ≡ (ok resp, calm t'))
        × IsAccepted f x done.served.tree.tree.root resp
  upload-download t u now later timestamp timestamp' f x h fresh fresh' =
      let (t', uploaded, done) = upload-IsUploaded L t u now timestamp f x h fresh in
      let (resp, answered, accepted) =
        download-IsAccepted L t' (downloader u) later timestamp' f x done.served h.valid fresh' in
      (t', uploaded, done, resp, answered, accepted)
