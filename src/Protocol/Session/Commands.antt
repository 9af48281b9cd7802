-- ===== src/Protocol/Session/Commands.antt =====
-- The commands of bin/client/src/main.rs to generate keys, to upload a directory and to download a
-- file, one after another, against the server over the database.
use verifiable_storage.Prelude.{Bool, Option, List}
use verifiable_storage.Prelude.Text.{Bytes, Str}
use verifiable_storage.Prelude.Dict.{str_eq}
use verifiable_storage.Crates.{Crates, IsLawful}
use verifiable_storage.Storage.Tables.{Tables}
use verifiable_storage.Storage.Filesystem.Batch.{Batch}
use verifiable_storage.Server.Upload.{UploadForm}
use verifiable_storage.Client.Config
use verifiable_storage.Client.Files.{FileUploader}
use verifiable_storage.Client.Download.{Server}
use verifiable_storage.Protocol.Session.Runs.{uploader}

module _ ⦃K : Crates⦄ (L : IsLawful K) (accepts : UploadForm → Bool)
    (to_string_pretty : List Str → Str) (var : Str → Option Str) (server : Option Str)
    (batch_id : Str) (key : Bytes) where
  abbrev self : FileUploader
  self = uploader var server batch_id key
