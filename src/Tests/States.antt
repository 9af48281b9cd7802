-- ===== src/Tests/States.antt =====
-- States that the server comes to, and what downloads leave.
use verifiable_storage.Prelude.{◌≡◌, ap, subst, ◌⊎◌, some, [], ◌∷◌}
use verifiable_storage.Prelude.Result.{Result}
use verifiable_storage.Prelude.Sort.{str_leb}
use verifiable_storage.Merkle.Inputs.{Collision}
use verifiable_storage.Storage.Tables.{Db}
use verifiable_storage.Storage.Database.{database_storage}
use verifiable_storage.Storage.Trees.{calm}
use verifiable_storage.Storage.Valid.{IsValid}
use verifiable_storage.Server.Download.{download}
use verifiable_storage.Server.Reads.{download-unchanged}
use verifiable_storage.Server.Reach.{Reach, start, next, uploads, Reach-IsValid, Reach-own_key}
use verifiable_storage.Client.Download.{request_of}
use verifiable_storage.Protocol.Forms.{form_of}
use verifiable_storage.Protocol.Upload.{downloader}
use verifiable_storage.Tests.ToyCrates.{toy_crates, toy_crates-IsLawful, digest}
use verifiable_storage.Tests.Transfers.{uploader, name, content, clock, uploaded}

-- One upload has been handled.
after_upload : Reach str_leb (calm (uploaded.0))
after_upload =
    subst (Reach str_leb) (ap (λ (o : Result _ (Unit {0}) × Db). o.1) (uploaded.1))
      (next start (uploads (some clock) (form_of uploader clock name content)))

Reach-IsValid_example : IsValid (uploaded.0)
Reach-IsValid_example = Reach-IsValid str_leb after_upload

Reach-own_key_example :
    (digest uploader.signing_key ≡ digest uploader.signing_key)
    ⊎ Collision (digest uploader.signing_key ∷ []) (digest uploader.signing_key ∷ [])
Reach-own_key_example =
    Reach-own_key str_leb toy_crates-IsLawful after_upload (digest uploader.signing_key)
      (digest uploader.signing_key) ((uploaded.2).served.known)

download-unchanged_example :
    (download
      (database_storage str_leb)
      (some clock)
      (request_of (downloader uploader) clock name)
      (calm (uploaded.0))).1.tables
    ≡ uploaded.0
download-unchanged_example =
    download-unchanged str_leb (some clock) (request_of (downloader uploader) clock name)
      (calm (uploaded.0))
