-- ===== src/Protocol/Remote.antt =====
-- The server of bin/server/src/main.rs as the client's requests meet it: the route, the handler over
-- the database, and the answer that bin/client/src/upload.rs and download.rs make of its response.
use verifiable_storage.Prelude.{
  ℕ, suc, ◌≡◌, refl, true, Bool, Option, none, some, [], ◌∷◌, ◌++◌, arith, if◌then◌else◌, ◌==◌,
}
use verifiable_storage.Prelude.Result.{Result, ok, err, panic}
use verifiable_storage.Prelude.Text.{Str, text}
use verifiable_storage.Prelude.Sort.{str_leb}
use verifiable_storage.Prelude.Exec.{Exec}
use verifiable_storage.Crates.{Crates}
use verifiable_storage.Common.{DownloadRequest, DownloadResponse}
use verifiable_storage.Storage.Tables.{Tables, Db}
use verifiable_storage.Storage.Database.{database_storage}
use verifiable_storage.Storage.Trees.{calm}
use verifiable_storage.Server.App.{
  Method, post, get, Service, upload_service, download_service, health_service, service_for,
  path_at,
}
use verifiable_storage.Server.Errors.{HttpError}
use verifiable_storage.Server.Upload.{UploadForm, upload}
use verifiable_storage.Server.Download.{download}
use verifiable_storage.Client.{ClientError, request_failed}

-- The server's database, and its clock at each request to come.
pub record Remote : Type 0 where
  pub db : Db
  pub now : ℕ → Option ℕ

-- A status of failure, and a connection that a panic closes, are errors.
abbrev pub received : {A : Type 0} → Result HttpError A → Result ClientError A
received (ok a) = ok a
received (err e) = err request_failed
received panic = err request_failed

-- `?` on the path of the URL, then the service for it.
abbrev service_at : Method → Option Str → Option Service
service_at m none = none
service_at m (some path) = service_for m path

-- The URL has the address in front.
pub path_at-append : (base path : Str) → path_at base (base ++ path) ≡ some path
unfolding path_at
path_at-append [] path = refl
path_at-append (c ∷ base) path = ground (arith, path_at-append base path)

-- `accepts` is the parser of multipart forms with its limits.
module _ ⦃K : Crates⦄ (base : Str) where
  module _ (accepts : UploadForm → Bool) where
    abbrev handle_post : Option Service → UploadForm → Exec ClientError Remote (Unit {0})
    handle_post (some upload_service) form r =
        if accepts form
        then (let (result, db') = upload (database_storage str_leb) (r.now 0) form r.db in
            (received result, record { db = db'; now = λ i. r.now (suc i) }))
        else (err request_failed, r)
    handle_post (some download_service) form r = (err request_failed, r)
    handle_post (some health_service) form r = (err request_failed, r)
    handle_post none form r = (err request_failed, r)

    -- `client.post(&url).multipart(form).send()`
    unfoldable pub post_form : Str → UploadForm → Exec ClientError Remote (Unit {0})
    post_form url form r = handle_post (service_at post (path_at base url)) form r

  abbrev handle_get :
      Option Service → DownloadRequest → Remote → Result ClientError DownloadResponse
  handle_get (some download_service) req r =
      received (download (database_storage str_leb) (r.now 0) req r.db).0
  handle_get (some upload_service) req r = err request_failed
  handle_get (some health_service) req r = err request_failed
  handle_get none req r = err request_failed

  -- `client.get(&url).query(…).send()`
  unfoldable pub send_query : Remote → Str → DownloadRequest → Result ClientError DownloadResponse
  send_query r url req = handle_get (service_at get (path_at base url)) req r

  -- A form at the URL of uploads reaches the handler.
  pub post_form-upload :
      (accepts : UploadForm → Bool) (form : UploadForm) (t t' : Tables) (now : ℕ → Option ℕ)
      → accepts form ≡ true
      → upload (database_storage str_leb) (now 0) form (calm t) ≡ (ok tt, calm t')
      → post_form accepts (base ++ text "/upload") form (record { db = calm t; now = now })
        ≡ (ok tt, record { db = calm t'; now = λ i. now (suc i) })
  unfolding post_form service_for ◌==◌
  post_form-upload accepts form t t' now h e = rw (path_at-append base (text "/upload"), h, e) refl

  -- So does a query at the URL of downloads.
  pub send_query-download :
      (req : DownloadRequest) (resp : DownloadResponse) (t : Tables) (now : ℕ → Option ℕ)
      → download (database_storage str_leb) (now 0) req (calm t) ≡ (ok resp, calm t)
      → send_query (record { db = calm t; now = now }) (base ++ text "/download") req ≡ ok resp
  unfolding send_query service_for ◌==◌
  send_query-download req resp t now e = rw (path_at-append base (text "/download"), e) refl
