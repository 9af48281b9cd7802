-- ===== src/Server/App.antt =====
-- bin/server/src/main.rs: the services of the web application, with the paths that the handlers are
-- declared with, and the state that they share.
use verifiable_storage.Prelude.{Option, none, some, [], ◌∷◌, ◌==◌, nat_beq, if◌then◌else◌}
use verifiable_storage.Prelude.Text.{Str, text}

-- The methods that the services answer.
pub data Method : Type 0 where
  get post : Method

pub data Service : Type 0 where
  upload_service download_service health_service : Service

-- The service that is registered for a method and a path; the framework answers 404 for none.
unfoldable pub service_for : Method → Str → Option Service
service_for post path = if path == text "/upload" then some upload_service else none
service_for get path =
    if path == text "/download"
    then some download_service
    else if path == text "/health"
    then some health_service
    else none

-- The path of a URL at the address of a server.
unfoldable pub path_at : Str → Str → Option Str
path_at [] url = some url
path_at (c ∷ base) [] = none
path_at (c ∷ base) (d ∷ url) = if nat_beq c d then path_at base url else none

pub record HealthResponse : Type 0 where
  pub status : Str

unfoldable pub health : HealthResponse
health = record { status = text "ok" }
