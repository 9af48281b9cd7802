-- ===== src/Server/Start.antt =====
-- bin/server/src/main.rs and crates/storage/src/backend.rs: the storage that the server starts with.
pub mod Laws
pub mod Ready
use verifiable_storage.Prelude.{ℕ, ◌≡◌, refl, Bool, false, ◌&&◌, Option, none, some, if◌then◌else◌}
use verifiable_storage.Prelude.Result
use verifiable_storage.Prelude.Result.{Result, ok, panic}
use verifiable_storage.Prelude.Exec.{Exec, ◌>>=◌, ◌>>◌, pure, lift}
use verifiable_storage.Disk.{IoError, Disk, create_dir_all}
use verifiable_storage.Storage.{StorageError}
use verifiable_storage.Storage.Schema.{Setup, new_with_retry_config, new}
use verifiable_storage.Prelude.Text.{Str}
use verifiable_storage.Storage.Connect.{
  Attempt, DatabaseRetryConfig, default_config, retry_overflows,
}
use verifiable_storage.Server.Config.{
  Args, ServerConfig, ConfigError, StorageType, filesystem, database, load, bind_address, IsUsable,
  load-IsUsable,
}

pub data StorageBackend : Type 0 where
  filesystem_backend : (data_dir : Str) → StorageBackend
  database_backend :
      (database_url : Str) (retry_config : Option DatabaseRetryConfig) → StorageBackend

-- `unwrap` on the URL
abbrev unwrap : Option Str → Result ConfigError Str
unwrap none = panic
unwrap (some url) = ok url

abbrev backend_for : StorageType → ServerConfig → Result ConfigError StorageBackend
backend_for filesystem c = ok (filesystem_backend c.data_dir)
backend_for database c =
    Result.◌>>=◌ (unwrap c.database_url)
      λ database_url. ok (database_backend database_url (some c.database_retry_config))

unfoldable pub select_backend : ServerConfig → Result ConfigError StorageBackend
select_backend c = backend_for c.storage_type c

-- The storage that is there after the start.
pub data Running : Type 0 where
  filesystem_storage : (data_dir : Str) → Running
  database_storage : (database_url : Str) → Running

pub data StartError : Type 0 where
  config_failed : ConfigError → StartError
  storage_failed : StorageError → StartError
  create_dir_failed : StartError

instance abbrev pub start_io : IoError StartError
start_io = record { failed = create_dir_failed }

-- `StorageBackend::initialize`; `tries` is what the attempts to connect to a URL give, and `checks`
-- whether the build checks for overflow.
module _ (tries : Str → ℕ → Attempt) (checks : Bool) where
  unfoldable pub initialize : StorageBackend → Exec StorageError Setup Running
  unfolding new_with_retry_config new
  initialize (filesystem_backend data_dir) = pure (filesystem_storage data_dir)
  initialize (database_backend database_url (some retry_config)) = do
    new_with_retry_config tries checks database_url retry_config
    pure (database_storage database_url)
  initialize (database_backend database_url none) = do
    new tries checks database_url
    pure (database_storage database_url)

  -- Whether a delay between the attempts overflows, in a build that checks for it.
  abbrev pub fails_by_overflow : StorageBackend → Bool
  fails_by_overflow (filesystem_backend data_dir) = false
  fails_by_overflow (database_backend url (some config)) =
      checks && retry_overflows (tries url) config
  fails_by_overflow (database_backend url none) =
      checks && retry_overflows (tries url) default_config

  -- The database's part of the state, and the disk's.
  abbrev pub on_setup : {A : Type 0} → Exec StorageError Setup A → Exec StartError (Setup × Disk) A
  on_setup m (s, d) = let (r, s') = m s in (Result.map_err storage_failed r, (s', d))

  abbrev pub on_start_disk :
      {A : Type 0} → Exec StartError Disk A → Exec StartError (Setup × Disk) A
  on_start_disk m (s, d) = let (r, d') = m d in (r, (s, d'))

  -- The directory of the file system storage is created where it is not there.
  abbrev pub prepare : Bool → StorageType → ServerConfig → Exec StartError Disk (Unit {0})
  prepare dir_exists database c = pure tt
  prepare dir_exists filesystem c = if dir_exists then pure tt else create_dir_all c.data_dir

  -- `main` up to the address that the server binds to.
  unfoldable pub start :
      Bool → Args → (Str → Option Str) → Exec StartError (Setup × Disk) (Running × Str)
  unfolding select_backend
  start dir_exists args var = do
    config ← lift (Result.map_err config_failed (load args var))
    on_start_disk (prepare dir_exists config.storage_type config)
    backend ← lift (Result.map_err config_failed (select_backend config))
    running ← on_setup (initialize backend)
    pure (running, bind_address config)

backend_for-total :
    (c : ServerConfig) (t : StorageType)
    → c.storage_type ≡ t
    → IsUsable c
    → (b : StorageBackend) × (backend_for t c ≡ ok b)
backend_for-total c filesystem e u = (filesystem_backend c.data_dir, refl)
backend_for-total c database e u =
    let (url, found) = u.has_url e in
    (database_backend url (some c.database_retry_config), rw found refl)

-- With every configuration that is loaded the server gets to a backend: the `unwrap` of the URL does
-- not panic.
pub select_backend-total :
    (args : Args) (var : Str → Option Str) (c : ServerConfig)
    → load args var ≡ ok c
    → (b : StorageBackend) × (select_backend c ≡ ok b)
unfolding select_backend
select_backend-total args var c h =
    backend_for-total c c.storage_type refl (load-IsUsable args var c h)
