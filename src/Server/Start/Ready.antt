-- ===== src/Server/Start/Ready.antt =====
-- The start of the server with a database, in main of bin/server/src/main.rs.
use verifiable_storage.Prelude.{
  ℕ, ◌≡◌, ◌≢◌, refl, ◌⊎◌, inl, inr, Bool, false, ◌&&◌, Option, none, some, ◌<◌,
}
use verifiable_storage.Prelude.Result.{Result, ok, err, panic, map_err}
use verifiable_storage.Prelude.Exec.{Exec, continue, pure, require-ok, ◌>>◌, >>=-ok, lift-ok}
use verifiable_storage.Prelude.Text.{Str}
use verifiable_storage.Disk.{Disk}
use verifiable_storage.Storage.{StorageError, connection_failed}
use verifiable_storage.Storage.Connect.{
  Attempt, connected, connect_with_retry, connect_with_retry_lem, retry_overflows,
  DatabaseRetryConfig, default_config,
}
use verifiable_storage.Storage.Schema
use verifiable_storage.Storage.Schema.{Catalog, Setup, checked, new_with_retry_config, new}
use verifiable_storage.Storage.Schema.Laws.{Grown}
use verifiable_storage.Storage.Schema.Complete.{
  IsComplete, initialize-IsComplete, completed, calm_setup, initialize-completed,
}
use verifiable_storage.Server.Config.{Args, ServerConfig, database, load, bind_address}
use verifiable_storage.Server.Start.{
  StorageBackend, filesystem_backend, database_backend, Running, database_storage, config_failed,
  initialize, on_setup, on_start_disk, prepare, start, select_backend,
}
use verifiable_storage.Server.Start.Laws.{Overflows, start-Sober}

panic_cases : {E A : Type 0} (r : Result E A) → (r ≡ panic) ⊎ (r ≢ panic)
panic_cases (ok a) = inr λ p. cc
panic_cases (err e) = inr λ p. cc
panic_cases panic = inl refl

module _ (tries : Str → ℕ → Attempt) (checks : Bool) where
  new_with_retry_config-IsComplete :
      (url : Str) (config : DatabaseRetryConfig) (s s' : Setup)
      → new_with_retry_config tries checks url config s ≡ (ok tt, s')
      → IsComplete s'.catalog
  unfolding new_with_retry_config
  new_with_retry_config-IsComplete url config s s' h =
      lift-ok (checked tries checks (checks && retry_overflows (tries url) config)) _ {s = s} h
        λ _ _ h₁.
          require-ok (connect_with_retry (tries url) config).is_connected connection_failed
            Schema.initialize h₁ λ _ done. initialize-IsComplete s s' done

  -- A storage that is there has been made by code that has succeeded.
  on_setup-ok :
      (m : Exec StorageError Setup (Unit {0})) (running r : Running) (s : Setup) (d : Disk)
      (t : Setup × Disk)
      → on_setup tries checks (m >> pure running) (s, d) ≡ (ok r, t)
      → (m s ≡ (ok tt, t.0)) × (running ≡ r)
  on_setup-ok m running r s d t h = by_result (m s) h
    where
      by_result :
          (o : Result StorageError (Unit {0}) × Setup)
          → on_setup tries checks (λ _. continue o λ _. pure running) (s, d) ≡ (ok r, t)
          → (o ≡ (ok tt, t.0)) × (running ≡ r)
      by_result (ok tt, s') e = (cc, cc)
      by_result (err e', s') e = absurd (cc)
      by_result (panic, s') e = absurd (cc)

  backend-IsComplete :
      (b : StorageBackend) (url : Str) (s : Setup) (d : Disk) (t : Setup × Disk)
      → on_setup tries checks (initialize tries checks b) (s, d) ≡ (ok (database_storage url), t)
      → IsComplete t.0.catalog
  unfolding initialize new
  backend-IsComplete (filesystem_backend data_dir) url s d t h = absurd (cc)
  backend-IsComplete (database_backend url' (some config)) url s d t h =
      new_with_retry_config-IsComplete url' config s t.0
        (on_setup-ok (new_with_retry_config tries checks url' config) _ _ s d t h).0
  backend-IsComplete (database_backend url' none) url s d t h =
      new_with_retry_config-IsComplete url' default_config s t.0
        (on_setup-ok (new_with_retry_config tries checks url' default_config) _ _ s d t h).0

  start-IsComplete :
      (there : Bool) (args : Args) (var : Str → Option Str) (s s' : Setup) (d d' : Disk)
      (url address : Str)
      → start tries checks there args var (s, d) ≡ (ok (database_storage url, address), (s', d'))
      → IsComplete s'.catalog
  unfolding start
  start-IsComplete there args var s s' d d' url address h =
      lift-ok (map_err config_failed (load args var)) _ {s = (s, d)} h λ config loaded h₁.
        >>=-ok (on_start_disk tries checks (prepare tries checks there config.storage_type config))
          _ {s = (s, d)} h₁
          λ _ t₁ prepared h₂.
            lift-ok (map_err config_failed (select_backend config)) _ {s = t₁} h₂
              λ backend selected h₃.
                >>=-ok (on_setup tries checks (initialize tries checks backend)) _ {s = t₁} h₃
                  λ running t₂ done h₄. backend-IsComplete backend url t₁.0 t₁.1 (s', d') (cc)

  -- Whatever the command line, the environment, the attempts to connect and the requests of the
  -- database that fail: every table that was there stays, with its rows; the start does not panic,
  -- unless the build checks for overflow and a delay that it computes between two attempts overflows;
  -- and where it gives a database storage, all tables and indexes are there.
  pub start_lem :
      (there : Bool) (args : Args) (var : Str → Option Str) (s : Setup) (d : Disk)
      → Grown s.catalog (start tries checks there args var (s, d)).1.0.catalog
        × (((start tries checks there args var (s, d)).0 ≢ panic) ⊎ Overflows tries checks args var)
        × ((url address : Str)
            → (start tries checks there args var (s, d)).0 ≡ ok (database_storage url, address)
            → IsComplete (start tries checks there args var (s, d)).1.0.catalog)
  start_lem there args var s d =
      let h = start-Sober tries checks there args var s d in
      let o = start tries checks there args var (s, d) in
      (
        h.grown,
        elim (panic_cases o.0) [ inl e ↦ inr (h.no_panic e) | inr n ↦ inl n ],
        λ url address e. start-IsComplete there args var s o.1.0 d o.1.1 url address (cc),
      )

  new_with_retry_config-calm :
      (url : Str) (config : DatabaseRetryConfig) (c : Catalog) (i : ℕ)
      → i < config.max_attempts
      → tries url i ≡ connected
      → (checks && retry_overflows (tries url) config) ≡ false
      → new_with_retry_config tries checks url config (calm_setup c)
        ≡ (ok tt, calm_setup (completed c))
  unfolding new_with_retry_config
  new_with_retry_config-calm url config c i lt e small =
      rw (small, (connect_with_retry_lem (tries url) config).0.1 (i, lt, e))
        (initialize-completed c)

  -- With a configuration for a database that is loaded, if one of the attempts connects, no request
  -- fails, and no delay overflows where the build checks for it, the server has the database storage of that URL and binds to the configured
  -- address. The database then has all tables and indexes, with the rows that were there, and the
  -- disk is as before.
  pub start-completed :
      (there : Bool) (args : Args) (var : Str → Option Str) (config : ServerConfig) (url : Str)
      (i : ℕ) (c : Catalog) (d : Disk)
      → load args var ≡ ok config
      → config.storage_type ≡ database
      → config.database_url ≡ some url
      → i < config.database_retry_config.max_attempts
      → tries url i ≡ connected
      → (checks && retry_overflows (tries url) config.database_retry_config) ≡ false
      → start tries checks there args var (calm_setup c, d)
        ≡ (ok (database_storage url, bind_address config), (calm_setup (completed c), d))
  unfolding start select_backend initialize
  start-completed there args var config url i c d loaded typed found lt e small =
      rw
        (
          loaded,
          typed,
          found,
          new_with_retry_config-calm url config.database_retry_config c i lt e small,
        )
        refl
