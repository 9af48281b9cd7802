-- ===== src/Server/Start/Laws.antt =====
-- What the start of the server guarantees, whatever its configuration and its database do.
use verifiable_storage.Prelude.{
  ℕ, ◌≡◌, ◌≢◌, refl, Bool, true, false, Option, none, some, List, [], ◌∷◌, arith, ◌&&◌, Bool-cases,
  inl, inr,
}
use verifiable_storage.Prelude.Result
use verifiable_storage.Prelude.Result.{Result, ok, err, panic, ok_or, map_err, map_err-ok}
use verifiable_storage.Prelude.Exec.{Exec, continue, lift, pure, require, ◌>>◌}
use verifiable_storage.Prelude.Text.{Str}
use verifiable_storage.Disk.{Outcome, works, fails, breaks, Disk, create_dir_all}
use verifiable_storage.Storage.{StorageError, connection_failed}
use verifiable_storage.Storage.Connect.{
  Attempt, connect_with_retry, retry_overflows, DatabaseRetryConfig, default_config,
}
use verifiable_storage.Storage.Schema
use verifiable_storage.Storage.Schema.{Catalog, Setup, new_with_retry_config, new}
use verifiable_storage.Storage.Schema.Laws.{Grown, Grown-refl, Grown-trans, Fair, initialize-Grows}
use verifiable_storage.Server.Config.{
  Args, ServerConfig, StorageType, filesystem, database, load, bind_address, parse_storage_type,
  database_url_for,
}
use verifiable_storage.Server.Start.{
  StorageBackend, filesystem_backend, database_backend, Running, database_storage, StartError,
  config_failed, initialize, fails_by_overflow, start_io, on_setup, on_start_disk, prepare, start,
  select_backend, select_backend-total,
}

-- Code that fails at most with an error.
>>=-no_panic :
    {E A B : Type 0} (r : Result E A) (f : A → Result E B)
    → r ≢ panic
    → ((a : A) → f a ≢ panic)
    → Result.◌>>=◌ r f ≢ panic
>>=-no_panic (ok a) f g h = h a
>>=-no_panic (err e) f g h = λ p. cc
>>=-no_panic panic f g h = absurd (g refl)

map_err-no_panic : {E F A : Type 0} (f : E → F) (r : Result E A) → r ≢ panic → map_err f r ≢ panic
map_err-no_panic f (ok a) h = λ p. cc
map_err-no_panic f (err e) h = λ p. cc
map_err-no_panic f panic h = absurd (h refl)

ok_or-no_panic : {E A : Type 0} (e : E) (o : Option A) → ok_or e o ≢ panic
ok_or-no_panic e none = λ p. cc
ok_or-no_panic e (some a) = λ p. cc

parse_storage_type-no_panic : (s : Str) → parse_storage_type s ≢ panic
unfolding parse_storage_type
parse_storage_type-no_panic s = ground arith

ok-no_panic : {E A : Type 0} (a : A) → ◌≢◌ {A = Result E A} (ok a) panic
ok-no_panic a = λ p. cc

database_url_for-no_panic :
    (t : StorageType) (args : Args) (var : Str → Option Str) → database_url_for t args var ≢ panic
unfolding database_url_for
database_url_for-no_panic filesystem args var = λ p. cc
database_url_for-no_panic database args var =
    >>=-no_panic _ _ (ok_or-no_panic _ _) λ u. ok-no_panic (some u)

load-no_panic : (args : Args) (var : Str → Option Str) → load args var ≢ panic
unfolding load
load-no_panic args var = >>=-no_panic _ _ (parse_storage_type-no_panic _) λ t.
    >>=-no_panic _ _ (database_url_for-no_panic t args var)
      λ url. >>=-no_panic _ _ (ok_or-no_panic _ _) λ port. ok-no_panic _

-- What the code has come to: the database has kept what it had, and a panic has the given reason.
pub record Sober {A : Type 0} (Reason : Type 0) (c : Catalog)
    (o : Result StartError A × (Setup × Disk)) : Type 0 where
  pub grown : Grown c o.1.0.catalog
  pub no_panic : o.0 ≡ panic → Reason

continue-Sober :
    {A B : Type 0} {R : Type 0} (c : Catalog) (o : Result StartError A × (Setup × Disk))
    (k : A → Exec StartError (Setup × Disk) B)
    → Sober R c o
    → ((a : A) (s : Setup × Disk) → o.0 ≡ ok a → Sober R s.0.catalog (k a s))
    → Sober R c (continue o k)
continue-Sober c (ok a, s) k g h = record {
  grown = Grown-trans g.grown (h a s refl).grown;
  no_panic = (h a s refl).no_panic;
}
continue-Sober c (err e, s) k g h = record { grown = g.grown; no_panic = λ p. absurd (cc) }
continue-Sober c (panic, s) k g h = record { grown = g.grown; no_panic = λ p. g.no_panic refl }

lift-Sober :
    {A R : Type 0} (r : Result StartError A) (s : Setup × Disk)
    → r ≢ panic
    → Sober R s.0.catalog (lift r s)
lift-Sober r s h = record { grown = Grown-refl s.0.catalog; no_panic = λ p. absurd (h p) }

module _ (tries : Str → ℕ → Attempt) (checks : Bool) where
  prepare-Sober :
      (there : Bool) (t : StorageType) (config : ServerConfig) (s : Setup) (d : Disk) (R : Type 0)
      → Sober R s.catalog (on_start_disk tries checks (prepare tries checks there t config) (s, d))
  unfolding create_dir_all
  prepare-Sober there database config s d R = record {
    grown = Grown-refl s.catalog;
    no_panic = λ p. absurd (cc);
  }
  prepare-Sober true filesystem config s d R = record {
    grown = Grown-refl s.catalog;
    no_panic = λ p. absurd (cc);
  }
  prepare-Sober false filesystem config s d R = record {
    grown = Grown-refl s.catalog;
    no_panic = λ p. absurd (by_outcomes d.outcomes p);
  }
    where
      by_outcomes :
          (outcomes : List Outcome)
          → (create_dir_all {E = StartError} config.data_dir (record d { outcomes = outcomes })).0
            ≢ panic
      by_outcomes [] = λ p. cc
      by_outcomes (works ∷ rest) = λ p. cc
      by_outcomes (fails ∷ rest) = λ p. cc
      by_outcomes (breaks n ∷ rest) = λ p. cc

  require-Fair :
      (there : Bool) (s : Setup)
      → Fair s.catalog (continue (require there connection_failed s) λ _. Schema.initialize)
  require-Fair true s = initialize-Grows s
  require-Fair false s = record { grown = Grown-refl s.catalog; no_panic = λ p. cc }

  -- What connecting to the database and making its tables has come to.
  record Checked (risk : Bool) (c : Catalog) (o : Result StorageError (Unit {0}) × Setup)
      : Type 0 where
    grown : Grown c o.1.catalog
    overflow : o.0 ≡ panic → risk ≡ true

  new_with_retry_config-Checked :
      (url : Str) (config : DatabaseRetryConfig) (s : Setup)
      → Checked
          (checks && retry_overflows (tries url) config)
          s.catalog
          (new_with_retry_config tries checks url config s)
  unfolding new_with_retry_config
  new_with_retry_config-Checked url config s =
      elim (Bool-cases (checks && retry_overflows (tries url) config)) [
        | inl e ↦ rw e (record { grown = Grown-refl s.catalog; overflow = λ p. refl })
        | inr e ↦
            let fair = require-Fair (connect_with_retry (tries url) config).is_connected s in
            rw e (record { grown = fair.grown; overflow = λ p. absurd (fair.no_panic p) })
      ]

  on_setup-Sober :
      (risk : Bool) (c : Catalog) (m : Exec StorageError Setup (Unit {0})) (running : Running)
      (s : Setup) (d : Disk)
      → Checked risk c (m s)
      → Sober (risk ≡ true) c (on_setup tries checks (m >> pure running) (s, d))
  on_setup-Sober risk c m running s d h = by_result (m s) h
    where
      by_result :
          (o : Result StorageError (Unit {0}) × Setup)
          → Checked risk c o
          → Sober (risk ≡ true) c (on_setup tries checks (λ _. continue o λ _. pure running) (s, d))
      by_result (ok a, s') g = record { grown = g.grown; no_panic = λ p. absurd (cc) }
      by_result (err e, s') g = record { grown = g.grown; no_panic = λ p. absurd (cc) }
      by_result (panic, s') g = record { grown = g.grown; no_panic = λ p. g.overflow refl }

  initialize-Sober :
      (b : StorageBackend) (s : Setup) (d : Disk)
      → Sober
          (fails_by_overflow tries checks b ≡ true)
          s.catalog
          (on_setup tries checks (initialize tries checks b) (s, d))
  unfolding initialize new
  initialize-Sober (filesystem_backend data_dir) s d = record {
    grown = Grown-refl s.catalog;
    no_panic = λ p. absurd (cc);
  }
  initialize-Sober (database_backend url (some config)) s d =
      on_setup-Sober (checks && retry_overflows (tries url) config) s.catalog
        (new_with_retry_config tries checks url config) (database_storage url) s d
        (new_with_retry_config-Checked url config s)
  initialize-Sober (database_backend url none) s d =
      on_setup-Sober (checks && retry_overflows (tries url) default_config) s.catalog
        (new_with_retry_config tries checks url default_config) (database_storage url) s d
        (new_with_retry_config-Checked url default_config s)

  because :
      {A R R' : Type 0} {c : Catalog} {o : Result StartError A × (Setup × Disk)}
      → (R → R')
      → Sober R c o
      → Sober R' c o
  because f h = record { grown = h.grown; no_panic = λ p. f (h.no_panic p) }

  -- The only reason for a panic of the start.
  pub record Overflows (args : Args) (var : Str → Option Str) : Type 0 where
    pub config : ServerConfig
    pub backend : StorageBackend
    pub loaded : load args var ≡ ok config
    pub selected : select_backend config ≡ ok backend
    pub overflow : fails_by_overflow tries checks backend ≡ true

  pub start-Sober :
      (there : Bool) (args : Args) (var : Str → Option Str) (s : Setup) (d : Disk)
      → Sober (Overflows args var) s.catalog (start tries checks there args var (s, d))
  unfolding start
  start-Sober there args var s d =
      continue-Sober s.catalog _ _
        (lift-Sober _ (s, d)
          (map_err-no_panic config_failed (load args var) (load-no_panic args var)))
        λ config (s₁, d₁) loaded.
          continue-Sober s₁.catalog _ _
            (prepare-Sober there config.storage_type config s₁ d₁ (Overflows args var))
            λ _ (s₂, d₂) _.
              continue-Sober s₂.catalog _ _
                (lift-Sober _ (s₂, d₂)
                  (map_err-no_panic config_failed (select_backend config)
                    (selected config (map_err-ok config_failed (load args var) loaded))))
                λ backend (s₃, d₃) chosen.
                  continue-Sober s₃.catalog _ _
                    (because
                      (λ overflow. record {
                        config = config;
                        backend = backend;
                        loaded = map_err-ok config_failed (load args var) loaded;
                        selected = map_err-ok config_failed (select_backend config) chosen;
                        overflow = overflow;
                      })
                      (initialize-Sober backend s₃ d₃))
                    λ running (s₄, d₄) _.
                      lift-Sober (ok (running, bind_address config)) (s₄, d₄) λ p. cc
    where
      selected : (config : ServerConfig) → load args var ≡ ok config → select_backend config ≢ panic
      selected config h p = let (b, e) = select_backend-total args var config h in cc
