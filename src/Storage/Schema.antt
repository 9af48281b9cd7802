-- ===== src/Storage/Schema.antt =====
-- crates/storage/src/database/schema.rs: the tables of the database are created where they are missing,
-- and the start of a database storage in crates/storage/src/database.rs.
pub mod Laws
pub mod Complete
use verifiable_storage.Prelude.{
  ℕ, Bool, true, false, ◌&&◌, Option, none, some, List, [], ◌∷◌, if◌then◌else◌,
}
use verifiable_storage.Prelude.Result.{Result, ok, err, panic}
use verifiable_storage.Prelude.Text.{Bytes, Str}
use verifiable_storage.Prelude.Exec.{Exec, ◌>>◌, lift, require}
use verifiable_storage.Merkle.{MerkleTree}
use verifiable_storage.Storage.{StorageError, query_failed, connection_failed}
use verifiable_storage.Storage.Tables.{BatchKey, FileKey}
use verifiable_storage.Storage.Connect.{
  Attempt, DatabaseRetryConfig, connect_with_retry, default_config, retry_overflows,
}

-- The tables and the indexes that the database has.
pub record Catalog : Type 0 where
  pub clients : Option (List (Str × Bytes))
  pub batches : Option (List (BatchKey × Unit {0}))
  pub files : Option (List (FileKey × Bytes))
  pub merkle_trees : Option (List (BatchKey × MerkleTree))
  pub batches_index : Bool
  pub files_index : Bool

-- As for `Db`, with what fails of the requests to come.
pub record Setup : Type 0 where
  pub catalog : Catalog
  pub outages : List Bool

module _ {A : Type 0} where
  abbrev pub has : Option A → Bool
  has none = false
  has (some a) = true

  -- The rows, none of a table that is missing.
  abbrev pub rows : Option (List A) → List A
  rows none = []
  rows (some r) = r

abbrev pub answer_setup :
    Bool → List Bool → (Catalog → Option Catalog) → Catalog → Result StorageError (Unit {0}) × Setup
answer_setup true rest f c = (err query_failed, record { catalog = c; outages = rest })
answer_setup false rest f c = elim (f c) [
  | none ↦ (err query_failed, record { catalog = c; outages = rest })
  | some c' ↦ (ok tt, record { catalog = c'; outages = rest })
]

abbrev pub execute_with :
    (Catalog → Option Catalog) → List Bool → Catalog → Result StorageError (Unit {0}) × Setup
execute_with f [] c = answer_setup false [] f c
execute_with f (o ∷ rest) c = answer_setup o rest f c

-- `.execute(pool)`: the database refuses a statement that names a table which is not there.
unfoldable pub execute : (Catalog → Option Catalog) → Exec StorageError Setup (Unit {0})
execute f s = execute_with f s.outages s.catalog

-- `CREATE TABLE IF NOT EXISTS`, with whether the table that its foreign key names is there.
abbrev pub create_if_missing : {A : Type 0} → Bool → Option (List A) → Option (List A)
create_if_missing there (some r) = some r
create_if_missing true none = some []
create_if_missing false none = none

abbrev pub created : {A : Type 0} → (Option (List A) → Catalog) → Option (List A) → Option Catalog
created change none = none
created change (some r) = some (change (some r))

unfoldable pub create_clients_table : Exec StorageError Setup (Unit {0})
create_clients_table =
    execute λ c. created (λ t. record c { clients = t }) (create_if_missing true c.clients)

unfoldable pub create_batches_table : Exec StorageError Setup (Unit {0})
create_batches_table =
    execute
      λ c. created (λ t. record c { batches = t }) (create_if_missing (has c.clients) c.batches)

unfoldable pub create_files_table : Exec StorageError Setup (Unit {0})
create_files_table =
    execute λ c. created (λ t. record c { files = t }) (create_if_missing (has c.batches) c.files)

unfoldable pub create_merkle_trees_table : Exec StorageError Setup (Unit {0})
create_merkle_trees_table = execute λ c.
    created (λ t. record c { merkle_trees = t }) (create_if_missing (has c.batches) c.merkle_trees)

unfoldable pub create_indexes : Exec StorageError Setup (Unit {0})
create_indexes = do
  execute λ c. if has c.batches then some (record c { batches_index = true }) else none
  execute λ c. if has c.files then some (record c { files_index = true }) else none

unfoldable pub initialize : Exec StorageError Setup (Unit {0})
unfolding create_clients_table create_batches_table create_files_table create_merkle_trees_table
    create_indexes
initialize = do
  create_clients_table
  create_batches_table
  create_files_table
  create_merkle_trees_table
  create_indexes

-- `DatabaseStorage::new_with_retry_config` and `new`; `tries` is what the attempts to connect to a
-- URL give, and `checks` whether the build checks for overflow, as a debug build does.
module _ (tries : Str → ℕ → Attempt) (checks : Bool) where
  -- With overflow checks the code panics at a delay that overflows.
  abbrev pub checked : Bool → Result StorageError (Unit {0})
  checked true = panic
  checked false = ok tt

  unfoldable pub new_with_retry_config :
      Str → DatabaseRetryConfig → Exec StorageError Setup (Unit {0})
  unfolding retry_overflows
  new_with_retry_config database_url retry_config = do
    lift (checked (checks && retry_overflows (tries database_url) retry_config))
    require (connect_with_retry (tries database_url) retry_config).is_connected connection_failed
    initialize

  unfoldable pub new : Str → Exec StorageError Setup (Unit {0})
  unfolding new_with_retry_config
  new database_url = new_with_retry_config database_url default_config
