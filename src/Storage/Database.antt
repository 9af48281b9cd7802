-- ===== src/Storage/Database.antt =====
-- crates/storage/src/database.rs
use verifiable_storage.Prelude.{Bool, true, false, List}
use verifiable_storage.Prelude.Result
use verifiable_storage.Prelude.Result.{Result, ok, err, panic, ok_or}
use verifiable_storage.Prelude.Text.{Bytes, Str}
use verifiable_storage.Prelude.Exec.{Exec, ◌>>=◌, ◌>>◌, lift, raise}
use verifiable_storage.Crates.{Crates}
use verifiable_storage.Merkle.{from_leaf_hashes}
use verifiable_storage.Storage.{Storage, StorageError, batch_not_found, file_not_found, tree_failed}
use verifiable_storage.Storage.Tables
use verifiable_storage.Storage.Tables.{Db, query}

abbrev pub nothing : Exec StorageError Db (Unit {0})
nothing = query λ t. ok (tt, t)

-- Without a commit the tables are as they were; what is left of the outages stays.
abbrev pub settle : {A : Type 0} → Db → Result StorageError A × Db → Result StorageError A × Db
settle before (ok a, s) = (ok a, s)
settle before (err e, s) = (err e, record s { tables = before.tables })
settle before (panic, s) = (panic, record s { tables = before.tables })

-- `pool.begin()`, the body, `tx.commit()`. A commit that fails has not taken place.
unfoldable pub transaction : Exec StorageError Db (Unit {0}) → Exec StorageError Db (Unit {0})
unfolding query
transaction body s = settle s ((do nothing; body; nothing) s)

unfoldable pub read_file : Str → Str → Str → Exec StorageError Db Bytes
read_file client_id batch_id filename = do
  found ← Tables.read_file client_id batch_id filename
  lift (ok_or file_not_found found)

unfoldable pub load_batch_filenames :
    (Str → Str → Bool) → Str → Str → Exec StorageError Db (List Str)
load_batch_filenames collation client_id batch_id = do
  exists ← Tables.batch_exists client_id batch_id
  elim exists [
    | true ↦ Tables.load_batch_filenames collation client_id batch_id
    | false ↦ raise batch_not_found
  ]

-- The first transaction. It also locks the row of the tree, if there is one, and reads nothing of it.
unfoldable pub put_file : Str → Str → Str → Bytes → Exec StorageError Db (Unit {0})
unfolding query
put_file client_id batch_id filename content = do
  Tables.ensure_batch client_id batch_id
  Tables.store_file client_id batch_id filename content
  nothing

module _ ⦃K : Crates⦄ (collation : Str → Str → Bool) where
  unfoldable pub store_file_and_update_tree :
      Str → Str → Str → Bytes → Exec StorageError Db (Unit {0})
  store_file_and_update_tree client_id batch_id filename content = do
    transaction (put_file client_id batch_id filename content)
    leaf_hashes ← Tables.compute_leaf_hashes_from_files collation client_id batch_id
    tree ← lift (Result.map_err tree_failed (from_leaf_hashes leaf_hashes))
    transaction (Tables.store_merkle_tree client_id batch_id tree)

  abbrev pub database_storage : Storage
  database_storage = record {
    State = Db;
    read_file = read_file;
    load_batch_filenames = load_batch_filenames collation;
    file_exists = Tables.file_exists;
    store_public_key = Tables.store_public_key;
    load_public_key = Tables.load_public_key;
    load_merkle_tree = Tables.load_merkle_tree;
    store_file_and_update_tree = store_file_and_update_tree;
  }
