-- ===== src/Storage/Tables.antt =====
-- crates/storage/src/database/schema.rs and queries.rs: the tables, their constraints and the
-- queries. A query either fails, as the list of outages says, or does what its text says. The two that
-- store and load a tree also turn it into JSON and back (`to_value`, `from_value`): an error of these,
-- which leaves the tables as they are, is a failed query too.
use verifiable_storage.Prelude.{
  Bool, true, false, ◌&&◌, ◌||◌, not, Option, none, some, List, [], ◌∷◌, ltb, length, if◌then◌else◌,
}
use verifiable_storage.Prelude.Result.{Result, ok, err, panic}
use verifiable_storage.Prelude.Text.{Bytes, Str, contains}
use verifiable_storage.Prelude.Sort.{sort}
use verifiable_storage.Prelude.Dict.{str_eq, pair_eq, lookup, insert}
use verifiable_storage.Prelude.Exec.{Exec, ◌>>=◌, pure, lift}
use verifiable_storage.Prelude.Result
use verifiable_storage.Crates.{Crates}
use verifiable_storage.Crypto.{hash_leaf}
use verifiable_storage.Merkle.{MerkleTree}
use verifiable_storage.Storage.{StorageError, query_failed, file_not_found}

-- Client and batch.
abbrev pub BatchKey : Type 0
BatchKey = Str × Str

abbrev pub FileKey : Type 0
FileKey = BatchKey × Str

-- The tables, by their primary keys. The JSON of a tree is kept as the tree, which `from_value` gives
-- back where it does not fail.
pub record Tables : Type 0 where
  pub clients : List (Str × Bytes)
  pub batches : List (BatchKey × Unit {0})
  pub files : List (FileKey × Bytes)
  pub merkle_trees : List (BatchKey × MerkleTree)

-- `outages` says of each request to the database to come whether it fails; none does at its end.
pub record Db : Type 0 where
  pub tables : Tables
  pub outages : List Bool

abbrev pub answer :
    {A : Type 0}
    → Bool
    → List Bool
    → (Tables → Result StorageError (A × Tables))
    → Tables
    → Result StorageError A × Db
answer true rest f t = (err query_failed, record { tables = t; outages = rest })
answer false rest f t = elim (f t) [
  | ok (a, t') ↦ (ok a, record { tables = t'; outages = rest })
  | err e ↦ (err e, record { tables = t; outages = rest })
  | panic ↦ (panic, record { tables = t; outages = rest })
]

-- One request to the database.
abbrev request :
    {A : Type 0}
    → (Tables → Result StorageError (A × Tables))
    → List Bool
    → Tables
    → Result StorageError A × Db
request f [] t = answer false [] f t
request f (o ∷ rest) t = answer o rest f t

unfoldable pub query :
    {A : Type 0} → (Tables → Result StorageError (A × Tables)) → Exec StorageError Db A
query f s = request f s.outages s.tables

-- A value for a column `VARCHAR(255)`.
unfoldable pub fits : Str → Bool
fits s = not (ltb 255 (length s) || contains s 0)

unfoldable pub is_some : {A : Type 0} → Option A → Bool
is_some none = false
is_some (some a) = true

-- A row may be written if its values fit and what its foreign key names is there.
abbrev pub check : Bool → Tables → Result StorageError (Unit {0} × Tables)
check true t = ok (tt, t)
check false t = err query_failed

unfoldable pub ensure_batch : Str → Str → Exec StorageError Db (Unit {0})
unfolding query
ensure_batch client_id batch_id = query λ t.
    check (fits client_id && fits batch_id && is_some (lookup client_id t.clients)) (
      if is_some (lookup (client_id, batch_id) t.batches)
      then t
      else record t { batches = insert (client_id, batch_id) tt t.batches })

unfoldable pub store_file : Str → Str → Str → Bytes → Exec StorageError Db (Unit {0})
unfolding query
store_file client_id batch_id filename content = query λ t.
    check (fits filename && is_some (lookup (client_id, batch_id) t.batches))
      (record t { files = insert ((client_id, batch_id), filename) content t.files })

unfoldable pub read_file : Str → Str → Str → Exec StorageError Db (Option Bytes)
unfolding query
read_file client_id batch_id filename =
    query λ t. ok (lookup ((client_id, batch_id), filename) t.files, t)

unfoldable pub batch_exists : Str → Str → Exec StorageError Db Bool
unfolding query
batch_exists client_id batch_id =
    query λ t. ok (is_some (lookup (client_id, batch_id) t.batches), t)

unfoldable pub file_exists : Str → Str → Str → Exec StorageError Db Bool
unfolding query
file_exists client_id batch_id filename =
    query λ t. ok (is_some (lookup ((client_id, batch_id), filename) t.files), t)

-- The filenames of the rows of a batch.
unfoldable pub names_of : BatchKey → List (FileKey × Bytes) → List Str
names_of b [] = []
names_of b (((c, name), content) ∷ files) =
    if pair_eq.beq c b then name ∷ names_of b files else names_of b files

-- `collation` is the order of texts of the database, by which `ORDER BY` sorts.
unfoldable pub load_batch_filenames :
    (Str → Str → Bool) → Str → Str → Exec StorageError Db (List Str)
unfolding query names_of
load_batch_filenames collation client_id batch_id =
    query λ t. ok (sort collation (names_of (client_id, batch_id) t.files), t)

unfoldable pub store_public_key : Str → Bytes → Exec StorageError Db (Unit {0})
unfolding query
store_public_key client_id public_key =
    query λ t. check (fits client_id) (record t { clients = insert client_id public_key t.clients })

unfoldable pub load_public_key : Str → Exec StorageError Db (Option Bytes)
unfolding query
load_public_key client_id = query λ t. ok (lookup client_id t.clients, t)

unfoldable pub store_merkle_tree : Str → Str → MerkleTree → Exec StorageError Db (Unit {0})
unfolding query
store_merkle_tree client_id batch_id tree = query λ t.
    check (is_some (lookup (client_id, batch_id) t.batches))
      (record t { merkle_trees = insert (client_id, batch_id) tree t.merkle_trees })

unfoldable pub load_merkle_tree : Str → Str → Exec StorageError Db (Option MerkleTree)
unfolding query
load_merkle_tree client_id batch_id = query λ t. ok (lookup (client_id, batch_id) t.merkle_trees, t)

module _ ⦃K : Crates⦄ where
  -- The loop over the filenames.
  unfoldable pub leaf_hashes_of : Str → Str → List Str → Exec StorageError Db (List Bytes)
  unfolding read_file
  leaf_hashes_of client_id batch_id [] = pure []
  leaf_hashes_of client_id batch_id (filename ∷ filenames) = do
    found ← read_file client_id batch_id filename
    content ← lift (Result.ok_or file_not_found found)
    rest ← leaf_hashes_of client_id batch_id filenames
    pure (hash_leaf content ∷ rest)

  unfoldable pub compute_leaf_hashes_from_files :
      (Str → Str → Bool) → Str → Str → Exec StorageError Db (List Bytes)
  unfolding load_batch_filenames leaf_hashes_of
  compute_leaf_hashes_from_files collation client_id batch_id = do
    filenames ← load_batch_filenames collation client_id batch_id
    leaf_hashes_of client_id batch_id filenames
