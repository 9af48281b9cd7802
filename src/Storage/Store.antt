-- ===== src/Storage/Store.antt =====
-- What `store_file_and_update_tree` of the database does while no request fails: the file is
-- there, the tree of its batch is that of all files of the batch, and nothing else has changed.
use verifiable_storage.Prelude.{
  ◌<◌, ◌≡◌, refl, ap, Bool, true, false, some, List, [], ◌∷◌, arith, length, if◌then◌else◌,
  Bool-cases, inl, inr,
}
use verifiable_storage.Prelude.Result.{ok}
use verifiable_storage.Prelude.Text.{Bytes, Str}
use verifiable_storage.Prelude.Sort.{length-sort}
use verifiable_storage.Prelude.Dict.{
  str_eq, pair_eq, pair_beq, pair_beq_iff, lookup, insert, lookup-insert, lookup-insert_self,
}
use verifiable_storage.Crates.{Crates}
use verifiable_storage.Merkle.{MerkleTree}
use verifiable_storage.Merkle.Tower.{from_leaf_hashes-IsTreeOf}
use verifiable_storage.Storage.Tables
use verifiable_storage.Storage.Tables.{
  Tables, BatchKey, FileKey, fits, query, names_of, compute_leaf_hashes_from_files,
  load_batch_filenames, ensure_batch, store_file, store_merkle_tree,
}
use verifiable_storage.Storage.Database.{transaction, put_file, store_file_and_update_tree}
use verifiable_storage.Storage.Trees.{
  calm, sorted_names, compute_leaf_hashes-calm, IsTreeFor, length-LeafHashes,
}

BatchKey-refl : (b : BatchKey) → pair_beq b b ≡ true
BatchKey-refl b = (pair_beq_iff b b).1 refl

pub FileKey-refl : (k : FileKey) → pair_beq k k ≡ true
FileKey-refl k = (pair_beq_iff k k).1 refl

pub names_of-insert :
    (b : BatchKey) (f : Str) (x : Bytes) (files : List (FileKey × Bytes))
    → 0 < length (names_of b (insert (b, f) x files))
unfolding names_of insert
names_of-insert b f x [] = rw (BatchKey-refl b) (omega arith)
names_of-insert b f x (((c, n), y) ∷ files) =
    ground (arith, BatchKey-refl b, names_of-insert b f x files)

-- The batch, if it is new, and the file.
abbrev pub with_batch : Tables → BatchKey → Tables
with_batch t b =
    if Tables.is_some (lookup b t.batches) then t else record t { batches = insert b tt t.batches }

abbrev pub with_file : Tables → BatchKey → Str → Bytes → Tables
with_file t b f x = record (with_batch t b) { files = insert (b, f) x (with_batch t b).files }

pub with_batch-has :
    (t : Tables) (b : BatchKey) → Tables.is_some (lookup b (with_batch t b).batches) ≡ true
with_batch-has t b = elim (Bool-cases (Tables.is_some (lookup b t.batches))) [
  | inl e ↦ rw e e
  | inr e ↦ rw e (rw lookup-insert_self (unfold Tables.is_some in refl))
]

-- What the tables allow a row for.
pub record IsAllowed (t : Tables) (c b f : Str) : Type 0 where
  pub registered : Tables.is_some (lookup c t.clients) ≡ true
  pub client_fits : fits c ≡ true
  pub batch_fits : fits b ≡ true
  pub name_fits : fits f ≡ true

ensure_batch-calm :
    (t : Tables) (c b f : Str)
    → IsAllowed t c b f
    → ensure_batch c b (calm t) ≡ (ok tt, calm (with_batch t (c, b)))
unfolding ensure_batch
ensure_batch-calm t c b f a = ground (arith, a.registered, a.client_fits, a.batch_fits)

store_file-calm :
    (t : Tables) (c b f : Str) (x : Bytes)
    → fits f ≡ true
    → Tables.is_some (lookup (c, b) t.batches) ≡ true
    → store_file c b f x (calm t)
      ≡ (ok tt, calm (record t { files = insert ((c, b), f) x t.files }))
unfolding store_file
store_file-calm t c b f x h k = ground arith

store_merkle_tree-calm :
    (t : Tables) (c b : Str) (tree : MerkleTree)
    → Tables.is_some (lookup (c, b) t.batches) ≡ true
    → store_merkle_tree c b tree (calm t)
      ≡ (ok tt, calm (record t { merkle_trees = insert (c, b) tree t.merkle_trees }))
unfolding store_merkle_tree
store_merkle_tree-calm t c b tree h = ground arith

pub first_transaction :
    (t : Tables) (c b f : Str) (x : Bytes)
    → IsAllowed t c b f
    → transaction (put_file c b f x) (calm t) ≡ (ok tt, calm (with_file t (c, b) f x))
first_transaction t c b f x a =
    unfold transaction put_file query in
    rw
      (
        ensure_batch-calm t c b f a,
        store_file-calm (with_batch t (c, b)) c b f x a.name_fits (with_batch-has t (c, b)),
      )
      refl

pub second_transaction :
    (t : Tables) (c b : Str) (tree : MerkleTree)
    → Tables.is_some (lookup (c, b) t.batches) ≡ true
    → transaction (store_merkle_tree c b tree) (calm t)
      ≡ (ok tt, calm (record t { merkle_trees = insert (c, b) tree t.merkle_trees }))
second_transaction t c b tree h =
    unfold transaction query in rw (store_merkle_tree-calm t c b tree h) refl

module _ ⦃K : Crates⦄ (collation : Str → Str → Bool) where
  -- The tables before and after file `f` of batch `b` of client `c` is stored with content `x`.
  pub record IsStoredBy (c b f : Str) (x : Bytes) (t t' : Tables) : Type 0 where
    pub files :
        (k : FileKey)
        → lookup k t'.files ≡ (if pair_beq ((c, b), f) k then some x else lookup k t.files)
    pub files_eq : t'.files ≡ insert ((c, b), f) x t.files
    pub tree : IsTreeFor collation t' (c, b)
    pub other_trees :
        (d : BatchKey)
        → pair_beq (c, b) d ≡ false
        → lookup d t'.merkle_trees ≡ lookup d t.merkle_trees
    pub clients : t'.clients ≡ t.clients
    pub batch : Tables.is_some (lookup (c, b) t'.batches) ≡ true

  pub files-with_batch : (t : Tables) (b : BatchKey) → (with_batch t b).files ≡ t.files
  files-with_batch t b = ground arith

  trees-with_batch : (t : Tables) (b : BatchKey) → (with_batch t b).merkle_trees ≡ t.merkle_trees
  trees-with_batch t b = ground arith

  pub clients-with_batch : (t : Tables) (b : BatchKey) → (with_batch t b).clients ≡ t.clients
  clients-with_batch t b = ground arith

  -- While no request fails, storing a file for a registered client succeeds. Exactly that file has
  -- the new content; the tree of its batch is built from the leaf hashes of all files of the batch
  -- in the order of the database; the trees of other batches and the clients stay, and the batch has
  -- a row.
  pub store_file_and_update_tree_lem :
      (t : Tables) (c b f : Str) (x : Bytes)
      → IsAllowed t c b f
      → (t' : Tables) × (store_file_and_update_tree collation c b f x (calm t) ≡ (ok tt, calm t'))
        × IsStoredBy c b f x t t'
  unfolding store_file_and_update_tree compute_leaf_hashes_from_files load_batch_filenames query
  store_file_and_update_tree_lem t c b f x a =
      let t₁ = with_file t (c, b) f x in
      let h = compute_leaf_hashes-calm collation t₁ c b in
      let names_pos : 0 < length (names_of (c, b) t₁.files) =
        names_of-insert (c, b) f x (with_batch t (c, b)).files in
      let hashes_pos : 0 < length h.hashes = omega (
        arith,
        names_pos,
        length-LeafHashes t₁.files (c, b) (sorted_names collation t₁ (c, b)) h.hashes h.exact,
        length-sort collation (names_of (c, b) t₁.files),
      ) in
      let (tree, made, _) = from_leaf_hashes-IsTreeOf h.hashes hashes_pos in
      let second = second_transaction t₁ c b tree (with_batch-has t (c, b)) in
      (
        record t₁ { merkle_trees = insert (c, b) tree t₁.merkle_trees },
        rw (first_transaction t c b f x a, h.result, made, second) refl,
        record {
          files = λ k. rw (lookup-insert, files-with_batch t (c, b)) refl;
          files_eq = ap (insert ((c, b), f) x) (files-with_batch t (c, b));
          tree = record {
            tree = tree;
            hashes = h.hashes;
            stored = lookup-insert_self (c, b) tree t₁.merkle_trees;
            exact = h.exact;
            made = made;
          };
          other_trees = λ d ne. rw (lookup-insert, trees-with_batch t (c, b), ne) refl;
          clients = clients-with_batch t (c, b);
          batch = with_batch-has t (c, b);
        },
      )
