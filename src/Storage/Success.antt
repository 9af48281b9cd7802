-- ===== src/Storage/Success.antt =====
-- What a call of `store_file_and_update_tree` of crates/storage/src/database.rs that returns with
-- success has done, if requests to the database may fail.
use verifiable_storage.Prelude.{
  ◌≡◌, refl, ap, ◌∙◌, sym, subst, Bool, true, false, some, List, [], ◌∷◌, arith,
}
use verifiable_storage.Prelude.Result
use verifiable_storage.Prelude.Result.{Result, ok, err, panic, ok_or, map_err-ok, ok_or-ok}
use verifiable_storage.Prelude.Text.{Bytes, Str}
use verifiable_storage.Prelude.Sort.{sort}
use verifiable_storage.Prelude.Dict.{str_eq, pair_eq, lookup, insert, lookup-insert_self}
use verifiable_storage.Prelude.Exec.{Exec, ◌>>◌, >>=-ok, lift-ok}
use verifiable_storage.Crates.{Crates}
use verifiable_storage.Crypto.{hash_leaf}
use verifiable_storage.Merkle.{MerkleTree, from_leaf_hashes}
use verifiable_storage.Storage.{StorageError, file_not_found, tree_failed}
use verifiable_storage.Storage.Tables
use verifiable_storage.Storage.Tables.{
  Tables, Db, BatchKey, FileKey, query, names_of, leaf_hashes_of, compute_leaf_hashes_from_files,
  load_batch_filenames, ensure_batch, store_file, store_merkle_tree,
}
use verifiable_storage.Storage.Database.{
  nothing, settle, transaction, put_file, store_file_and_update_tree,
}
use verifiable_storage.Storage.Trees.{LeafHashes, sorted_names, IsTreeFor}

-- A request that succeeds has made its change to the tables.
pub query-ok :
    {A : Type 0} (g : Tables → Result StorageError (A × Tables)) (t : Tables) (outages : List Bool)
    (a : A) (s' : Db)
    → query g (record { tables = t; outages = outages }) ≡ (ok a, s')
    → g t ≡ ok (a, s'.tables)
unfolding query
query-ok g t [] a s' h = ground arith
query-ok g t (true ∷ rest) a s' h = absurd (cc)
query-ok g t (false ∷ rest) a s' h = ground arith

-- A request that reads gives what it has read.
read-ok :
    {A : Type 0} (f : Tables → A) (s : Db) (a : A) (s' : Db)
    → query (λ t. ok (f t, t)) s ≡ (ok a, s')
    → (f s.tables ≡ a) × (s'.tables ≡ s.tables)
read-ok f s a s' h = let e = query-ok (λ t. ok (f t, t)) s.tables s.outages a s' h in (cc, cc)

settle-ok :
    (s : Db) (o : Result StorageError (Unit {0}) × Db) (s' : Db)
    → settle s o ≡ (ok tt, s')
    → o ≡ (ok tt, s')
settle-ok s (ok a, t) s' h = h
settle-ok s (err e, t) s' h = absurd (cc)
settle-ok s (panic, t) s' h = absurd (cc)

transaction-ok :
    (body : Exec StorageError Db (Unit {0})) (s s' : Db)
    → transaction body s ≡ (ok tt, s')
    → (t u : Db) × (t.tables ≡ s.tables) × (body t ≡ (ok tt, u)) × (s'.tables ≡ u.tables)
unfolding transaction
transaction-ok body s s' h =
    >>=-ok nothing (λ _. body >> nothing) (settle-ok s _ s' h)
      λ _ t first rest.
        >>=-ok body (λ _. nothing) rest
          λ _ u ran last.
            (t, u, (read-ok (λ _. tt) s tt t first).1, ran, (read-ok (λ _. tt) u tt s' last).1)

module _ ⦃K : Crates⦄ where
  leaf_hashes_of-ok :
      (c b : Str) (names : List Str) (s s' : Db) (hashes : List Bytes)
      → leaf_hashes_of c b names s ≡ (ok hashes, s')
      → LeafHashes s.tables.files (c, b) names hashes × (s'.tables ≡ s.tables)
  unfolding leaf_hashes_of Tables.read_file
  leaf_hashes_of-ok c b [] s s' hashes h =
      let e : [] ≡ hashes = cc in
      (subst (λ (l : List Bytes). LeafHashes s.tables.files (c, b) [] l) e tt, cc)
  leaf_hashes_of-ok c b (n ∷ names) s s' hashes h =
      >>=-ok (Tables.read_file c b n) _ h λ found t got h₁.
        let read = read-ok (λ t. lookup ((c, b), n) t.files) s found t got in
        lift-ok (ok_or file_not_found found) _ h₁ λ content is_some h₂.
          >>=-ok (leaf_hashes_of c b names) _ h₂ λ rest u more h₃.
            let (exact, same) = leaf_hashes_of-ok c b names t u rest more in
            let e : (hash_leaf content ∷ rest) ≡ hashes = cc in
            (
              subst (λ (l : List Bytes). LeafHashes s.tables.files (c, b) (n ∷ names) l) e
                  (
                    (content, read.0 ∙ ok_or-ok file_not_found found content is_some, refl),
                    subst (λ (v : Tables). LeafHashes v.files (c, b) names rest) read.1 exact,
                  ),
              ap (λ (o : Result StorageError (List Bytes) × Db). o.1.tables) (sym h₃)
                  ∙ same
                  ∙ read.1,
            )

put_file-ok :
    (c b f : Str) (x : Bytes) (s s' : Db)
    → put_file c b f x s ≡ (ok tt, s')
    → lookup ((c, b), f) s'.tables.files ≡ some x
unfolding put_file store_file
put_file-ok c b f x s s' h =
    >>=-ok (ensure_batch c b) (λ _. store_file c b f x >> nothing) h
      λ _ t _ h₁.
        >>=-ok (store_file c b f x) (λ _. nothing) h₁
          λ _ u stored h₂.
            let e = query-ok _ t.tables t.outages tt u stored in
            let files : u.tables.files ≡ insert ((c, b), f) x t.tables.files = ground arith in
            let last = read-ok (λ _. tt) u tt s' h₂ in
            rw (last.1, files) (lookup-insert_self ((c, b), f) x t.tables.files)

record Updated (c b : Str) (tree : MerkleTree) (t t' : Tables) : Type 0 where
  stored : lookup (c, b) t'.merkle_trees ≡ some tree
  files_eq : t'.files ≡ t.files

store_merkle_tree-ok :
    (c b : Str) (tree : MerkleTree) (s s' : Db)
    → store_merkle_tree c b tree s ≡ (ok tt, s')
    → Updated c b tree s.tables s'.tables
unfolding store_merkle_tree
store_merkle_tree-ok c b tree s s' h =
    let e = query-ok _ s.tables s.outages tt s' h in
    let trees : s'.tables.merkle_trees ≡ insert (c, b) tree s.tables.merkle_trees = ground arith in
    record {
      stored = rw trees (lookup-insert_self (c, b) tree s.tables.merkle_trees);
      files_eq = ground arith;
    }

module _ ⦃K : Crates⦄ (collation : Str → Str → Bool) where
  compute-LeafHashes-ok :
      (c b : Str) (s s' : Db) (hashes : List Bytes)
      → compute_leaf_hashes_from_files collation c b s ≡ (ok hashes, s')
      → LeafHashes s.tables.files (c, b) (sorted_names collation s.tables (c, b)) hashes
        × (s'.tables ≡ s.tables)
  unfolding compute_leaf_hashes_from_files load_batch_filenames
  compute-LeafHashes-ok c b s s' hashes h =
      >>=-ok (load_batch_filenames collation c b) _ h λ names t loaded h₁.
        let read = read-ok (λ v. sort collation (names_of (c, b) v.files)) s names t loaded in
        let (exact, same) = leaf_hashes_of-ok c b names t s' hashes h₁ in
        (
          subst (λ (l : List Str). LeafHashes s.tables.files (c, b) l hashes) (sym read.0)
              (subst (λ (v : Tables). LeafHashes v.files (c, b) names hashes) read.1 exact),
          same ∙ read.1,
        )

  -- Whatever requests to the database fail, while no other call runs: if storing a file returns with success, then the file
  -- has this content, and the tree of its batch is the one of all files of the batch.
  pub store_file_and_update_tree-IsTreeFor :
      (c b f : Str) (x : Bytes) (s s' : Db)
      → store_file_and_update_tree collation c b f x s ≡ (ok tt, s')
      → (lookup ((c, b), f) s'.tables.files ≡ some x) × IsTreeFor collation s'.tables (c, b)
  unfolding store_file_and_update_tree
  store_file_and_update_tree-IsTreeFor c b f x s s' h =
      >>=-ok (transaction (put_file c b f x)) _ h λ _ s₁ put h₁.
        >>=-ok (compute_leaf_hashes_from_files collation c b) _ h₁ λ hashes s₂ read h₂.
          lift-ok (Result.map_err tree_failed (from_leaf_hashes hashes)) _ h₂ λ tree made update.
            let (t, u, _, body, u_eq) = transaction-ok (put_file c b f x) s s₁ put in
            let (v, w, v_eq, body', w_eq) =
              transaction-ok (store_merkle_tree c b tree) s₂ s' update in
            let content = put_file-ok c b f x t u body in
            let (exact, s₂_eq) = compute-LeafHashes-ok c b s₁ s₂ hashes read in
            let updated = store_merkle_tree-ok c b tree v w body' in
            let files : s'.tables.files ≡ s₁.tables.files =
              ap (λ (a : Tables). a.files) w_eq
              ∙ updated.files_eq
              ∙ ap (λ (a : Tables). a.files) (v_eq ∙ s₂_eq) in
            (
              rw (files, u_eq) content,
              record {
                tree = tree;
                hashes = hashes;
                stored = rw w_eq updated.stored;
                exact =
                    subst
                      (λ (l : List (FileKey × Bytes)).
                        LeafHashes l (c, b) (sort collation (names_of (c, b) l)) hashes)
                      (sym files) exact;
                made = map_err-ok _ _ made;
              },
            )
