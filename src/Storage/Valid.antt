-- ===== src/Storage/Valid.antt =====
-- The invariant of the tables, and that each operation of the database keeps it.
use verifiable_storage.Prelude.{
  ◌≡◌, refl, ap, ◌∙◌, sym, subst, ◌⊎◌, inl, inr, Bool, true, false, ◌&&◌, Option, none, some, List,
  [], ◌∷◌, arith, Bool-cases,
}
use verifiable_storage.Prelude.Result
use verifiable_storage.Prelude.Result.{Result, ok, err, ok_or}
use verifiable_storage.Prelude.Text.{Bytes, Str}
use verifiable_storage.Prelude.Dict.{
  str_eq, pair_eq, Eq, lookup, insert, lookup-insert, lookup-insert_cases,
}
use verifiable_storage.Prelude.Exec.{◌>>◌}
use verifiable_storage.Crates.{Crates}
use verifiable_storage.Crypto.{compute_client_id}
use verifiable_storage.Merkle.{MerkleTree, from_leaf_hashes}
use verifiable_storage.Common.Filename.{IsValidFilename}
use verifiable_storage.Storage.{file_not_found, tree_failed}
use verifiable_storage.Storage.Tables
use verifiable_storage.Storage.Tables.{
  Tables, Db, BatchKey, FileKey, check, fits, query, names_of, is_some, ensure_batch, store_file,
  store_public_key, store_merkle_tree, leaf_hashes_of, compute_leaf_hashes_from_files,
  load_batch_filenames,
}
use verifiable_storage.Storage.Database.{nothing, transaction, put_file, store_file_and_update_tree}
use verifiable_storage.Storage.Keeps.{
  Keeps, >>=-Keeps, lift-Keeps, query-Keeps, read-Keeps, transaction-Keeps,
}

-- A request with a check that succeeds has passed it.
pub check-ok :
    (c : Bool) (t t' : Tables) (a : Unit {0}) → check c t ≡ ok (a, t') → (c ≡ true) × (t ≡ t')
check-ok true t t' a h = (refl, cc)
check-ok false t t' a h = absurd (cc)

and-true : (a b : Bool) → (a && b) ≡ true → (a ≡ true) × (b ≡ true)
and-true true b h = (refl, h)
and-true false b h = absurd (cc)

abbrev Has : {A V : Type 0} ⦃e : Eq A⦄ → A → List (A × V) → Type 0
Has k d = is_some (lookup k d) ≡ true

Has_some : {V : Type 0} (o : Option V) → is_some o ≡ true → (v : V) × (o ≡ some v)
unfolding is_some
Has_some none h = absurd (cc)
Has_some (some v) h = (v, refl)

module _ {A V : Type 0} ⦃e : Eq A⦄ where
  -- What is in a table stays in it while rows are written.
  Has-insert : (j k : A) (v : V) (d : List (A × V)) → Has j d → Has j (insert k v d)
  unfolding is_some
  Has-insert j k v d h = rw lookup-insert (ground arith)

  Has-insert_cases : (j k : A) (v : V) (d : List (A × V)) → Has j (insert k v d) → (k ≡ j) ⊎ Has j d
  Has-insert_cases j k v d h =
      let (w, found) = Has_some (lookup j (insert k v d)) h in
      elim (lookup-insert_cases k j v w d found) [
        | inl (same, _) ↦ inl same
        | inr old ↦ inr (rw old (unfold is_some in refl))
      ]

module _ ⦃K : Crates⦄ where
  -- Each key is registered under its own identifier, each file has a valid name and a batch, each
  -- tree has a batch, and each batch a client.
  pub record IsValid (t : Tables) : Type 0 where
    pub own_keys : (c : Str) (k : Bytes) → lookup c t.clients ≡ some k → c ≡ compute_client_id k
    pub valid_names :
        (b : BatchKey) (f : Str) (x : Bytes) → lookup (b, f) t.files ≡ some x → IsValidFilename f
    pub file_batches :
        (b : BatchKey) (f : Str) (x : Bytes)
        → lookup (b, f) t.files ≡ some x
        → is_some (lookup b t.batches) ≡ true
    pub tree_batches :
        (b : BatchKey) (m : MerkleTree)
        → lookup b t.merkle_trees ≡ some m
        → is_some (lookup b t.batches) ≡ true
    pub batch_clients :
        (b : BatchKey) → is_some (lookup b t.batches) ≡ true → is_some (lookup b.0 t.clients) ≡ true

  ensure_batch-IsValid : (c b : Str) → Keeps IsValid (ensure_batch c b)
  unfolding ensure_batch
  ensure_batch-IsValid c b = query-Keeps IsValid _ λ t t' a v e.
      let (passed, same) = check-ok _ _ t' a e in
      subst IsValid same (elim (Bool-cases (is_some (lookup (c, b) t.batches))) [
        | inl there ↦ rw there v
        | inr new ↦ rw new (record {
          own_keys = v.own_keys;
          valid_names = v.valid_names;
          file_batches = λ d f x h. Has-insert d (c, b) tt t.batches (v.file_batches d f x h);
          tree_batches = λ d m h. Has-insert d (c, b) tt t.batches (v.tree_batches d m h);
          batch_clients = λ d h. elim (Has-insert_cases d (c, b) tt t.batches h) [
            | inl same ↦ subst (λ (k : BatchKey). Has k.0 t.clients) same (and-true _ _ passed).1
            | inr old ↦ v.batch_clients d old
          ];
        })
      ])

  store_file-IsValid :
      (c b f : Str) (x : Bytes) → IsValidFilename f → Keeps IsValid (store_file c b f x)
  unfolding store_file
  store_file-IsValid c b f x valid = query-Keeps IsValid _ λ t t' a v e.
      let (passed, same) = check-ok _ _ t' a e in
      subst IsValid same (record {
        own_keys = v.own_keys;
        valid_names = λ d g y h. elim (lookup-insert_cases ((c, b), f) (d, g) x y t.files h) [
          | inl (k, _) ↦ subst IsValidFilename (ap (λ (k : FileKey). k.1) k) valid
          | inr old ↦ v.valid_names d g y old
        ];
        file_batches = λ d g y h. elim (lookup-insert_cases ((c, b), f) (d, g) x y t.files h) [
          | inl (k, _) ↦ subst (λ (k : FileKey). Has k.0 t.batches) k (and-true _ _ passed).1
          | inr old ↦ v.file_batches d g y old
        ];
        tree_batches = v.tree_batches;
        batch_clients = v.batch_clients;
      })

  pub store_public_key-IsValid :
      (k : Bytes) → Keeps IsValid (store_public_key (compute_client_id k) k)
  unfolding store_public_key
  store_public_key-IsValid k = query-Keeps IsValid _ λ t t' a v e.
      let (passed, same) = check-ok _ _ t' a e in
      subst IsValid same (record {
        own_keys = λ d l h. elim (lookup-insert_cases (compute_client_id k) d k l t.clients h) [
          | inl (c, l') ↦ sym c ∙ ap compute_client_id l'
          | inr old ↦ v.own_keys d l old
        ];
        valid_names = v.valid_names;
        file_batches = v.file_batches;
        tree_batches = v.tree_batches;
        batch_clients =
            λ d h. Has-insert d.0 (compute_client_id k) k t.clients (v.batch_clients d h);
      })

  store_merkle_tree-IsValid : (c b : Str) (m : MerkleTree) → Keeps IsValid (store_merkle_tree c b m)
  unfolding store_merkle_tree
  store_merkle_tree-IsValid c b m = query-Keeps IsValid _ λ t t' a v e.
      let (passed, same) = check-ok _ _ t' a e in
      subst IsValid same (record {
        own_keys = v.own_keys;
        valid_names = v.valid_names;
        file_batches = v.file_batches;
        tree_batches = λ d n h. elim (lookup-insert_cases (c, b) d m n t.merkle_trees h) [
          | inl (k, _) ↦ subst (λ (k : BatchKey). Has k t.batches) k passed
          | inr old ↦ v.tree_batches d n old
        ];
        batch_clients = v.batch_clients;
      })

  leaf_hashes_of-IsValid : (c b : Str) (names : List Str) → Keeps IsValid (leaf_hashes_of c b names)
  unfolding leaf_hashes_of Tables.read_file
  leaf_hashes_of-IsValid c b [] = λ s v. v
  leaf_hashes_of-IsValid c b (n ∷ names) =
      >>=-Keeps IsValid (Tables.read_file c b n) _ (read-Keeps IsValid _) λ found.
        lift-Keeps IsValid (ok_or file_not_found found) _ λ content _.
          >>=-Keeps IsValid (leaf_hashes_of c b names) _ (leaf_hashes_of-IsValid c b names)
            λ rest s v. v

  compute_leaf_hashes-IsValid :
      (le : Str → Str → Bool) (c b : Str) → Keeps IsValid (compute_leaf_hashes_from_files le c b)
  unfolding compute_leaf_hashes_from_files load_batch_filenames
  compute_leaf_hashes-IsValid le c b =
      >>=-Keeps IsValid (load_batch_filenames le c b) _ (read-Keeps IsValid _)
        (leaf_hashes_of-IsValid c b)

  put_file-IsValid :
      (c b f : Str) (x : Bytes) → IsValidFilename f → Keeps IsValid (put_file c b f x)
  unfolding put_file
  put_file-IsValid c b f x valid =
      >>=-Keeps IsValid (ensure_batch c b) (λ _. store_file c b f x >> nothing)
        (ensure_batch-IsValid c b)
        λ _.
          >>=-Keeps IsValid (store_file c b f x) (λ _. nothing) (store_file-IsValid c b f x valid)
            (λ _. read-Keeps IsValid _)

  -- A call that stores a file under a valid name keeps the tables valid, also where it fails.
  pub store_file_and_update_tree-IsValid :
      (le : Str → Str → Bool) (c b f : Str) (x : Bytes)
      → IsValidFilename f
      → Keeps IsValid (store_file_and_update_tree le c b f x)
  unfolding store_file_and_update_tree
  store_file_and_update_tree-IsValid le c b f x valid =
      >>=-Keeps IsValid (transaction (put_file c b f x)) _
        (transaction-Keeps IsValid (put_file c b f x) (put_file-IsValid c b f x valid))
        λ _.
          >>=-Keeps IsValid (compute_leaf_hashes_from_files le c b) _
            (compute_leaf_hashes-IsValid le c b)
            λ hashes.
              lift-Keeps IsValid (Result.map_err tree_failed (from_leaf_hashes hashes)) _ λ tree _.
                transaction-Keeps IsValid (store_merkle_tree c b tree)
                  (store_merkle_tree-IsValid c b tree)
