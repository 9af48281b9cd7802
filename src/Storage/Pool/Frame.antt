-- ===== src/Storage/Pool/Frame.antt =====
-- What the calls to other batches leave of a batch in the tables.
use verifiable_storage.Prelude.{
  ◌≡◌, refl, ◌∙◌, sym, subst, inl, inr, Bool, true, false, List, [], ◌∷◌, arith, Bool-cases,
}
use verifiable_storage.Prelude.Text.{Bytes, Str}
use verifiable_storage.Prelude.Sort.{sort}
use verifiable_storage.Prelude.Dict.{
  Eq, str_eq, pair_eq, pair_beq, pair_beq_iff, lookup, insert, lookup-insert,
}
use verifiable_storage.Crates.{Crates}
use verifiable_storage.Merkle.{MerkleTree}
use verifiable_storage.Storage.Tables
use verifiable_storage.Storage.Tables.{Tables, BatchKey, FileKey, names_of}
use verifiable_storage.Storage.Trees.{LeafHashes, sorted_names, IsTreeFor}
use verifiable_storage.Storage.Store.{with_batch, with_file}

-- The batch is as it was; clients and the row of the batch are still there.
pub record SameBatch (b : BatchKey) (t t' : Tables) : Type 0 where
  pub names_eq : names_of b t'.files ≡ names_of b t.files
  pub contents : (name : Str) → lookup (b, name) t'.files ≡ lookup (b, name) t.files
  pub tree_eq : lookup b t'.merkle_trees ≡ lookup b t.merkle_trees
  pub row : Tables.is_some (lookup b t.batches) ≡ true → Tables.is_some (lookup b t'.batches) ≡ true
  pub client :
      (c : Str)
      → Tables.is_some (lookup c t.clients) ≡ true
      → Tables.is_some (lookup c t'.clients) ≡ true

pub SameBatch-refl : (b : BatchKey) (t : Tables) → SameBatch b t t
SameBatch-refl b t = record {
  names_eq = refl;
  contents = λ name. refl;
  tree_eq = refl;
  row = λ h. h;
  client = λ c h. h;
}

names_of-insert_other :
    (b d : BatchKey) (f : Str) (x : Bytes) (files : List (FileKey × Bytes))
    → pair_beq d b ≡ false
    → names_of b (insert (d, f) x files) ≡ names_of b files
unfolding names_of insert
names_of-insert_other b d f x [] other = rw other refl
names_of-insert_other b d f x (((c, g), y) ∷ files) other =
    ground (arith, names_of-insert_other b d f x files, pair_beq_iff c d, pair_beq_iff d b)

-- What was there is there after an insertion.
pub is_some-insert :
    {A V : Type 0} ⦃e : Eq A⦄ (k j : A) (v : V) (d : List (A × V))
    → Tables.is_some (lookup j d) ≡ true
    → Tables.is_some (lookup j (insert k v d)) ≡ true
unfolding Tables.is_some
is_some-insert ⦃e⦄ k j v d h = elim (Bool-cases (e.beq k j)) [
  | inl same ↦ rw (lookup-insert, same) refl
  | inr other ↦ rw (lookup-insert, other) h
]

SameBatch-trans :
    (b : BatchKey) (t u v : Tables) → SameBatch b t u → SameBatch b u v → SameBatch b t v
SameBatch-trans b t u v s r = record {
  names_eq = r.names_eq ∙ s.names_eq;
  contents = λ name. r.contents name ∙ s.contents name;
  tree_eq = r.tree_eq ∙ s.tree_eq;
  row = λ h. r.row (s.row h);
  client = λ c h. r.client c (s.client c h);
}

with_batch-SameBatch : (t : Tables) (d b : BatchKey) → SameBatch b t (with_batch t d)
with_batch-SameBatch t d b = elim (Bool-cases (Tables.is_some (lookup d t.batches))) [
  | inl e ↦ rw e (SameBatch-refl b t)
  | inr e ↦ rw e (record {
    names_eq = refl;
    contents = λ name. refl;
    tree_eq = refl;
    row = is_some-insert d b tt t.batches;
    client = λ c h. h;
  })
]

insert-SameBatch :
    (t : Tables) (d b : BatchKey) (f : Str) (x : Bytes)
    → pair_beq d b ≡ false
    → SameBatch b t (record t { files = insert (d, f) x t.files })
insert-SameBatch t d b f x other = record {
  names_eq = names_of-insert_other b d f x t.files other;
  contents = λ name. rw (lookup-insert, other) refl;
  tree_eq = refl;
  row = λ h. h;
  client = λ c h. h;
}

-- A file of another batch.
pub with_file-SameBatch :
    (t : Tables) (d b : BatchKey) (f : Str) (x : Bytes)
    → pair_beq d b ≡ false
    → SameBatch b t (with_file t d f x)
with_file-SameBatch t d b f x other =
    SameBatch-trans b t (with_batch t d) (with_file t d f x) (with_batch-SameBatch t d b)
      (insert-SameBatch (with_batch t d) d b f x other)

-- A tree of another batch.
pub with_tree-SameBatch :
    (t : Tables) (d b : BatchKey) (tree : MerkleTree)
    → pair_beq d b ≡ false
    → SameBatch b t (record t { merkle_trees = insert d tree t.merkle_trees })
with_tree-SameBatch t d b tree other = record {
  names_eq = refl;
  contents = λ name. refl;
  tree_eq = rw (lookup-insert, other) refl;
  row = λ h. h;
  client = λ c h. h;
}

-- A client.
pub with_client-SameBatch :
    (t : Tables) (b : BatchKey) (c : Str) (k : Bytes)
    → SameBatch b t (record t { clients = insert c k t.clients })
with_client-SameBatch t b c k = record {
  names_eq = refl;
  contents = λ name. refl;
  tree_eq = refl;
  row = λ h. h;
  client = λ d. is_some-insert c d k t.clients;
}

module _ ⦃K : Crates⦄ where
  pub LeafHashes-SameBatch :
      (b : BatchKey) (t t' : Tables) (names : List Str) (hashes : List Bytes)
      → SameBatch b t t'
      → LeafHashes t.files b names hashes
      → LeafHashes t'.files b names hashes
  LeafHashes-SameBatch b t t' [] [] s l = tt
  LeafHashes-SameBatch b t t' [] (h ∷ hashes) s l = absurd l
  LeafHashes-SameBatch b t t' (n ∷ names) [] s l = absurd l
  LeafHashes-SameBatch b t t' (n ∷ names) (h ∷ hashes) s l =
      let (content, there, made) = l.0 in
      ((content, s.contents n ∙ there, made), LeafHashes-SameBatch b t t' names hashes s l.1)

  module _ (collation : Str → Str → Bool) where
    pub sorted_names-SameBatch :
        (b : BatchKey) (t t' : Tables) (hashes : List Bytes)
        → SameBatch b t t'
        → LeafHashes t.files b (sorted_names collation t b) hashes
        → LeafHashes t'.files b (sorted_names collation t' b) hashes
    sorted_names-SameBatch b t t' hashes s l =
        subst (λ ns. LeafHashes t'.files b (sort collation ns) hashes) (sym s.names_eq)
          (LeafHashes-SameBatch b t t' (sorted_names collation t b) hashes s l)

    pub IsTreeFor-SameBatch :
        (b : BatchKey) (t t' : Tables)
        → SameBatch b t t'
        → IsTreeFor collation t b
        → IsTreeFor collation t' b
    IsTreeFor-SameBatch b t t' s T = record {
      tree = T.tree;
      hashes = T.hashes;
      stored = s.tree_eq ∙ T.stored;
      exact = sorted_names-SameBatch b t t' T.hashes s T.exact;
      made = T.made;
    }
