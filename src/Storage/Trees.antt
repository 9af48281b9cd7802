-- ===== src/Storage/Trees.antt =====
-- The leaf hashes that `compute_leaf_hashes_from_files` collects while no request fails, and what
-- it is for a stored tree to be that of the files of its batch.
use verifiable_storage.Prelude.{
  ◌≡◌, refl, subst, Bool, some, List, [], ◌∷◌, length, All, Bool-cases, inl, inr,
}
use verifiable_storage.Prelude.Result.{ok}
use verifiable_storage.Prelude.Text.{Bytes, Str}
use verifiable_storage.Prelude.Sort.{sort, sort-All}
use verifiable_storage.Prelude.Dict.{str_eq, pair_eq, lookup}
use verifiable_storage.Crates.{Crates}
use verifiable_storage.Crypto.{hash_leaf}
use verifiable_storage.Merkle.{MerkleTree, from_leaf_hashes}
use verifiable_storage.Storage.Leaves.{LeavesOf, length-LeavesOf}
use verifiable_storage.Storage.Tables.{Tables, Db, BatchKey, FileKey, names_of, leaf_hashes_of}

-- A database none of whose requests fails.
abbrev pub calm : Tables → Db
calm t = record { tables = t; outages = [] }

-- The names of the files of a batch are those that have a row.
abbrev pub IsStored : List (FileKey × Bytes) → BatchKey → Str → Type 0
IsStored files b name = (content : Bytes) × (lookup (b, name) files ≡ some content)

-- Every key of `files` is one of `all`.
abbrev KeysIn : List (FileKey × Bytes) → List (FileKey × Bytes) → Type 0
KeysIn files all =
    (k : FileKey) (c : Bytes) → lookup k files ≡ some c → (d : Bytes) × (lookup k all ≡ some d)

KeysIn-tail :
    (all files : List (FileKey × Bytes)) (k : FileKey) (c : Bytes)
    → KeysIn ((k, c) ∷ files) all
    → KeysIn files all
unfolding lookup
KeysIn-tail all files k c h j d e = elim (Bool-cases (pair_eq.beq k j)) [
  | inl same ↦ h j c (rw same)
  | inr other ↦ h j d (rw other e)
]

KeysIn-head :
    (all files : List (FileKey × Bytes)) (k : FileKey) (c : Bytes)
    → KeysIn ((k, c) ∷ files) all
    → (d : Bytes) × (lookup k all ≡ some d)
unfolding lookup
KeysIn-head all files k c h = h k c (rw ((pair_eq.beq_iff k k).1 refl))

names_of-IsStored_in :
    (all files : List (FileKey × Bytes)) (b : BatchKey)
    → KeysIn files all
    → All (IsStored all b) (names_of b files)
unfolding names_of
names_of-IsStored_in all [] b h = tt
names_of-IsStored_in all (((c, name), content) ∷ files) b h =
    let rest = names_of-IsStored_in all files b (KeysIn-tail all files (c, name) content h) in
    elim (Bool-cases (pair_eq.beq c b)) [
      | inl same ↦ rw same (
        subst (λ (d : BatchKey). IsStored all d name) ((pair_eq.beq_iff c b).0 same)
            (KeysIn-head all files (c, name) content h),
        rest,
      )
      | inr other ↦ rw other rest
    ]

names_of-IsStored :
    (files : List (FileKey × Bytes)) (b : BatchKey) → All (IsStored files b) (names_of b files)
names_of-IsStored files b = names_of-IsStored_in files files b (λ k c e. (c, e))

module _ ⦃K : Crates⦄ where
  -- The hashes of the files with these names, in their order.
  abbrev pub LeafHashes : List (FileKey × Bytes) → BatchKey → List Str → List Bytes → Type 0
  LeafHashes files b = LeavesOf λ n. lookup (b, n) files

  pub record Hashed (t : Tables) (b : BatchKey) (names : List Str) : Type 0 where
    pub hashes : List Bytes
    pub result : leaf_hashes_of b.0 b.1 names (calm t) ≡ (ok hashes, calm t)
    pub exact : LeafHashes t.files b names hashes

  leaf_hashes_of-Hashed :
      (t : Tables) (b : BatchKey) (names : List Str)
      → All (IsStored t.files b) names
      → Hashed t b names
  unfolding leaf_hashes_of
  leaf_hashes_of-Hashed t b [] stored = record { hashes = []; result = refl; exact = tt }
  leaf_hashes_of-Hashed t b (n ∷ names) stored =
      let (content, e) = stored.0 in
      let rest = leaf_hashes_of-Hashed t b names stored.1 in
      record {
        hashes = hash_leaf content ∷ rest.hashes;
        result = rw (e, rest.result);
        exact = ((content, e, refl), rest.exact);
      }

  pub length-LeafHashes :
      (files : List (FileKey × Bytes)) (b : BatchKey) (names : List Str) (hashes : List Bytes)
      → LeafHashes files b names hashes
      → length hashes ≡ length names
  length-LeafHashes files b names hashes l =
      length-LeavesOf (λ n. lookup (b, n) files) names hashes l

  module _ (collation : Str → Str → Bool) where
    abbrev pub sorted_names : Tables → BatchKey → List Str
    sorted_names t b = sort collation (names_of b t.files)

    pub compute_leaf_hashes-calm :
        (t : Tables) (c b : Str) → Hashed t (c, b) (sorted_names t (c, b))
    compute_leaf_hashes-calm t c b =
        leaf_hashes_of-Hashed t (c, b) (sorted_names t (c, b))
          (sort-All collation (IsStored t.files (c, b)) (names_of (c, b) t.files)
            (names_of-IsStored t.files (c, b)))

    -- The tree that is stored for a batch is the one of its files, in the order of their names.
    pub record IsTreeFor (t : Tables) (b : BatchKey) : Type 0 where
      pub tree : MerkleTree
      pub hashes : List Bytes
      pub stored : lookup b t.merkle_trees ≡ some tree
      pub exact : LeafHashes t.files b (sorted_names t b) hashes
      pub made : from_leaf_hashes hashes ≡ ok tree
