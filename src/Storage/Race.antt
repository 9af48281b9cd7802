-- ===== src/Storage/Race.antt =====
-- Two calls of `store_file_and_update_tree` of crates/storage/src/database.rs that run at one time:
-- each goes through its parts in order, and the parts of the two interleave.
use mathlib.Core.Option.{some-injective}
use verifiable_storage.Prelude.{
  suc, ◌<◌, ◌≡◌, ◌≢◌, refl, ap, ◌∙◌, sym, Bool, false, none, some, List, [], ◌∷◌, arith, length,
  Bool-cases, inl, inr,
}
use verifiable_storage.Prelude.Result.{ok}
use verifiable_storage.Prelude.Text.{Bytes, Str}
use verifiable_storage.Prelude.Sort.{length-sort}
use verifiable_storage.Prelude.Dict.{
  str_eq, pair_eq, pair_beq, pair_beq_iff, lookup, insert, lookup-insert, lookup-insert_self,
}
use verifiable_storage.Crates.{Crates}
use verifiable_storage.Merkle.{MerkleTree, from_leaf_hashes}
use verifiable_storage.Merkle.Tower.{from_leaf_hashes-IsTreeOf, IsTreeOf-of_ok}
use verifiable_storage.Storage.Tables.{
  Tables, BatchKey, FileKey, query, names_of, compute_leaf_hashes_from_files, load_batch_filenames,
  store_merkle_tree,
}
use verifiable_storage.Storage.Database.{transaction, put_file}
use verifiable_storage.Storage.Trees.{
  calm, sorted_names, compute_leaf_hashes-calm, IsTreeFor, Hashed, length-LeafHashes,
}
use verifiable_storage.Storage.Store.{
  IsAllowed, with_batch, with_file, with_batch-has, first_transaction, second_transaction,
  files-with_batch, clients-with_batch, names_of-insert,
}

-- How far a call has come: the hashes are what it has read.
pub data Phase : Type 0 where
  started stored finished : Phase
  hashed : List Bytes → Phase

pub record File : Type 0 where
  pub client_id : Str
  pub batch_id : Str
  pub filename : Str
  pub content : Bytes

module _ ⦃K : Crates⦄ (collation : Str → Str → Bool) where
  -- One part of the call that stores a file: the first transaction, the reading of the hashes, the
  -- second transaction. No request fails.
  pub data Step (f : File) : Phase → Tables → Phase → Tables → Type 0 where
    put :
        {t t' : Tables}
        → transaction (put_file f.client_id f.batch_id f.filename f.content) (calm t)
          ≡ (ok tt, calm t')
        → Step f started t stored t'
    read :
        {t : Tables} {hashes : List Bytes}
        → compute_leaf_hashes_from_files collation f.client_id f.batch_id (calm t)
          ≡ (ok hashes, calm t)
        → Step f stored t (hashed hashes) t
    update :
        {t t' : Tables} {hashes : List Bytes} {tree : MerkleTree}
        → from_leaf_hashes hashes ≡ ok tree
        → transaction (store_merkle_tree f.client_id f.batch_id tree) (calm t) ≡ (ok tt, calm t')
        → Step f (hashed hashes) t finished t'

  -- Runs of two calls.
  pub data Run (f g : File) : Phase → Phase → Tables → Phase → Phase → Tables → Type 0 where
    stop : {p q : Phase} {t : Tables} → Run f g p q t p q t
    left :
        {p p' r q s : Phase} {t t' u : Tables}
        → Step f p t p' t'
        → Run f g p' q t' r s u
        → Run f g p q t r s u
    right :
        {p q q' r s : Phase} {t t' u : Tables}
        → Step g q t q' t'
        → Run f g p q' t' r s u
        → Run f g p q t r s u

keys_differ :
    (b : BatchKey) (f g : Str) → f ≢ g → pair_beq {A = BatchKey} {B = Str} (b, f) (b, g) ≡ false
keys_differ b f g ne = elim (Bool-cases (pair_beq {A = BatchKey} {B = Str} (b, f) (b, g))) [
  | inl e ↦ absurd (ne (ap (λ (k : FileKey). k.1) ((pair_beq_iff (b, f) (b, g)).0 e)))
  | inr e ↦ e
]

length-names_of-insert :
    (b : BatchKey) (f : Str) (x : Bytes) (files : List (FileKey × Bytes))
    → lookup (b, f) files ≡ none
    → length (names_of b (insert (b, f) x files)) ≡ suc (length (names_of b files))
unfolding names_of insert lookup
length-names_of-insert b f x [] h = rw ((pair_beq_iff b b).1 refl) refl
length-names_of-insert b f x (((c, n), y) ∷ files) h =
    elim (Bool-cases (pair_eq.beq (c, n) (b, f))) [
      | inl e ↦ let bad : some y ≡ none = rw e at h in absurd (cc)
      | inr e ↦
          let rest = length-names_of-insert b f x files (rw e at h) in rw e (ground (arith, rest))
    ]

module _ ⦃K : Crates⦄ (collation : Str → Str → Bool) where
  -- The batch has no stored tree that is the one of its files.
  abbrev pub Stale : Tables → BatchKey → Type 0
  Stale t b = ¬ IsTreeFor collation t b

  pub compute-calm :
      (t : Tables) (c b : Str)
      → (h : Hashed t (c, b) (sorted_names collation t (c, b)))
      → compute_leaf_hashes_from_files collation c b (calm t) ≡ (ok h.hashes, calm t)
  unfolding compute_leaf_hashes_from_files load_batch_filenames query
  compute-calm t c b h = rw h.result refl

  IsAllowed-with_file :
      (t : Tables) (c b f g : Str) (x : Bytes)
      → IsAllowed t c b f
      → IsAllowed t c b g
      → IsAllowed (with_file t (c, b) f x) c b g
  IsAllowed-with_file t c b f g x a a' = record {
    registered = rw (clients-with_batch collation t (c, b)) a'.registered;
    client_fits = a'.client_fits;
    batch_fits = a'.batch_fits;
    name_fits = a'.name_fits;
  }

  -- The tree of a batch whose files have other leaves in number is stale.
  Stale-by_length :
      (t : Tables) (c b : Str) (tree : MerkleTree) (hashes : List Bytes)
      → lookup (c, b) t.merkle_trees ≡ some tree
      → from_leaf_hashes hashes ≡ ok tree
      → length hashes < length (names_of (c, b) t.files)
      → Stale t (c, b)
  Stale-by_length t c b tree hashes has made less T =
      let same : T.tree ≡ tree = some-injective _ _ (sym T.stored ∙ has) in
      let mine = IsTreeOf-of_ok hashes tree made in
      let theirs = IsTreeOf-of_ok T.hashes T.tree T.made in
      omega (
        arith,
        less,
        ap length mine.leaves_eq,
        ap length theirs.leaves_eq,
        ap (λ (u : MerkleTree). length u.leaves) same,
        length-LeafHashes t.files (c, b) (sorted_names collation t (c, b)) T.hashes T.exact,
        length-sort collation (names_of (c, b) t.files),
      )

  -- The hashes of a batch that has a file, and their tree.
  pub record Read (t : Tables) (c b : Str) : Type 0 where
    pub hashes : List Bytes
    pub tree : MerkleTree
    pub result : compute_leaf_hashes_from_files collation c b (calm t) ≡ (ok hashes, calm t)
    pub made : from_leaf_hashes hashes ≡ ok tree
    length_eq : length hashes ≡ length (names_of (c, b) t.files)

  pub Read-calm : (t : Tables) (c b : Str) → 0 < length (names_of (c, b) t.files) → Read t c b
  Read-calm t c b pos =
      let h = compute_leaf_hashes-calm collation t c b in
      let len : length h.hashes ≡ length (names_of (c, b) t.files) =
        length-LeafHashes t.files (c, b) (sorted_names collation t (c, b)) h.hashes h.exact
        ∙ length-sort collation (names_of (c, b) t.files) in
      let (tree, made, _) = from_leaf_hashes-IsTreeOf h.hashes (omega (arith, len)) in
      record {
        hashes = h.hashes;
        tree = tree;
        result = compute-calm t c b h;
        made = made;
        length_eq = len;
      }

  -- From any tables that allow both files and have no row for the second: two calls that each
  -- succeed, store two files of one batch, and interleave in a way that leaves a tree that is not
  -- the one of the files of the batch.
  pub Run-Stale :
      (t : Tables) (c b f g : Str) (x y : Bytes)
      → IsAllowed t c b f
      → IsAllowed t c b g
      → f ≢ g
      → lookup ((c, b), g) t.files ≡ none
      → (t' : Tables) × Run collation
          (record { client_id = c; batch_id = b; filename = f; content = x })
          (record { client_id = c; batch_id = b; filename = g; content = y })
          started
          started
          t
          finished
          finished
          t'
        × Stale t' (c, b)
  Run-Stale t c b f g x y allowed allowed' ne absent =
      let t₁ = with_file t (c, b) f x in
      let t₂ = with_file t₁ (c, b) g y in
      let mine = Read-calm t₁ c b (names_of-insert (c, b) f x (with_batch t (c, b)).files) in
      let theirs = Read-calm t₂ c b (names_of-insert (c, b) g y (with_batch t₁ (c, b)).files) in
      let has = with_batch-has t₁ (c, b) in
      let t₃ = record t₂ { merkle_trees = insert (c, b) theirs.tree t₂.merkle_trees } in
      let t₄ = record t₃ { merkle_trees = insert (c, b) mine.tree t₃.merkle_trees } in
      let still_absent : lookup ((c, b), g) (with_batch t₁ (c, b)).files ≡ none =
        rw
          (
            files-with_batch collation t₁ (c, b),
            lookup-insert,
            keys_differ (c, b) f g ne,
            files-with_batch collation t (c, b),
          )
          absent in
      let more = length-names_of-insert (c, b) g y (with_batch t₁ (c, b)).files still_absent in
      let same_files =
        ap (λ (l : List (FileKey × Bytes)). length (names_of (c, b) l))
          (files-with_batch collation t₁ (c, b)) in
      (
        t₄,
        left (put (first_transaction t c b f x allowed)) (
            left (read mine.result) (
              right
                (put
                  (first_transaction t₁ c b g y (IsAllowed-with_file t c b f g x allowed allowed')))
                (right (read theirs.result) (
                  right (update theirs.made (second_transaction t₂ c b theirs.tree has))
                    (left (update mine.made (second_transaction t₃ c b mine.tree has)) stop))))),
        Stale-by_length t₄ c b mine.tree mine.hashes
            (lookup-insert_self (c, b) mine.tree t₃.merkle_trees) mine.made
            (omega (arith, more, same_files, mine.length_eq)),
      )
