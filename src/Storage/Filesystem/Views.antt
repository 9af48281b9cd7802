-- ===== src/Storage/Filesystem/Views.antt =====
-- Files that hold a batch, and what each reading operation of the storage gives there.
use verifiable_storage.Prelude.{◌≡◌, refl, Option, none, some, List, [], ◌∷◌, map, All}
use verifiable_storage.Prelude.Result.{Result, ok, err, ok_or}
use verifiable_storage.Prelude.Text.{Bytes, Str, text, as_bytes}
use verifiable_storage.Prelude.Utf8.{IsScalar}
use verifiable_storage.Prelude.Dict.{str_eq, lookup}
use verifiable_storage.Disk.{is_file, read, exists}
use verifiable_storage.Disk.Laws.{sound, read_to_string-sound}
use verifiable_storage.Crates.{Crates}
use verifiable_storage.Merkle.{MerkleTree, from_leaf_hashes}
use verifiable_storage.Common.FilePath.{join}
use verifiable_storage.Storage.{StorageError, storage_io, io_failed, batch_not_found}
use verifiable_storage.Storage.Leaves.{LeavesOf}
use verifiable_storage.Storage.Metadata
use verifiable_storage.Storage.Metadata.{
  Json, Map, string, array, load_filenames, extract_filenames, as_array,
}
use verifiable_storage.Storage.Filesystem.{
  batch_dir, file_path, metadata_path, merkle_tree_path, read_file, file_exists,
  load_batch_filenames, load_merkle_tree,
}
use verifiable_storage.Storage.Filesystem.Batch.{Batch, names, strings_of-string}
use verifiable_storage.Storage.Filesystem.Paths.{metadata_name, tree_name, IsFileName}

module _ ⦃K : Crates⦄ where
  -- Hashes of the contents that a batch has under the names of a list.
  abbrev pub IsLeaves : Batch → List Str → List Bytes → Type 0
  IsLeaves v = LeavesOf λ n. lookup n v

module _ ⦃K : Crates⦄ ⦃J : Json⦄ (dir : Str) (files : List (Str × Bytes)) (v : Batch) where
  -- The metadata list the names of the batch.
  pub record Listed : Type 0 where
    pub metadata : Map
    pub json : Str
    pub stored : lookup (join dir metadata_name) files ≡ some (as_bytes json)
    pub scalar : All IsScalar json
    pub parsed : J.map_from_str json ≡ some metadata
    pub entry : lookup (text "filenames") metadata ≡ some (array (map string (names v)))

  -- The tree is the one of the contents in the order of the names.
  pub record Rooted : Type 0 where
    pub tree : MerkleTree
    pub json : Str
    pub stored : lookup (join dir tree_name) files ≡ some (as_bytes json)
    pub scalar : All IsScalar json
    pub parsed : J.tree_from_str json ≡ some tree
    pub hashes : List Bytes
    pub leaves : IsLeaves v (names v) hashes
    pub built : from_leaf_hashes hashes ≡ ok tree

  pub data Indexed : Type 0 where
    blank :
        v ≡ []
        → lookup (join dir metadata_name) files ≡ none
        → lookup (join dir tree_name) files ≡ none
        → Indexed
    indexed : Listed → Rooted → Indexed

  -- The directory holds the batch.
  pub record IsBatch : Type 0 where
    pub contents : (name : Str) → IsFileName name → lookup (join dir name) files ≡ lookup name v
    pub all_names : All IsFileName (names v)
    pub index : Indexed

module _ ⦃K : Crates⦄ ⦃J : Json⦄ where
  pub load-sound :
      (path json : Str) (m : Map) (files : List (Str × Bytes))
      → lookup path files ≡ some (as_bytes json)
      → All IsScalar json
      → J.map_from_str json ≡ some m
      → Metadata.load path (sound files) ≡ (ok m, sound files)
  unfolding Metadata.load
  load-sound path json m files h scalar parsed =
      rw (read_to_string-sound path json files h scalar, parsed) refl

  pub load_filenames-sound :
      (path json : Str) (m : Map) (ns : List Str) (files : List (Str × Bytes))
      → lookup path files ≡ some (as_bytes json)
      → All IsScalar json
      → J.map_from_str json ≡ some m
      → lookup (text "filenames") m ≡ some (array (map string ns))
      → load_filenames path (sound files) ≡ (ok ns, sound files)
  unfolding load_filenames extract_filenames as_array
  load_filenames-sound path json m ns files h scalar parsed entry =
      rw (load-sound path json m files h scalar parsed, entry, strings_of-string ns) refl

  module _ (data_dir client_id batch_id : Str) where
    -- What the storage answers for a batch: of no files, or of some.
    pub data TreeView (v : Batch) : Option MerkleTree → Type 0 where
      no_tree : v ≡ [] → TreeView v none
      tree_of :
          (t : MerkleTree) (hashes : List Bytes)
          → IsLeaves v (names v) hashes
          → from_leaf_hashes hashes ≡ ok t
          → TreeView v (some t)

    abbrev pub listing : Batch → Result StorageError (List Str)
    listing [] = err batch_not_found
    listing (p ∷ v) = ok (names (p ∷ v))

    pub record IsViewed (files : List (Str × Bytes)) (v : Batch) : Type 0 where
      pub read_eq :
          (name : Str)
          → IsFileName name
          → read_file data_dir client_id batch_id name (sound files)
            ≡ (ok_or io_failed (lookup name v), sound files)
      pub exists_eq :
          (name : Str)
          → IsFileName name
          → file_exists data_dir client_id batch_id name (sound files)
            ≡ (ok (is_file (lookup name v)), sound files)
      pub names_eq :
          load_batch_filenames data_dir client_id batch_id (sound files) ≡ (listing v, sound files)
      pub tree_eq :
          (o : Option MerkleTree) × (load_merkle_tree data_dir client_id batch_id (sound files)
            ≡ (ok o, sound files))
          × TreeView v o

    listing_blank : (v : Batch) → v ≡ [] → listing v ≡ err batch_not_found
    listing_blank [] h = refl
    listing_blank (p ∷ v) h = absurd (cc)

    listing-names :
        (v : Batch) (t : MerkleTree) (hashes : List Bytes)
        → IsLeaves v (names v) hashes
        → from_leaf_hashes hashes ≡ ok t
        → listing v ≡ ok (names v)
    unfolding from_leaf_hashes
    listing-names [] t [] l h = absurd (cc)
    listing-names [] t (x ∷ hashes) l h = absurd l
    listing-names (p ∷ v) t hashes l h = refl

    module _ (files : List (Str × Bytes)) (v : Batch)
        (b : IsBatch (batch_dir data_dir client_id batch_id) files v) where
      names-view :
          Indexed (batch_dir data_dir client_id batch_id) files v
          → load_batch_filenames data_dir client_id batch_id (sound files)
            ≡ (listing v, sound files)
      unfolding load_batch_filenames metadata_path exists
      names-view (blank empty meta_none tree_none) = rw (meta_none, listing_blank v empty) refl
      names-view (indexed l r) =
          rw
            (
              l.stored,
              load_filenames-sound _ l.json l.metadata (names v) files l.stored l.scalar l.parsed
                  l.entry,
              listing-names v r.tree r.hashes r.leaves r.built,
            )
            refl

      tree-view :
          Indexed (batch_dir data_dir client_id batch_id) files v
          → (o : Option MerkleTree) × (load_merkle_tree data_dir client_id batch_id (sound files)
              ≡ (ok o, sound files))
            × TreeView v o
      unfolding load_merkle_tree merkle_tree_path exists
      tree-view (blank empty meta_none tree_none) = (none, rw tree_none refl, no_tree empty)
      tree-view (indexed l r) = (
        some r.tree,
        rw (r.stored, read_to_string-sound _ r.json files r.stored r.scalar, r.parsed) refl,
        tree_of r.tree r.hashes r.leaves r.built,
      )

      -- Where the files hold a batch and nothing fails, each reading operation answers as the batch says,
      -- and changes nothing.
      pub IsBatch-IsViewed : IsViewed files v
      unfolding read_file file_exists file_path read exists
      IsBatch-IsViewed = record {
        read_eq = λ name n. rw (b.contents name n) refl;
        exists_eq = λ name n. rw (b.contents name n) refl;
        names_eq = names-view b.index;
        tree_eq = tree-view b.index;
      }
