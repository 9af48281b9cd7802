-- ===== src/Storage/Filesystem/Refinement.antt =====
-- Storing files on a disk on which nothing fails, against the batch that its client has in mind.
use verifiable_storage.Prelude.{◌≡◌, refl, ◌∙◌, some, List, [], ◌∷◌, map, arith, All, ◌<◌, length}
use verifiable_storage.Prelude.Result.{ok}
use verifiable_storage.Prelude.Text.{Bytes, Str, text, as_bytes}
use verifiable_storage.Prelude.Dict.{str_eq, lookup}
use verifiable_storage.Prelude.Exec.{Exec, ◌>>◌, pure}
use verifiable_storage.Disk.{
  Disk, create_dir_all, open_or_create, lock_exclusive, create, write_all, sync_all,
}
use verifiable_storage.Crates.{Crates}
use verifiable_storage.Merkle.{MerkleTree, from_leaf_hashes}
use verifiable_storage.Merkle.Tower.{from_leaf_hashes-IsTreeOf}
use verifiable_storage.Common.FilePath.{join}
use verifiable_storage.Storage.{StorageError}
use verifiable_storage.Storage.Metadata.{
  Json, IsFaithful, HasText, Map, array, string, insert_filename, save_atomic,
}
use verifiable_storage.Storage.Filesystem.{
  batch_dir, file_path, metadata_path, merkle_tree_path, lock_file_path, read_leaf_hashes,
  load_or_new, store_file_and_update_tree,
}
use verifiable_storage.Storage.Filesystem.Batch.{Batch, names, put, put_all, names-put}
use verifiable_storage.Storage.Filesystem.Paths.{
  metadata_name, tree_name, IsFileName, metadata-IsPlain, tree-IsPlain, metadata_not_lock,
  tree_not_metadata,
}
use verifiable_storage.Disk.Laws.{sound}
use verifiable_storage.Storage.Filesystem.Frames.{IsOutside, lookup-with_tree_outside}
use verifiable_storage.Storage.Filesystem.Views.{IsLeaves, IsBatch, indexed, load_filenames-sound}
use verifiable_storage.Storage.Filesystem.Writes.{
  with_file, with_metadata, with_tree, with_file-contents, with_metadata-contents,
  with_tree-contents, lookup-overwrite_self,
}
use verifiable_storage.Storage.Filesystem.Steps.{
  ==_comm, locked, lookup-locked, write_file_atomic-sound, lookup-overwrite, put_name-All,
  put_name-pos, names-found, length-IsLeaves, read_leaf_hashes-sound, load_or_new-sound,
  insert_filename-names,
}

module _ ⦃K : Crates⦄ ⦃J : Json⦄ (F : IsFaithful J) (data_dir client_id batch_id : Str) where
  abbrev dir : Str
  dir = batch_dir data_dir client_id batch_id

  module _ (files : List (Str × Bytes)) (v : Batch) (f : Str) (x : Bytes) where
    -- The file and the metadata have been written.
    record IsNamed : Type 0 where
      metadata : Map
      loaded :
          load_or_new data_dir
            (metadata_path data_dir client_id batch_id)
            (sound (with_file dir f x files))
          ≡ (ok metadata, sound (with_file dir f x files))
      new : HasText J.map_to_string J.map_from_str (insert_filename metadata f)
      contents :
          (g : Str)
          → IsFileName g
          → lookup (join dir g) (with_metadata dir new.json (with_file dir f x files))
            ≡ lookup g (put f x v)
      all_names : All IsFileName (names (put f x v))
      entry :
          lookup (text "filenames") (insert_filename metadata f)
          ≡ some (array (map string (names (put f x v))))

    metadata_step : IsBatch dir files v → IsFileName f → IsNamed
    metadata_step b n =
        let fs = with_file dir f x files in
        let (m, loaded, old) =
          load_or_new-sound data_dir client_id batch_id files fs v
            (lookup-overwrite dir f metadata_name x (locked dir files) n.valid.plain
                metadata-IsPlain
              ∙ rw n.not_metadata
                  (lookup-locked dir metadata_name files metadata-IsPlain metadata_not_lock))
            b.index in
        record {
          metadata = m;
          loaded = loaded;
          new = F.map_text (insert_filename m f);
          contents = λ g k.
              with_metadata-contents dir fs g (F.map_text (insert_filename m f)).json k
              ∙ with_file-contents dir files v f g x n k (b.contents g k);
          all_names = rw (names-put f x v) (put_name-All IsFileName f (names v) n b.all_names);
          entry = insert_filename-names m f x v old;
        }

    -- The tree of the files has been built.
    record IsBuilt (h : IsNamed) : Type 0 where
      hashes : List Bytes
      hashed :
          read_leaf_hashes data_dir client_id batch_id
            (names (put f x v))
            (sound (with_metadata dir h.new.json (with_file dir f x files)))
          ≡ (ok hashes, sound (with_metadata dir h.new.json (with_file dir f x files)))
      leaves : IsLeaves (put f x v) (names (put f x v)) hashes
      tree : MerkleTree
      built : from_leaf_hashes hashes ≡ ok tree
      new : HasText J.tree_to_string J.tree_from_str tree

    tree_step : (h : IsNamed) → IsBuilt h
    tree_step h =
        let w = put f x v in
        let (hs, hashed, leaves) =
          read_leaf_hashes-sound data_dir client_id batch_id
            (with_metadata dir h.new.json (with_file dir f x files)) w (names w) h.contents
            h.all_names (names-found w) in
        let pos : 0 < length (names w) = rw (names-put f x v) (put_name-pos f (names v)) in
        let (tree, built, _) =
          from_leaf_hashes-IsTreeOf hs
            (omega (arith, pos, length-IsLeaves w (names w) hs leaves)) in
        record {
          hashes = hs;
          hashed = hashed;
          leaves = leaves;
          tree = tree;
          built = built;
          new = F.tree_text tree;
        }

    module _ (h : IsNamed) (t : IsBuilt h) where
      abbrev named : List (Str × Bytes)
      named = with_metadata dir h.new.json (with_file dir f x files)

      listed : lookup (join dir metadata_name) named ≡ some (as_bytes h.new.json)
      listed =
          lookup-overwrite_self dir metadata_name (as_bytes h.new.json) (with_file dir f x files)
            metadata-IsPlain

      IsBatch-put : IsBatch dir (with_tree dir t.new.json named) (put f x v)
      IsBatch-put = record {
        contents = λ g k.
            with_tree-contents dir named g t.new.json k.valid.plain k.not_tree ∙ h.contents g k;
        all_names = h.all_names;
        index =
            indexed
              (record {
                metadata = insert_filename h.metadata f;
                json = h.new.json;
                stored =
                    with_tree-contents dir named metadata_name t.new.json metadata-IsPlain
                      (==_comm metadata_name tree_name ∙ tree_not_metadata)
                    ∙ listed;
                scalar = h.new.scalar;
                parsed = h.new.parsed;
                entry = h.entry;
              })
              (record {
                tree = t.tree;
                json = t.new.json;
                stored =
                    lookup-overwrite_self dir tree_name (as_bytes t.new.json) named tree-IsPlain;
                scalar = t.new.scalar;
                parsed = t.new.parsed;
                hashes = t.hashes;
                leaves = t.leaves;
                built = t.built;
              });
      }

      store-run :
          store_file_and_update_tree data_dir client_id batch_id f x (sound files)
          ≡ (ok tt, sound (with_tree dir t.new.json named))
      unfolding store_file_and_update_tree file_path lock_file_path metadata_path merkle_tree_path
          create_dir_all open_or_create lock_exclusive save_atomic create write_all sync_all
      store-run =
          rw
            (
              write_file_atomic-sound (join dir f) x (locked dir files),
              h.loaded,
              h.new.printed,
              load_filenames-sound (join dir metadata_name) h.new.json
                  (insert_filename h.metadata f) (names (put f x v)) named listed h.new.scalar
                  h.new.parsed h.entry,
              t.hashed,
              t.built,
              t.new.printed,
            )
            (write_file_atomic-sound (join dir tree_name) (as_bytes t.new.json) named)

  -- Where the files hold a batch and nothing fails, storing a file succeeds, and the files then hold
  -- the batch with the file put into it. What is outside of the directory stays.
  pub store_file_and_update_tree-framed :
      (files : List (Str × Bytes)) (v : Batch) (f : Str) (x : Bytes)
      → IsBatch (batch_dir data_dir client_id batch_id) files v
      → IsFileName f
      → (files' : List (Str × Bytes)) × (store_file_and_update_tree data_dir client_id batch_id f x
            (sound files)
          ≡ (ok tt, sound files'))
        × IsBatch (batch_dir data_dir client_id batch_id) files' (put f x v)
        × ((path : Str)
            → IsOutside (batch_dir data_dir client_id batch_id) path
            → lookup path files' ≡ lookup path files)
  store_file_and_update_tree-framed files v f x b n =
      let h = metadata_step files v f x b n in
      let t = tree_step files v f x h in
      (
        with_tree dir t.new.json (named files v f x h t),
        store-run files v f x h t,
        IsBatch-put files v f x h t,
        λ path outside.
            lookup-with_tree_outside dir path outside f t.new.json h.new.json x files n.valid.plain,
      )

  pub store_file_and_update_tree-put :
      (files : List (Str × Bytes)) (v : Batch) (f : Str) (x : Bytes)
      → IsBatch (batch_dir data_dir client_id batch_id) files v
      → IsFileName f
      → (files' : List (Str × Bytes)) × (store_file_and_update_tree data_dir client_id batch_id f x
            (sound files)
          ≡ (ok tt, sound files'))
        × IsBatch (batch_dir data_dir client_id batch_id) files' (put f x v)
  store_file_and_update_tree-put files v f x b n =
      let (files', e, b', _) = store_file_and_update_tree-framed files v f x b n in (files', e, b')

  -- Files stored one after another.
  abbrev pub store_all : List (Str × Bytes) → Exec StorageError Disk (Unit {0})
  store_all [] = pure tt
  store_all ((f, x) ∷ uploads) =
      store_file_and_update_tree data_dir client_id batch_id f x >> store_all uploads

  -- Whatever files are stored one after another in a batch that the directory holds, with names that
  -- are valid and not the storage's own, and as long as nothing fails: all are stored, and the
  -- directory holds the batch with these files put into it in turn.
  pub store_all-put_all :
      (uploads : List (Str × Bytes)) (files : List (Str × Bytes)) (v : Batch)
      → IsBatch (batch_dir data_dir client_id batch_id) files v
      → All (λ (u : Str × Bytes). IsFileName u.0) uploads
      → (files' : List (Str × Bytes)) × (store_all uploads (sound files) ≡ (ok tt, sound files'))
        × IsBatch (batch_dir data_dir client_id batch_id) files' (put_all uploads v)
  store_all-put_all [] files v b ns = (files, refl, b)
  store_all-put_all ((f, x) ∷ uploads) files v b ns =
      let (files₁, e, b₁) = store_file_and_update_tree-put files v f x b ns.0 in
      let (files₂, e₂, b₂) = store_all-put_all uploads files₁ (put f x v) b₁ ns.1 in
      (files₂, rw e e₂, b₂)
