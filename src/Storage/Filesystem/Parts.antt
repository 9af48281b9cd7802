-- ===== src/Storage/Filesystem/Parts.antt =====
-- What an upload to the directory may leave behind (crates/storage/src/filesystem.rs), whichever of its
-- calls fail or break.
use verifiable_storage.Prelude.{
  ℕ, ◌≡◌, refl, ap, subst, ◌⊎◌, inl, inr, Option, some, List, [], ◌∷◌, length, take, if◌then◌else◌,
  Bool-cases,
}
use verifiable_storage.Prelude.Result
use verifiable_storage.Prelude.Result.{Result, ok_or}
use verifiable_storage.Prelude.Text.{Bytes, Str, as_bytes}
use verifiable_storage.Prelude.Dict.{str_eq, lookup}
use verifiable_storage.Prelude.Exec.{◌>>◌, lift, pure}
use verifiable_storage.Disk.{
  Disk, create_dir_all, read, read_to_string, exists, create, write_all, sync_all, open_or_create,
  lock_exclusive,
}
use verifiable_storage.Disk.Changes.{
  OnlyChanges, >>=-OnlyChanges, lift-OnlyChanges, create_dir_all-OnlyChanges,
  lock_exclusive-OnlyChanges, sync_all-OnlyChanges, read-OnlyChanges, read_to_string-OnlyChanges,
  exists-OnlyChanges, create-OnlyChanges, open_or_create-OnlyChanges, write_all-OnlyChanges,
}
use verifiable_storage.Crates.{Crates}
use verifiable_storage.Crypto.{hash_leaf}
use verifiable_storage.Merkle.{from_leaf_hashes}
use verifiable_storage.Storage.{
  StorageError, storage_io, decode_failed, tree_failed, serialize_failed,
}
use verifiable_storage.Storage.Metadata.{
  Json, Map, extract_filenames, insert_filename, load, load_filenames, save_atomic,
}
use verifiable_storage.Storage.Filesystem.{
  batch_dir, file_path, lock_file_path, metadata_path, merkle_tree_path, read_leaf_hashes,
  load_or_new, write_file_atomic, store_file_and_update_tree,
}

take-all : (x : Bytes) → take (length x) x ≡ x
take-all [] = refl
take-all (b ∷ x) = ap (λ (l : Bytes). b ∷ l) (take-all x)

module _ (data_dir client_id batch_id filename : Str) (content : Bytes) where
  -- What an upload may leave at a path: an initial part of the content at the file's path, and any
  -- text at the paths of the storage's own files.
  pub data MayLeave (path : Str) (left : Option Bytes) : Type 0 where
    part :
        (n : ℕ)
        → path ≡ file_path data_dir client_id batch_id filename
        → left ≡ some (take n content)
        → MayLeave path left
    lock_file :
        path ≡ lock_file_path data_dir client_id batch_id → left ≡ some [] → MayLeave path left
    metadata_file : path ≡ metadata_path data_dir client_id batch_id → MayLeave path left
    tree_file : path ≡ merkle_tree_path data_dir client_id batch_id → MayLeave path left

module _ ⦃K : Crates⦄ ⦃J : Json⦄ (Allowed : Str → Option Bytes → Type 0) where
  write_file_atomic-OnlyChanges :
      (path : Str) (x : Bytes)
      → ((n : ℕ) → Allowed path (some (take n x)))
      → OnlyChanges Allowed (write_file_atomic path x)
  unfolding write_file_atomic
  write_file_atomic-OnlyChanges path x parts =
      >>=-OnlyChanges Allowed (create path) (λ _. write_all path x >> sync_all path)
        (create-OnlyChanges Allowed StorageError path (parts 0))
        λ _.
          >>=-OnlyChanges Allowed (write_all path x) (λ _. sync_all path)
            (write_all-OnlyChanges Allowed StorageError path x
              (subst (λ y. Allowed path (some y)) (take-all x) (parts (length x))) parts)
            λ _. sync_all-OnlyChanges Allowed StorageError path

  load-OnlyChanges : (path : Str) → OnlyChanges Allowed (load path)
  unfolding load
  load-OnlyChanges path =
      >>=-OnlyChanges Allowed (read_to_string path) _
        (read_to_string-OnlyChanges Allowed StorageError path)
        λ content. lift-OnlyChanges Allowed (ok_or decode_failed (J.map_from_str content))

  load_or_new-OnlyChanges : (data_dir path : Str) → OnlyChanges Allowed (load_or_new data_dir path)
  unfolding load_or_new
  load_or_new-OnlyChanges data_dir path =
      >>=-OnlyChanges Allowed (exists path) (λ found. if found then load path else pure [])
        (exists-OnlyChanges Allowed StorageError path)
        λ found. elim (Bool-cases found) [
          | inl e ↦ rw e (load-OnlyChanges path)
          | inr e ↦ rw e (λ s p. inl refl)
        ]

  load_filenames-OnlyChanges : (path : Str) → OnlyChanges Allowed (load_filenames path)
  unfolding load_filenames
  load_filenames-OnlyChanges path =
      >>=-OnlyChanges Allowed (load path) _ (load-OnlyChanges path)
        λ metadata. lift-OnlyChanges Allowed (extract_filenames metadata)

  save_atomic-OnlyChanges :
      (path : Str) (m : Map)
      → ((x : Bytes) → Allowed path (some x))
      → OnlyChanges Allowed (save_atomic path m)
  unfolding save_atomic
  save_atomic-OnlyChanges path m any =
      >>=-OnlyChanges Allowed (lift (ok_or serialize_failed (J.map_to_string m))) _
        (lift-OnlyChanges Allowed (ok_or serialize_failed (J.map_to_string m)))
        λ json.
          unfold write_file_atomic in
          write_file_atomic-OnlyChanges path (as_bytes json) (λ n. any (take n (as_bytes json)))

  read_leaf_hashes-OnlyChanges :
      (data_dir client_id batch_id : Str) (names : List Str)
      → OnlyChanges Allowed (read_leaf_hashes data_dir client_id batch_id names)
  unfolding read_leaf_hashes
  read_leaf_hashes-OnlyChanges data_dir client_id batch_id [] = λ s p. inl refl
  read_leaf_hashes-OnlyChanges data_dir client_id batch_id (name ∷ names) =
      >>=-OnlyChanges Allowed (read (file_path data_dir client_id batch_id name)) _
        (read-OnlyChanges Allowed StorageError (file_path data_dir client_id batch_id name))
        λ content.
          >>=-OnlyChanges Allowed (read_leaf_hashes data_dir client_id batch_id names)
            (λ hs. pure (hash_leaf content ∷ hs))
            (read_leaf_hashes-OnlyChanges data_dir client_id batch_id names) λ hs s p. inl refl

module _ ⦃K : Crates⦄ ⦃J : Json⦄ (data_dir client_id batch_id : Str) where
  -- Whichever calls of an upload fail or break, and whatever it returns: each path has the file that it
  -- had, or is the path of the uploaded file and has an initial part of its content, or is the path of
  -- the lock, which is then empty, of the metadata or of the tree.
  pub store_file_and_update_tree-MayLeave :
      (filename : Str) (content : Bytes) (d : Disk) (path : Str)
      → (lookup path
            (store_file_and_update_tree data_dir client_id batch_id filename content d).1.files
          ≡ lookup path d.files)
        ⊎ MayLeave data_dir client_id batch_id filename content path (
            lookup path
              (store_file_and_update_tree data_dir client_id batch_id filename content d).1.files)
  unfolding store_file_and_update_tree
  store_file_and_update_tree-MayLeave filename content =
      let Q = MayLeave data_dir client_id batch_id filename content in
      let lock = lock_file_path data_dir client_id batch_id in
      let index = metadata_path data_dir client_id batch_id in
      let tree_path = merkle_tree_path data_dir client_id batch_id in
      >>=-OnlyChanges Q (create_dir_all (batch_dir data_dir client_id batch_id)) _
        (create_dir_all-OnlyChanges Q StorageError (batch_dir data_dir client_id batch_id))
        λ _.
          >>=-OnlyChanges Q (open_or_create lock) _
            (open_or_create-OnlyChanges Q StorageError lock (lock_file refl refl))
            λ _.
              >>=-OnlyChanges Q (lock_exclusive lock) _
                (lock_exclusive-OnlyChanges Q StorageError lock)
                λ _.
                  >>=-OnlyChanges Q
                    (write_file_atomic (file_path data_dir client_id batch_id filename) content) _
                    (write_file_atomic-OnlyChanges Q
                      (file_path data_dir client_id batch_id filename) content
                      (λ n. part n refl refl))
                    λ _.
                      >>=-OnlyChanges Q (load_or_new data_dir index) _
                        (load_or_new-OnlyChanges Q data_dir index)
                        λ metadata.
                          >>=-OnlyChanges Q (save_atomic index (insert_filename metadata filename))
                            _
                            (save_atomic-OnlyChanges Q index (insert_filename metadata filename)
                              (λ x. metadata_file refl))
                            λ _.
                              >>=-OnlyChanges Q (load_filenames index) _
                                (load_filenames-OnlyChanges Q index)
                                λ names.
                                  >>=-OnlyChanges Q
                                    (read_leaf_hashes data_dir client_id batch_id names) _
                                    (read_leaf_hashes-OnlyChanges Q data_dir client_id batch_id
                                      names)
                                    λ hs.
                                      >>=-OnlyChanges Q
                                        (lift (Result.map_err tree_failed (from_leaf_hashes hs))) _
                                        (lift-OnlyChanges Q
                                          (Result.map_err tree_failed (from_leaf_hashes hs)))
                                        λ tree.
                                          >>=-OnlyChanges Q
                                            (lift (ok_or serialize_failed (J.tree_to_string tree)))
                                            _
                                            (lift-OnlyChanges Q
                                              (ok_or serialize_failed (J.tree_to_string tree)))
                                            λ json.
                                              write_file_atomic-OnlyChanges Q tree_path
                                                (as_bytes json) (λ n. tree_file refl)
