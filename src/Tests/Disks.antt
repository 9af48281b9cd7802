-- ===== src/Tests/Disks.antt =====
-- Batches in directories, from an empty disk on.
use verifiable_storage.Prelude.{◌⊎◌, ◌≡◌, refl, some, List, [], ◌∷◌, ◌==◌}
use verifiable_storage.Prelude.Result.{ok}
use verifiable_storage.Prelude.Text.{Bytes, Str, text}
use verifiable_storage.Prelude.Dict.{str_eq, lookup}
use verifiable_storage.Disk.{Disk, works, breaks}
use verifiable_storage.Common.FilePath.{join}
use verifiable_storage.Common.Filename.{validate_filename, validate_filename_iff}
use verifiable_storage.Storage.Filesystem.{batch_dir, file_path, store_file_and_update_tree}
use verifiable_storage.Storage.Filesystem.Batch.{put, put_all}
use verifiable_storage.Storage.Filesystem.Paths.{IsFileName, tree_name}
use verifiable_storage.Disk.Laws.{sound}
use verifiable_storage.Storage.Filesystem.Views.{IsBatch, IsViewed, blank, IsBatch-IsViewed}
use verifiable_storage.Storage.Filesystem.Refinement.{
  store_all, store_file_and_update_tree-put, store_all-put_all,
}
use verifiable_storage.Storage.Filesystem.Parts.{MayLeave, store_file_and_update_tree-MayLeave}
use verifiable_storage.Disk.{create_dir_all, open_or_create, lock_exclusive, create, write_all}
use verifiable_storage.Storage.Filesystem.{lock_file_path, write_file_atomic}
use verifiable_storage.Prelude.Dict.{insert}
use verifiable_storage.Common.FilePath.{push, is_absolute}
use verifiable_storage.Tests.ToyCrates.{toy_crates}
use verifiable_storage.Tests.ToyJson.{toy_json, toy_json-IsFaithful}

abbrev root : Str
root = text "data"

abbrev dir : Str
dir = batch_dir root (text "c1") (text "b1")

nothing_there : IsBatch dir [] []
unfolding lookup
nothing_there = record { contents = λ name n. refl; all_names = tt; index = blank refl refl refl }

a_name : IsFileName (text "a.txt")
a_name = record {
  valid = (validate_filename_iff (text "a.txt")).0 (unfold validate_filename ◌==◌ in refl);
  not_metadata = unfold ◌==◌ in refl;
  not_tree = unfold ◌==◌ in refl;
  not_lock = unfold ◌==◌ in refl;
}

b_name : IsFileName (text "b.txt")
b_name = record {
  valid = (validate_filename_iff (text "b.txt")).0 (unfold validate_filename ◌==◌ in refl);
  not_metadata = unfold ◌==◌ in refl;
  not_tree = unfold ◌==◌ in refl;
  not_lock = unfold ◌==◌ in refl;
}

abbrev uploads : List (Str × Bytes)
uploads = (text "b.txt", 1 ∷ []) ∷ (text "a.txt", 2 ∷ 3 ∷ []) ∷ (text "b.txt", 4 ∷ []) ∷ []

store_all-put_all_example :
    (files' : List (Str × Bytes)) × (store_all toy_json-IsFaithful root
        (text "c1")
        (text "b1")
        uploads
        (sound [])
      ≡ (ok tt, sound files'))
    × IsBatch dir files' (put_all uploads [])
store_all-put_all_example =
    store_all-put_all toy_json-IsFaithful root (text "c1") (text "b1") uploads [] [] nothing_there
      (b_name, (a_name, (b_name, tt)))

-- The batch of one file.
stored :
    (files' : List (Str × Bytes)) × (store_file_and_update_tree root
        (text "c1")
        (text "b1")
        (text "a.txt")
        (7 ∷ [])
        (sound [])
      ≡ (ok tt, sound files'))
    × IsBatch dir files' (put (text "a.txt") (7 ∷ []) [])
stored =
    store_file_and_update_tree-put toy_json-IsFaithful root (text "c1") (text "b1") [] []
      (text "a.txt") (7 ∷ []) nothing_there a_name

IsBatch-IsViewed_example :
    IsViewed root (text "c1") (text "b1") (stored.0) (put (text "a.txt") (7 ∷ []) [])
IsBatch-IsViewed_example =
    IsBatch-IsViewed root (text "c1") (text "b1") (stored.0) (put (text "a.txt") (7 ∷ []) [])
      (stored.2)

-- The write of the new content breaks after its first byte.
abbrev torn : Disk
torn = record {
  files = (file_path root (text "c1") (text "b1") (text "a.txt"), 7 ∷ []) ∷ [];
  outcomes = works ∷ works ∷ works ∷ works ∷ breaks 1 ∷ [];
}

abbrev after_torn : Disk
after_torn =
    (store_file_and_update_tree root (text "c1") (text "b1") (text "a.txt") (8 ∷ 9 ∷ []) torn).1

-- Half of the content is left, and nothing of the old one.
half_left :
    lookup (file_path root (text "c1") (text "b1") (text "a.txt")) after_torn.files ≡ some (8 ∷ [])
unfolding store_file_and_update_tree create_dir_all open_or_create lock_exclusive lock_file_path
    batch_dir write_file_atomic create write_all file_path lookup insert join push is_absolute ◌==◌
half_left = refl

store_file_and_update_tree-MayLeave_example :
    (lookup (file_path root (text "c1") (text "b1") (text "a.txt")) after_torn.files
      ≡ lookup (file_path root (text "c1") (text "b1") (text "a.txt")) torn.files)
    ⊎ MayLeave root
        (text "c1")
        (text "b1")
        (text "a.txt")
        (8 ∷ 9 ∷ [])
        (file_path root (text "c1") (text "b1") (text "a.txt"))
        (lookup (file_path root (text "c1") (text "b1") (text "a.txt")) after_torn.files)
store_file_and_update_tree-MayLeave_example =
    store_file_and_update_tree-MayLeave root (text "c1") (text "b1") (text "a.txt") (8 ∷ 9 ∷ [])
      torn (file_path root (text "c1") (text "b1") (text "a.txt"))

abbrev after : Disk
after = (store_file_and_update_tree root (text "c1") (text "b1") tree_name (8 ∷ []) (sound [])).1
