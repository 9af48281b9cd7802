-- ===== src/Storage/Filesystem/Writes.antt =====
-- What is found under the names of a directory after the writes of a file, the metadata and the tree.
use verifiable_storage.Prelude.{◌≡◌, refl, ◌∙◌, sym, false, some, List, ◌==◌, ==_iff}
use verifiable_storage.Prelude.Text.{Bytes, Str, as_bytes}
use verifiable_storage.Prelude.Dict.{str_eq, lookup}
use verifiable_storage.Common.FilePath.{IsPlain, join}
use verifiable_storage.Storage.Filesystem.Batch.{Batch, put, lookup-put}
use verifiable_storage.Storage.Filesystem.Paths.{
  metadata_name, tree_name, IsFileName, metadata-IsPlain, tree-IsPlain,
}
use verifiable_storage.Storage.Filesystem.Steps.{
  ==_comm, locked, lookup-locked, overwrite, lookup-overwrite,
}

-- The files with the new content, with the metadata, and with the tree.
abbrev pub with_file : Str → Str → Bytes → List (Str × Bytes) → List (Str × Bytes)
with_file dir f x files = overwrite (join dir f) x (locked dir files)

abbrev pub with_metadata : Str → Str → List (Str × Bytes) → List (Str × Bytes)
with_metadata dir json files = overwrite (join dir metadata_name) (as_bytes json) files

abbrev pub with_tree : Str → Str → List (Str × Bytes) → List (Str × Bytes)
with_tree dir json files = overwrite (join dir tree_name) (as_bytes json) files

module _ (dir : Str) where
  pub with_file-contents :
      (files : List (Str × Bytes)) (v : Batch) (f g : Str) (x : Bytes)
      → IsFileName f
      → IsFileName g
      → lookup (join dir g) files ≡ lookup g v
      → lookup (join dir g) (with_file dir f x files) ≡ lookup g (put f x v)
  with_file-contents files v f g x n m e =
      lookup-overwrite dir f g x (locked dir files) n.valid.plain m.valid.plain
      ∙ rw (lookup-locked dir g files m.valid.plain m.not_lock, e) (sym (lookup-put g f x v))

  pub with_metadata-contents :
      (files : List (Str × Bytes)) (g json : Str)
      → IsFileName g
      → lookup (join dir g) (with_metadata dir json files) ≡ lookup (join dir g) files
  with_metadata-contents files g json m =
      lookup-overwrite dir metadata_name g (as_bytes json) files metadata-IsPlain m.valid.plain
      ∙ rw (==_comm metadata_name g, m.not_metadata) refl

  pub with_tree-contents :
      (files : List (Str × Bytes)) (g json : Str)
      → IsPlain g
      → (g == tree_name) ≡ false
      → lookup (join dir g) (with_tree dir json files) ≡ lookup (join dir g) files
  with_tree-contents files g json p other =
      lookup-overwrite dir tree_name g (as_bytes json) files tree-IsPlain p
      ∙ rw (==_comm tree_name g, other) refl

  pub lookup-overwrite_self :
      (f : Str) (x : Bytes) (files : List (Str × Bytes))
      → IsPlain f
      → lookup (join dir f) (overwrite (join dir f) x files) ≡ some x
  lookup-overwrite_self f x files p =
      lookup-overwrite dir f f x files p p ∙ rw ((==_iff f f).1 refl) refl
