-- ===== src/Storage/Filesystem/Frames.antt =====
-- crates/storage/src/filesystem.rs: what lies beside the directory of a batch, and the batch, are apart.
use verifiable_storage.Prelude.{◌≡◌, ◌≢◌, refl, ◌∙◌, Bool-cases, inl, inr, List, []}
use verifiable_storage.Prelude.Text.{Bytes, Str}
use verifiable_storage.Prelude.Dict.{str_eq, lookup, insert}
use verifiable_storage.Disk.{is_file}
use verifiable_storage.Disk.Paths.{lookup-insert_other, join_below}
use verifiable_storage.Crates.{Crates}
use verifiable_storage.Common.FilePath.{IsPlain, join}
use verifiable_storage.Storage.Metadata.{Json}
use verifiable_storage.Storage.Filesystem.{batch_dir, client_dir, public_key_path}
use verifiable_storage.Storage.Filesystem.Batch.{Batch}
use verifiable_storage.Storage.Filesystem.Paths.{
  metadata_name, tree_name, lock_name, key_name, metadata-IsPlain, tree-IsPlain, lock-IsPlain,
  key-IsPlain,
}
use verifiable_storage.Storage.Filesystem.Steps.{locked, overwrite}
use verifiable_storage.Storage.Filesystem.Views.{IsBatch, Indexed, blank, indexed}
use verifiable_storage.Storage.Filesystem.Writes.{with_file, with_metadata, with_tree}

-- The path is none of a file of the directory.
abbrev pub IsOutside : Str → Str → Type 0
IsOutside dir path = (name : Str) → IsPlain name → path ≢ join dir name

pub public_key_path-IsOutside :
    (data_dir client_id batch_id : Str)
    → IsPlain batch_id
    → IsOutside (batch_dir data_dir client_id batch_id) (public_key_path data_dir client_id)
unfolding public_key_path client_dir batch_dir
public_key_path-IsOutside data_dir client_id batch_id plain =
    λ name p. join_below (join data_dir client_id) batch_id key_name name plain key-IsPlain p

module _ (dir path : Str) (outside : IsOutside dir path) where
  lookup-overwrite_outside :
      (name : Str) (x : Bytes) (files : List (Str × Bytes))
      → IsPlain name
      → lookup path (overwrite (join dir name) x files) ≡ lookup path files
  lookup-overwrite_outside name x files p =
      lookup-insert_other path (join dir name) x (insert (join dir name) [] files) (outside name p)
      ∙ lookup-insert_other path (join dir name) [] files (outside name p)

  lookup-locked_outside :
      (files : List (Str × Bytes)) → lookup path (locked dir files) ≡ lookup path files
  lookup-locked_outside files = elim (Bool-cases (is_file (lookup (join dir lock_name) files))) [
    | inl e ↦ rw e refl
    | inr e ↦
        rw e
          (lookup-insert_other path (join dir lock_name) [] files (outside lock_name lock-IsPlain))
  ]

  -- Storing a file writes nothing there.
  pub lookup-with_tree_outside :
      (f json json' : Str) (x : Bytes) (files : List (Str × Bytes))
      → IsPlain f
      → lookup path (with_tree dir json (with_metadata dir json' (with_file dir f x files)))
        ≡ lookup path files
  lookup-with_tree_outside f json json' x files p =
      lookup-overwrite_outside tree_name _ _ tree-IsPlain
      ∙ lookup-overwrite_outside metadata_name _ _ metadata-IsPlain
      ∙ lookup-overwrite_outside f x _ p
      ∙ lookup-locked_outside files

-- Where nothing of the directory has changed, it holds the batch still.
module _ ⦃K : Crates⦄ ⦃J : Json⦄ (dir : Str) (files files' : List (Str × Bytes)) (v : Batch)
    (same : (name : Str)
      → IsPlain name
      → lookup (join dir name) files' ≡ lookup (join dir name) files) where
  Indexed-same : Indexed dir files v → Indexed dir files' v
  Indexed-same (blank empty meta_none tree_none) =
      blank empty (same metadata_name metadata-IsPlain ∙ meta_none)
        (same tree_name tree-IsPlain ∙ tree_none)
  Indexed-same (indexed l r) =
      indexed
        (record {
          metadata = l.metadata;
          json = l.json;
          stored = same metadata_name metadata-IsPlain ∙ l.stored;
          scalar = l.scalar;
          parsed = l.parsed;
          entry = l.entry;
        })
        (record {
          tree = r.tree;
          json = r.json;
          stored = same tree_name tree-IsPlain ∙ r.stored;
          scalar = r.scalar;
          parsed = r.parsed;
          hashes = r.hashes;
          leaves = r.leaves;
          built = r.built;
        })

  pub IsBatch-same : IsBatch dir files v → IsBatch dir files' v
  IsBatch-same b = record {
    contents = λ name n. same name n.valid.plain ∙ b.contents name n;
    all_names = b.all_names;
    index = Indexed-same b.index;
  }
