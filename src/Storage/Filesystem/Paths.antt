-- ===== src/Storage/Filesystem/Paths.antt =====
-- The files of one directory by their names: the storage's own files and those of the client.
use verifiable_storage.Prelude.{◌≡◌, refl, false, ◌==◌}
use verifiable_storage.Prelude.Text.{Str, text}
use verifiable_storage.Prelude.Dict.{str_eq}
use verifiable_storage.Common.FilePath.{IsPlain}
use verifiable_storage.Common.Filename.{IsValidFilename}

-- The names that the storage uses itself in the directory of a batch.
abbrev pub metadata_name : Str
metadata_name = text "metadata.json"

abbrev pub tree_name : Str
tree_name = text "merkle_tree.json"

abbrev pub lock_name : Str
lock_name = text ".lock"

-- The name of the key in the directory of the client.
abbrev pub key_name : Str
key_name = text "public_key.hex"

-- A valid name that is none of the storage's own in the directory of a batch.
pub record IsFileName (name : Str) : Type 0 where
  pub valid : IsValidFilename name
  pub not_metadata : (name == metadata_name) ≡ false
  pub not_tree : (name == tree_name) ≡ false
  pub not_lock : (name == lock_name) ≡ false

pub metadata-IsPlain : IsPlain metadata_name
metadata-IsPlain = record {
  ne_nil = λ e. cc;
  ne_dot = λ e. cc;
  ne_dotdot = λ e. cc;
  no_slash = refl;
}

pub tree-IsPlain : IsPlain tree_name
tree-IsPlain = record { ne_nil = λ e. cc; ne_dot = λ e. cc; ne_dotdot = λ e. cc; no_slash = refl }

pub lock-IsPlain : IsPlain lock_name
lock-IsPlain = record { ne_nil = λ e. cc; ne_dot = λ e. cc; ne_dotdot = λ e. cc; no_slash = refl }

pub key-IsPlain : IsPlain key_name
key-IsPlain = record { ne_nil = λ e. cc; ne_dot = λ e. cc; ne_dotdot = λ e. cc; no_slash = refl }

pub metadata_not_lock : (metadata_name == lock_name) ≡ false
unfolding ◌==◌
metadata_not_lock = refl

pub tree_not_metadata : (tree_name == metadata_name) ≡ false
unfolding ◌==◌
tree_not_metadata = refl
