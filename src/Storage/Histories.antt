-- ===== src/Storage/Histories.antt =====
-- Uploads in different orders, over the database of crates/storage: the tree of a batch hangs on what
-- its files are at the end alone.
use verifiable_storage.Prelude.{Option, none, some, List, [], ◌∷◌, ◌==◌, if◌then◌else◌}
use verifiable_storage.Prelude.Text.{Bytes, Str}
use verifiable_storage.Prelude.Dict.{str_eq, pair_eq}
use verifiable_storage.Crates.{Crates}
use verifiable_storage.Storage.Tables.{Tables}
use verifiable_storage.Storage.Filesystem.Batch.{Batch}

abbrev or_else : Option Bytes → Option Bytes → Option Bytes
or_else none o = o
or_else (some x) o = some x

-- The content that is the last to be uploaded under a name.
abbrev pub latest : Str → List (Str × Bytes) → Option Bytes
latest name [] = none
latest name ((f, x) ∷ uploads) = or_else (latest name uploads) (if f == name then some x else none)
