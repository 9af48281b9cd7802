-- ===== src/Storage/Filesystem/Failures.antt =====
-- What an upload to the directory leaves of a file that bears the name of the tree's file.
use verifiable_storage.Prelude.Result
use verifiable_storage.Prelude.Dict.{str_eq}
use verifiable_storage.Disk.{Disk}
use verifiable_storage.Crates.{Crates}
use verifiable_storage.Storage.{storage_io}
