-- ===== src/Disk.antt =====
-- The calls of `std::fs` and `tokio::fs` on files by their paths. The list of outcomes says
-- what comes of each operation, in order; past its end each works. Directories are not recorded.
pub mod Changes
pub mod Laws
pub mod Paths
use verifiable_storage.Prelude.{
  ℕ, take, Bool, true, false, Option, none, some, List, [], ◌∷◌, if◌then◌else◌,
}
use verifiable_storage.Prelude.Result.{Result, ok, err, ok_or}
use verifiable_storage.Prelude.Text.{Bytes, Str}
use verifiable_storage.Prelude.Utf8.{from_utf8}
use verifiable_storage.Prelude.Dict.{str_eq, lookup, insert, remove}
use verifiable_storage.Prelude.Exec.{Exec, ◌>>=◌, lift}

-- The error that stands for a failed operation.
pub record IoError (E : Type 0) : Type 0 where
  pub failed : E

-- An operation works, or it fails with nothing done, or, if it writes, breaks after so many bytes.
pub data Outcome : Type 0 where
  works fails : Outcome
  breaks : ℕ → Outcome

pub record Disk : Type 0 where
  pub files : List (Str × Bytes)
  pub outcomes : List Outcome

abbrev pub is_file : Option Bytes → Bool
is_file none = false
is_file (some content) = true

module _ {E : Type 0} ⦃i : IoError E⦄ where
  -- An operation with its result and the files after it, where it does not fail.
  abbrev pub attempt :
      {A : Type 0}
      → List Outcome
      → List (Str × Bytes)
      → List (Str × Bytes)
      → Result E A
      → Result E A × Disk
  attempt [] before after r = (r, record { files = after; outcomes = [] })
  attempt (works ∷ rest) before after r = (r, record { files = after; outcomes = rest })
  attempt (fails ∷ rest) before after r = (err i.failed, record { files = before; outcomes = rest })
  attempt (breaks n ∷ rest) before after r =
      (err i.failed, record { files = before; outcomes = rest })

  -- A write of the content to a file, which may leave only the first bytes of it.
  abbrev pub attempt_write :
      List Outcome → List (Str × Bytes) → Str → Bytes → Result E (Unit {0}) × Disk
  attempt_write [] before path content =
      (ok tt, record { files = insert path content before; outcomes = [] })
  attempt_write (works ∷ rest) before path content =
      (ok tt, record { files = insert path content before; outcomes = rest })
  attempt_write (fails ∷ rest) before path content =
      (err i.failed, record { files = before; outcomes = rest })
  attempt_write (breaks n ∷ rest) before path content =
      (err i.failed, record { files = insert path (take n content) before; outcomes = rest })

  -- `fs::write`: it fails to open the file, or has truncated it and breaks
  unfoldable pub write : Str → Bytes → Exec E Disk (Unit {0})
  write path content d = attempt_write d.outcomes d.files path content

  -- `fs::create_dir_all`
  unfoldable pub create_dir_all : Str → Exec E Disk (Unit {0})
  create_dir_all path d = attempt d.outcomes d.files d.files (ok tt)

  -- `fs::read`
  unfoldable pub read : Str → Exec E Disk Bytes
  read path d = attempt d.outcomes d.files d.files (ok_or i.failed (lookup path d.files))

  -- `fs::read_to_string`
  unfoldable pub read_to_string : Str → Exec E Disk Str
  unfolding read
  read_to_string path = do bytes ← read path; lift (ok_or i.failed (from_utf8 bytes))

  abbrev pub attempt_stat : List Outcome → List (Str × Bytes) → Bool → Result E Bool × Disk
  attempt_stat [] files found = (ok found, record { files = files; outcomes = [] })
  attempt_stat (works ∷ rest) files found = (ok found, record { files = files; outcomes = rest })
  attempt_stat (fails ∷ rest) files found = (ok false, record { files = files; outcomes = rest })
  attempt_stat (breaks n ∷ rest) files found = (ok false, record { files = files; outcomes = rest })

  -- `Path::exists`, for files: `false` also where the call of `stat` fails
  unfoldable pub exists : Str → Exec E Disk Bool
  exists path d = attempt_stat d.outcomes d.files (is_file (lookup path d.files))

  abbrev pub removed : Option Bytes → Result E (Unit {0})
  removed none = err i.failed
  removed (some content) = ok tt

  -- `fs::remove_file`
  unfoldable pub remove_file : Str → Exec E Disk (Unit {0})
  remove_file path d =
      attempt d.outcomes d.files (remove path d.files) (removed (lookup path d.files))

  -- `File::create`, which truncates a file that exists
  unfoldable pub create : Str → Exec E Disk (Unit {0})
  create path d = attempt d.outcomes d.files (insert path [] d.files) (ok tt)

  -- `write_all` on the file that has just been created: where it breaks, an initial part is written
  unfoldable pub write_all : Str → Bytes → Exec E Disk (Unit {0})
  write_all path content d = attempt_write d.outcomes d.files path content

  -- `sync_all`
  unfoldable pub sync_all : Str → Exec E Disk (Unit {0})
  sync_all path d = attempt d.outcomes d.files d.files (ok tt)

  -- `OpenOptions::new().create(true).truncate(false).write(true).open`
  unfoldable pub open_or_create : Str → Exec E Disk (Unit {0})
  open_or_create path d =
      attempt d.outcomes d.files
        (if is_file (lookup path d.files) then d.files else insert path [] d.files) (ok tt)

  -- `lock_exclusive` of fs2: the lock is free, since no two calls run at one time
  unfoldable pub lock_exclusive : Str → Exec E Disk (Unit {0})
  lock_exclusive path d = attempt d.outcomes d.files d.files (ok tt)
