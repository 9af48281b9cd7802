-- ===== src/Disk/Laws.antt =====
-- What operations on files that succeed have done.
use verifiable_storage.Prelude.{◌≡◌, ◌∙◌, refl, All, ap, sym, Bool, true, some, List, [], ◌∷◌}
use verifiable_storage.Prelude.Result.{Result, ok, ok_or, ok_or-ok}
use verifiable_storage.Prelude.Text.{Bytes, Str, as_bytes}
use verifiable_storage.Prelude.Utf8.{IsScalar, from_utf8, from_utf8-as_bytes}
use verifiable_storage.Prelude.Dict.{str_eq, lookup, insert, remove}
use verifiable_storage.Prelude.Exec.{>>=-ok}
use verifiable_storage.Disk.{
  IoError, Outcome, works, fails, breaks, Disk, attempt, attempt_write, attempt_stat, is_file,
  removed, write, write_all, exists, create_dir_all, read, read_to_string, remove_file,
}

-- A disk on which nothing fails.
abbrev pub sound : List (Str × Bytes) → Disk
sound files = record { files = files; outcomes = [] }

module _ {E : Type 0} ⦃i : IoError E⦄ where
  pub attempt-ok :
      {A : Type 0} (outcomes : List Outcome) (before after : List (Str × Bytes)) (r : Result E A)
      (a : A) (d : Disk)
      → attempt outcomes before after r ≡ (ok a, d)
      → (r ≡ ok a) × (d.files ≡ after)
  attempt-ok {A} [] before after r a d h =
      (ap (λ (o : Result E A × Disk). o.0) h, ap (λ (o : Result E A × Disk). o.1.files) (sym h))
  attempt-ok {A} (fails ∷ rest) before after r a d h = absurd (cc)
  attempt-ok {A} (breaks n ∷ rest) before after r a d h = absurd (cc)
  attempt-ok {A} (works ∷ rest) before after r a d h =
      (ap (λ (o : Result E A × Disk). o.0) h, ap (λ (o : Result E A × Disk). o.1.files) (sym h))

  attempt_write-ok :
      (outcomes : List Outcome) (before : List (Str × Bytes)) (path : Str) (content : Bytes)
      (d : Disk)
      → attempt_write {E = E} outcomes before path content ≡ (ok tt, d)
      → d.files ≡ insert path content before
  attempt_write-ok [] before path content d h =
      ap (λ (o : Result E (Unit {0}) × Disk). o.1.files) (sym h)
  attempt_write-ok (works ∷ rest) before path content d h =
      ap (λ (o : Result E (Unit {0}) × Disk). o.1.files) (sym h)
  attempt_write-ok (fails ∷ rest) before path content d h = absurd (cc)
  attempt_write-ok (breaks n ∷ rest) before path content d h = absurd (cc)

  -- What a call of `exists` may answer; no file is touched.
  attempt_stat-ok :
      (outcomes : List Outcome) (files : List (Str × Bytes)) (there found : Bool) (d : Disk)
      → attempt_stat {E = E} outcomes files there ≡ (ok found, d)
      → (found ≡ true → there ≡ true) × (d.files ≡ files)
  attempt_stat-ok [] files there found d h =
      ((λ e. cc), ap (λ (o : Result E Bool × Disk). o.1.files) (sym h))
  attempt_stat-ok (works ∷ rest) files there found d h =
      ((λ e. cc), ap (λ (o : Result E Bool × Disk). o.1.files) (sym h))
  attempt_stat-ok (fails ∷ rest) files there found d h =
      ((λ e. absurd (cc)), ap (λ (o : Result E Bool × Disk). o.1.files) (sym h))
  attempt_stat-ok (breaks n ∷ rest) files there found d h =
      ((λ e. absurd (cc)), ap (λ (o : Result E Bool × Disk). o.1.files) (sym h))

  pub exists-ok :
      (path : Str) (found : Bool) (d d' : Disk)
      → exists {E = E} path d ≡ (ok found, d')
      → (found ≡ true → is_file (lookup path d.files) ≡ true) × (d'.files ≡ d.files)
  unfolding exists
  exists-ok path found d d' h =
      attempt_stat-ok d.outcomes d.files (is_file (lookup path d.files)) found d' h

  pub create_dir_all-ok :
      (path : Str) (d d' : Disk) → create_dir_all {E = E} path d ≡ (ok tt, d') → d'.files ≡ d.files
  unfolding create_dir_all
  create_dir_all-ok path d d' h = (attempt-ok d.outcomes d.files d.files (ok tt) tt d' h).1

  pub write-ok :
      (path : Str) (content : Bytes) (d d' : Disk)
      → write {E = E} path content d ≡ (ok tt, d')
      → d'.files ≡ insert path content d.files
  unfolding write
  write-ok path content d d' h = attempt_write-ok d.outcomes d.files path content d' h

  pub write_all-ok :
      (path : Str) (content : Bytes) (d d' : Disk)
      → write_all {E = E} path content d ≡ (ok tt, d')
      → d'.files ≡ insert path content d.files
  unfolding write_all
  write_all-ok path content d d' h = attempt_write-ok d.outcomes d.files path content d' h

  pub read-ok :
      (path : Str) (content : Bytes) (d d' : Disk)
      → read {E = E} path d ≡ (ok content, d')
      → (lookup path d.files ≡ some content) × (d'.files ≡ d.files)
  unfolding read
  read-ok path content d d' h =
      let (found, same) =
        attempt-ok d.outcomes d.files d.files (ok_or i.failed (lookup path d.files)) content d' h in
      (ok_or-ok i.failed (lookup path d.files) content found, same)

  pub remove_file-ok :
      (path : Str) (d d' : Disk)
      → remove_file {E = E} path d ≡ (ok tt, d')
      → d'.files ≡ remove path d.files
  unfolding remove_file
  remove_file-ok path d d' h =
      (attempt-ok d.outcomes d.files (remove path d.files) (removed (lookup path d.files)) tt d'
        h).1

  pub read_to_string-sound :
      (path text : Str) (files : List (Str × Bytes))
      → lookup path files ≡ some (as_bytes text)
      → All IsScalar text
      → read_to_string {E = E} path (sound files) ≡ (ok text, sound files)
  unfolding read_to_string read
  read_to_string-sound path text files h scalar = rw (h, from_utf8-as_bytes text scalar) refl

  -- A text that has been read is that of the file.
  pub read_to_string-ok :
      (path text : Str) (d d' : Disk)
      → read_to_string {E = E} path d ≡ (ok text, d')
      → (content : Bytes) × (lookup path d.files ≡ some content)
        × (from_utf8 content ≡ some text)
        × (d'.files ≡ d.files)
  unfolding read_to_string
  read_to_string-ok path text d d' h = >>=-ok (read path) _ {s = d} h λ content t got rest.
      let (found, same) = read-ok path content d t got in
      (
        content,
        found,
        ok_or-ok i.failed (from_utf8 content) text (ap (λ (o : Result E Str × Disk). o.0) rest),
        ap (λ (o : Result E Str × Disk). o.1.files) (sym rest) ∙ same,
      )
