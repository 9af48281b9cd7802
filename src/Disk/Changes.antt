-- ===== src/Disk/Changes.antt =====
-- What operations on files may change, whatever becomes of them: a path has the file that it had, or
-- one that is allowed there.
use verifiable_storage.Prelude.{
  ◌≡◌, refl, ◌∙◌, sym, subst, ◌⊎◌, inl, inr, Option, some, List, [], ◌∷◌, ◌==◌, ==_iff, Bool,
  Bool-cases, ℕ, take,
}
use verifiable_storage.Prelude.Result.{Result, ok, err, panic, ok_or}
use verifiable_storage.Prelude.Text.{Bytes, Str}
use verifiable_storage.Prelude.Utf8.{from_utf8}
use verifiable_storage.Prelude.Dict.{str_eq, lookup, insert, lookup-insert}
use verifiable_storage.Prelude.Exec.{Exec, continue, ◌>>=◌, lift}
use verifiable_storage.Disk.{
  IoError, Outcome, works, fails, breaks, Disk, attempt, attempt_write, attempt_stat, is_file,
  create_dir_all, read, read_to_string, exists, create, write_all, sync_all, open_or_create,
  lock_exclusive,
}

-- Every path has the file that it had, or an allowed one.
abbrev pub Changes :
    (Str → Option Bytes → Type 0) → List (Str × Bytes) → List (Str × Bytes) → Type 0
Changes Allowed s t = (path : Str) → (lookup path t ≡ lookup path s) ⊎ Allowed path (lookup path t)

module _ (Allowed : Str → Option Bytes → Type 0) where
  Changes-refl : (s : List (Str × Bytes)) → Changes Allowed s s
  Changes-refl s path = inl refl

  Changes-trans :
      (s t u : List (Str × Bytes)) → Changes Allowed s t → Changes Allowed t u → Changes Allowed s u
  Changes-trans s t u h k path = elim (k path) [
    | inr allowed ↦ inr allowed
    | inl same ↦ elim (h path) [
      | inl same' ↦ inl (same ∙ same')
      | inr allowed ↦ inr (subst (Allowed path) (sym same) allowed)
    ]
  ]

  Changes-insert :
      (path : Str) (content : Bytes) (s : List (Str × Bytes))
      → Allowed path (some content)
      → Changes Allowed s (insert path content s)
  Changes-insert path content s allowed p = elim (Bool-cases (path == p)) [
    | inl e ↦ inr (
        rw (lookup-insert, e) (subst (λ q. Allowed q (some content)) ((==_iff path p).0 e) allowed))
    | inr e ↦ inl (rw (lookup-insert, e) refl)
  ]

  module _ {E : Type 0} where
    -- From any disk the code makes only such changes.
    abbrev pub OnlyChanges : {A : Type 0} → Exec E Disk A → Type 0
    OnlyChanges m = (s : Disk) → Changes Allowed s.files (m s).1.files

    pub >>=-OnlyChanges :
        {A B : Type 0} (m : Exec E Disk A) (f : A → Exec E Disk B)
        → OnlyChanges m
        → ((a : A) → OnlyChanges (f a))
        → OnlyChanges (m >>= f)
    >>=-OnlyChanges {A} {B} m f h k s = after (m s) (h s)
      where
        after :
            (o : Result E A × Disk)
            → Changes Allowed s.files o.1.files
            → Changes Allowed s.files (continue o f).1.files
        after (ok a, t) c = Changes-trans s.files t.files ((f a t).1.files) c (k a t)
        after (err e, t) c = c
        after (panic, t) c = c

    pub lift-OnlyChanges : {A : Type 0} (r : Result E A) → OnlyChanges (lift r)
    lift-OnlyChanges r s = Changes-refl s.files

  module _ (E : Type 0) ⦃i : IoError E⦄ where
    attempt-Changes :
        {A : Type 0} (outcomes : List Outcome) (before after : List (Str × Bytes)) (r : Result E A)
        → Changes Allowed before after
        → Changes Allowed before (attempt outcomes before after r).1.files
    attempt-Changes [] before after r c = c
    attempt-Changes (works ∷ rest) before after r c = c
    attempt-Changes (fails ∷ rest) before after r c = Changes-refl before
    attempt-Changes (breaks n ∷ rest) before after r c = Changes-refl before

    attempt_write-Changes :
        (outcomes : List Outcome) (before : List (Str × Bytes)) (path : Str) (content : Bytes)
        → Allowed path (some content)
        → ((n : ℕ) → Allowed path (some (take n content)))
        → Changes Allowed before (attempt_write {E = E} outcomes before path content).1.files
    attempt_write-Changes [] before path content whole part =
        Changes-insert path content before whole
    attempt_write-Changes (works ∷ rest) before path content whole part =
        Changes-insert path content before whole
    attempt_write-Changes (fails ∷ rest) before path content whole part = Changes-refl before
    attempt_write-Changes (breaks n ∷ rest) before path content whole part =
        Changes-insert path (take n content) before (part n)

    attempt_stat-Changes :
        (outcomes : List Outcome) (files : List (Str × Bytes)) (found : Bool)
        → Changes Allowed files (attempt_stat {E = E} outcomes files found).1.files
    attempt_stat-Changes [] files found = Changes-refl files
    attempt_stat-Changes (works ∷ rest) files found = Changes-refl files
    attempt_stat-Changes (fails ∷ rest) files found = Changes-refl files
    attempt_stat-Changes (breaks n ∷ rest) files found = Changes-refl files

    pub create_dir_all-OnlyChanges : (path : Str) → OnlyChanges (create_dir_all {E = E} path)
    unfolding create_dir_all
    create_dir_all-OnlyChanges path s =
        attempt-Changes s.outcomes s.files s.files (ok tt) (Changes-refl s.files)

    pub lock_exclusive-OnlyChanges : (path : Str) → OnlyChanges (lock_exclusive {E = E} path)
    unfolding lock_exclusive
    lock_exclusive-OnlyChanges path s =
        attempt-Changes s.outcomes s.files s.files (ok tt) (Changes-refl s.files)

    pub sync_all-OnlyChanges : (path : Str) → OnlyChanges (sync_all {E = E} path)
    unfolding sync_all
    sync_all-OnlyChanges path s =
        attempt-Changes s.outcomes s.files s.files (ok tt) (Changes-refl s.files)

    pub read-OnlyChanges : (path : Str) → OnlyChanges (read {E = E} path)
    unfolding read
    read-OnlyChanges path s =
        attempt-Changes s.outcomes s.files s.files (ok_or i.failed (lookup path s.files))
          (Changes-refl s.files)

    pub read_to_string-OnlyChanges : (path : Str) → OnlyChanges (read_to_string {E = E} path)
    unfolding read_to_string
    read_to_string-OnlyChanges path =
        >>=-OnlyChanges (read {E = E} path) (λ bytes. lift (ok_or i.failed (from_utf8 bytes)))
          (read-OnlyChanges path) λ bytes. lift-OnlyChanges (ok_or i.failed (from_utf8 bytes))

    pub exists-OnlyChanges : (path : Str) → OnlyChanges (exists {E = E} path)
    unfolding exists
    exists-OnlyChanges path s =
        attempt_stat-Changes s.outcomes s.files (is_file (lookup path s.files))

    pub create-OnlyChanges :
        (path : Str) → Allowed path (some []) → OnlyChanges (create {E = E} path)
    unfolding create
    create-OnlyChanges path allowed s =
        attempt-Changes s.outcomes s.files (insert path [] s.files) (ok tt)
          (Changes-insert path [] s.files allowed)

    pub open_or_create-OnlyChanges :
        (path : Str) → Allowed path (some []) → OnlyChanges (open_or_create {E = E} path)
    unfolding open_or_create
    open_or_create-OnlyChanges path allowed s = elim (Bool-cases (is_file (lookup path s.files))) [
      | inl e ↦ rw e (attempt-Changes s.outcomes s.files s.files (ok tt) (Changes-refl s.files))
      | inr e ↦ rw e (
          attempt-Changes s.outcomes s.files (insert path [] s.files) (ok tt)
            (Changes-insert path [] s.files allowed))
    ]

    pub write_all-OnlyChanges :
        (path : Str) (content : Bytes)
        → Allowed path (some content)
        → ((n : ℕ) → Allowed path (some (take n content)))
        → OnlyChanges (write_all {E = E} path content)
    unfolding write_all
    write_all-OnlyChanges path content whole part s =
        attempt_write-Changes s.outcomes s.files path content whole part
