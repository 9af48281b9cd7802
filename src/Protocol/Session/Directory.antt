-- ===== src/Protocol/Session/Directory.antt =====
-- bin/client/src/upload.rs: the files that an upload command reads from a directory.
use verifiable_storage.Prelude.{
  ◌≡◌, ◌≢◌, subst, ◌⊎◌, sym, inl, inr, some, List, [], ◌∷◌, All, Bool-cases,
}
use verifiable_storage.Prelude.Result.{ok, ok_or, map_err, >>=-eq-ok, map_err-ok, ok_inj}
use verifiable_storage.Prelude.Text.{Bytes, Str}
use verifiable_storage.Prelude.Sort.{sort-All}
use verifiable_storage.Common.Filename.{validate_filename}
use verifiable_storage.Storage.Filesystem.Batch.{Batch, by_name}
use verifiable_storage.Storage.Directory.{IsStrict}
use verifiable_storage.Storage.Strict.{Other, Differ, sort-IsStrict}
use verifiable_storage.Client.{invalid_filename, io_failed}
use verifiable_storage.Client.Files.{DirEntry, read_entries, read_files_from_directory}

-- No two entries have one name.
abbrev pub IsDistinct : List DirEntry → Type 0
IsDistinct [] = Unit
IsDistinct (e ∷ entries) =
    All (λ (o : DirEntry). e.filename ≢ o.filename) entries × IsDistinct entries

-- The first entry is passed over or gives a file with a valid name.
read_entries-cases :
    (e : DirEntry) (entries : List DirEntry) (v : Batch)
    → read_entries (e ∷ entries) ≡ ok v
    → (read_entries entries ≡ ok v)
      ⊎ ((content : Bytes) × (w : Batch) × (read_entries entries ≡ ok w)
          × (v ≡ (e.filename, content) ∷ w)
          × (validate_filename e.filename ≡ ok tt))
unfolding read_entries
read_entries-cases e entries v h = elim (Bool-cases e.is_file) [
  | inr skipped ↦ inl (rw skipped at h)
  | inl taken ↦
      let (_, valid, h₁) =
        >>=-eq-ok (map_err invalid_filename (validate_filename e.filename)) _ (rw taken at h) in
      let (content, _, h₂) = >>=-eq-ok (ok_or io_failed e.content) _ h₁ in
      let (w, more, h₃) = >>=-eq-ok (read_entries entries) _ h₂ in
      inr (content, w, more, sym (ok_inj h₃), map_err-ok invalid_filename _ valid)
]

read_entries-nil : (v : Batch) → read_entries [] ≡ ok v → [] ≡ v
unfolding read_entries
read_entries-nil v h = ok_inj h

module _ (P : Str × Bytes → Type 0) where
  read_entries-All :
      (entries : List DirEntry) (v : Batch)
      → read_entries entries ≡ ok v
      → All
          (λ (o : DirEntry).
            (content : Bytes) → validate_filename o.filename ≡ ok tt → P (o.filename, content))
          entries
      → All P v
  read_entries-All [] v h all = subst (All P) (read_entries-nil v h) tt
  read_entries-All (e ∷ entries) v h all = elim (read_entries-cases e entries v h) [
    | inl rest ↦ read_entries-All entries v rest all.1
    | inr (content, w, more, made, valid) ↦
        subst (All P) (sym made) (all.0 content valid, read_entries-All entries w more all.1)
  ]

All-map :
    {P Q : DirEntry → Type 0} (entries : List DirEntry)
    → ((e : DirEntry) → P e → Q e)
    → All P entries
    → All Q entries
All-map [] f all = tt
All-map (e ∷ entries) f all = (f e all.0, All-map entries f all.1)

All-any : {P : DirEntry → Type 0} (entries : List DirEntry) → ((e : DirEntry) → P e) → All P entries
All-any [] f = tt
All-any (e ∷ entries) f = (f e, All-any entries f)

-- Entries with different names give files with different names.
read_entries-Differ :
    (entries : List DirEntry) (v : Batch)
    → read_entries entries ≡ ok v
    → IsDistinct entries
    → Differ v
read_entries-Differ [] v h d = subst Differ (read_entries-nil v h) tt
read_entries-Differ (e ∷ entries) v h d = elim (read_entries-cases e entries v h) [
  | inl rest ↦ read_entries-Differ entries v rest d.1
  | inr (content, w, more, made, valid) ↦ subst Differ (sym made) (
    read_entries-All (Other e.filename) entries w more (All-map entries (λ o other _ _. other) d.0),
    read_entries-Differ entries w more d.1,
  )
]

-- A directory whose entries have different names gives files with valid names, in order and no name
-- twice.
pub read_files_from_directory-IsStrict :
    (entries : List DirEntry) (v : Batch)
    → read_files_from_directory (some entries) ≡ ok v
    → IsDistinct entries
    → IsStrict v × All (λ (p : Str × Bytes). validate_filename p.0 ≡ ok tt) v
unfolding read_files_from_directory
read_files_from_directory-IsStrict entries v h d =
    let (w, read, made) = >>=-eq-ok (read_entries entries) _ h in
    let valid =
      read_entries-All (λ p. validate_filename p.0 ≡ ok tt) entries w read
        (All-any entries (λ e content given. given)) in
    (
      subst IsStrict (ok_inj made) (sort-IsStrict w (read_entries-Differ entries w read d)),
      subst (All (λ (p : Str × Bytes). validate_filename p.0 ≡ ok tt)) (ok_inj made)
          (sort-All by_name (λ p. validate_filename p.0 ≡ ok tt) w valid),
    )
