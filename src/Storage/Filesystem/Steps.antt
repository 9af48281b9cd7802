-- ===== src/Storage/Filesystem/Steps.antt =====
-- The steps of storing a file, on files that hold a batch.
use verifiable_storage.Prelude.{
  ◌≡◌, refl, ap, ◌∙◌, sym, inl, inr, true, false, some, List, [], ◌∷◌, ◌++◌, map, arith, All, ◌<◌,
  length, length-append, if◌then◌else◌, Bool-cases, ◌==◌, ==_iff,
}
use verifiable_storage.Prelude.Result.{ok}
use verifiable_storage.Prelude.Text.{Bytes, Str, text}
use verifiable_storage.Prelude.Sort.{str_leb, sort-All, length-sort}
use verifiable_storage.Prelude.Order.{has_name}
use verifiable_storage.Prelude.Dict.{str_eq, lookup, insert, lookup-insert_self}
use verifiable_storage.Disk.{is_file, read, exists, create, write_all, sync_all}
use verifiable_storage.Crates.{Crates}
use verifiable_storage.Crypto.{hash_leaf}
use verifiable_storage.Common.FilePath.{IsPlain, join}
use verifiable_storage.Storage.Leaves.{length-LeavesOf}
use verifiable_storage.Storage.Metadata.{
  Json, Map, array, string, insert_filename, push_name, or_empty,
}
use verifiable_storage.Storage.Filesystem.{
  batch_dir, file_path, metadata_path, write_file_atomic, read_leaf_hashes, load_or_new,
}
use verifiable_storage.Storage.Filesystem.Batch.{
  Batch, names, put, put_name, names-put, push_name-string,
}
use verifiable_storage.Storage.Filesystem.Paths.{metadata_name, lock_name, IsFileName, lock-IsPlain}
use verifiable_storage.Disk.Paths.{lookup-insert-join}
use verifiable_storage.Disk.Laws.{sound}
use verifiable_storage.Storage.Filesystem.Views.{IsLeaves, Indexed, blank, indexed, load-sound}

pub ==_comm : (a b : Str) → (a == b) ≡ (b == a)
==_comm a b = ground (arith, ==_iff a b, ==_iff b a)

-- The files after the lock file has been opened.
abbrev pub locked : Str → List (Str × Bytes) → List (Str × Bytes)
locked dir files =
    if is_file (lookup (join dir lock_name) files)
    then files
    else insert (join dir lock_name) [] files

pub lookup-locked :
    (dir name : Str) (files : List (Str × Bytes))
    → IsPlain name
    → (name == lock_name) ≡ false
    → lookup (join dir name) (locked dir files) ≡ lookup (join dir name) files
lookup-locked dir name files p other =
    elim (Bool-cases (is_file (lookup (join dir lock_name) files))) [
      | inl e ↦ rw e refl
      | inr e ↦
          rw
            (
              e,
              lookup-insert-join dir lock_name name [] files lock-IsPlain p,
              ==_comm lock_name name,
              other,
            )
            refl
    ]

-- The files after a file has been created and written.
abbrev pub overwrite : Str → Bytes → List (Str × Bytes) → List (Str × Bytes)
overwrite path x files = insert path x (insert path [] files)

pub write_file_atomic-sound :
    (path : Str) (x : Bytes) (files : List (Str × Bytes))
    → write_file_atomic path x (sound files) ≡ (ok tt, sound (overwrite path x files))
unfolding write_file_atomic create write_all sync_all
write_file_atomic-sound path x files = refl

pub lookup-overwrite :
    (dir f g : Str) (x : Bytes) (files : List (Str × Bytes))
    → IsPlain f
    → IsPlain g
    → lookup (join dir g) (overwrite (join dir f) x files)
      ≡ (if f == g then some x else lookup (join dir g) files)
lookup-overwrite dir f g x files p q = elim (Bool-cases (f == g)) [
  | inl e ↦ rw (lookup-insert-join dir f g x _ p q, e) refl
  | inr e ↦
      rw (lookup-insert-join dir f g x _ p q, e, lookup-insert-join dir f g [] files p q, e) refl
]

append-All :
    {A : Type 0} (P : A → Type 0) (xs : List A) (y : A) → All P xs → P y → All P (xs ++ (y ∷ []))
append-All P [] y ps p = (p, tt)
append-All P (x ∷ xs) y ps p = (ps.0, append-All P xs y ps.1 p)

pub put_name-All :
    (P : Str → Type 0) (f : Str) (ns : List Str) → P f → All P ns → All P (put_name f ns)
put_name-All P f ns p ps = elim (Bool-cases (has_name ns f)) [
  | inl e ↦ rw e ps
  | inr e ↦ rw e (sort-All str_leb P (ns ++ (f ∷ [])) (append-All P ns f ps p))
]

has_name-pos : (ns : List Str) (f : Str) → has_name ns f ≡ true → 0 < length ns
unfolding has_name
has_name-pos [] f h = absurd (cc)
has_name-pos (n ∷ ns) f h = omega arith

pub put_name-pos : (f : Str) (ns : List Str) → 0 < length (put_name f ns)
put_name-pos f ns = elim (Bool-cases (has_name ns f)) [
  | inl e ↦ rw e (has_name-pos ns f e)
  | inr e ↦ rw e (omega (arith, length-sort str_leb (ns ++ (f ∷ [])), length-append ns (f ∷ [])))
]

-- Each name of a batch has a content.
found :
    (v w : Batch)
    → ((n : Str) (x : Bytes) → lookup n v ≡ some x → (y : Bytes) × (lookup n w ≡ some y))
    → All (λ n. (x : Bytes) × (lookup n w ≡ some x)) (names v)
unfolding lookup
found [] w h = tt
found ((n, x) ∷ v) w h = (
  h n x (rw ((==_iff n n).1 refl) refl),
  found v w λ m y e. elim (Bool-cases (n == m)) [
    | inl same ↦ h m x (rw same refl)
    | inr other ↦ h m y (rw other e)
  ],
)

pub names-found : (v : Batch) → All (λ n. (x : Bytes) × (lookup n v ≡ some x)) (names v)
names-found v = found v v λ n x e. (x, e)

module _ ⦃K : Crates⦄ where
  pub length-IsLeaves :
      (v : Batch) (ns : List Str) (hs : List Bytes) → IsLeaves v ns hs → length hs ≡ length ns
  length-IsLeaves v ns hs l = length-LeavesOf (λ n. lookup n v) ns hs l

  module _ ⦃J : Json⦄ (data_dir client_id batch_id : Str) where
    -- The leaves are the hashes of the contents that the files hold.
    pub read_leaf_hashes-sound :
        (files : List (Str × Bytes)) (w : Batch) (ns : List Str)
        → ((n : Str)
            → IsFileName n
            → lookup (join (batch_dir data_dir client_id batch_id) n) files ≡ lookup n w)
        → All IsFileName ns
        → All (λ n. (x : Bytes) × (lookup n w ≡ some x)) ns
        → (hs : List Bytes) × (read_leaf_hashes data_dir client_id batch_id ns (sound files)
            ≡ (ok hs, sound files))
          × IsLeaves w ns hs
    unfolding read_leaf_hashes file_path read
    read_leaf_hashes-sound files w [] same valid stored = ([], refl, tt)
    read_leaf_hashes-sound files w (n ∷ ns) same valid stored =
        let (hs, e, leaves) = read_leaf_hashes-sound files w ns same valid.1 stored.1 in
        let (x, is) = stored.0 in
        (hash_leaf x ∷ hs, rw (same n valid.0, is, e) refl, ((x, is, refl), leaves))

    -- The metadata that are read, or the new ones, list the names of the batch.
    pub load_or_new-sound :
        (files files' : List (Str × Bytes)) (v : Batch)
        → lookup (join (batch_dir data_dir client_id batch_id) metadata_name) files'
          ≡ lookup (join (batch_dir data_dir client_id batch_id) metadata_name) files
        → Indexed (batch_dir data_dir client_id batch_id) files v
        → (m : Map) × (load_or_new data_dir
              (metadata_path data_dir client_id batch_id)
              (sound files')
            ≡ (ok m, sound files'))
          × (or_empty (lookup (text "filenames") m) ≡ array (map string (names v)))
    unfolding load_or_new exists or_empty metadata_path
    load_or_new-sound files files' v same (blank empty meta_none tree_none) =
        ([], rw (same, meta_none) refl, rw empty (unfold lookup in refl))
    load_or_new-sound files files' v same (indexed l r) = (
      l.metadata,
      rw (same, l.stored)
          (load-sound _ l.json l.metadata files' (same ∙ l.stored) l.scalar l.parsed),
      rw l.entry refl,
    )

-- The metadata with the new filename list the names of the batch with the new file.
pub insert_filename-names :
    (m : Map) (f : Str) (x : Bytes) (v : Batch)
    → or_empty (lookup (text "filenames") m) ≡ array (map string (names v))
    → lookup (text "filenames") (insert_filename m f)
      ≡ some (array (map string (names (put f x v))))
unfolding insert_filename
insert_filename-names m f x v e =
    rw e (lookup-insert_self (text "filenames") (push_name f (array (map string (names v)))) m)
    ∙ ap some
        (push_name-string f (names v) ∙ ap (λ ns. array (map string ns)) (sym (names-put f x v)))
