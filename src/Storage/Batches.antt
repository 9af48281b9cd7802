-- ===== src/Storage/Batches.antt =====
-- The tables of the database against the batches that clients have in mind.
use verifiable_storage.Prelude.{
  ◌≡◌, refl, ap, ◌∙◌, sym, inl, inr, true, List, [], ◌∷◌, ◌++◌, arith, All, if◌then◌else◌,
  Bool-cases, ==_iff,
}
use verifiable_storage.Prelude.Text.{Bytes, Str}
use verifiable_storage.Prelude.Sort.{str_leb, insert_sorted, sort, sort_of_IsAscending}
use verifiable_storage.Prelude.Order.{has_name, has_name-sort, str_leb_total, sort-IsAscending}
use verifiable_storage.Prelude.Dict.{
  str_eq, pair_eq, pair_beq, pair_beq_iff, lookup, insert, lookup-insert,
}
use verifiable_storage.Prelude.Result.{ok, ok_or}
use verifiable_storage.Prelude.Exec.{Exec, ◌>>◌, pure}
use verifiable_storage.Crates.{Crates}
use verifiable_storage.Storage.{StorageError, file_not_found}
use verifiable_storage.Storage.Database
use verifiable_storage.Storage.Tables
use verifiable_storage.Storage.Database.{store_file_and_update_tree}
use verifiable_storage.Storage.Trees.{calm}
use verifiable_storage.Storage.Store.{IsAllowed, store_file_and_update_tree_lem}
use verifiable_storage.Storage.Tables.{Db, Tables, BatchKey, FileKey, names_of, is_some, query}
use verifiable_storage.Storage.Filesystem.Batch.{
  Batch, names, put, put_all, put_name, lookup-put, names-put,
}

pub str_leb_trans : (a b c : Str) → str_leb a b ≡ true → str_leb b c ≡ true → str_leb a c ≡ true
unfolding str_leb
str_leb_trans [] b c h k = refl
str_leb_trans (x ∷ a) [] c h k = absurd (cc)
str_leb_trans (x ∷ a) (y ∷ b) [] h k = absurd (cc)
str_leb_trans (x ∷ a) (y ∷ b) (z ∷ c) h k = ground (arith, str_leb_trans a b c)

pub str_leb_antisym : (a b : Str) → str_leb a b ≡ true → str_leb b a ≡ true → a ≡ b
unfolding str_leb
str_leb_antisym [] [] h k = refl
str_leb_antisym [] (y ∷ b) h k = absurd (cc)
str_leb_antisym (x ∷ a) [] h k = absurd (cc)
str_leb_antisym (x ∷ a) (y ∷ b) h k = ground (arith, str_leb_antisym a b)

-- Two strings are inserted in either order.
insert_sorted_comm :
    (x y : Str) (l : List Str)
    → insert_sorted str_leb x (insert_sorted str_leb y l)
      ≡ insert_sorted str_leb y (insert_sorted str_leb x l)
unfolding insert_sorted
insert_sorted_comm x y [] =
    ground (arith, str_leb_total x y, str_leb_total y x, str_leb_antisym x y)
insert_sorted_comm x y (z ∷ l) = ground (
  arith,
  insert_sorted_comm x y l,
  str_leb_total x y,
  str_leb_total y x,
  str_leb_total x z,
  str_leb_total y z,
  str_leb_antisym x y,
  str_leb_trans x y z,
  str_leb_trans y x z,
)

sort-append :
    (xs : List Str) (f : Str)
    → sort str_leb (xs ++ (f ∷ [])) ≡ insert_sorted str_leb f (sort str_leb xs)
unfolding sort
sort-append [] f = refl
sort-append (x ∷ xs) f =
    ap (insert_sorted str_leb x) (sort-append xs f) ∙ insert_sorted_comm x f (sort str_leb xs)

-- The names of the rows are taken up as the batch does.
put_name-sort :
    (f : Str) (xs : List Str)
    → put_name f (sort str_leb xs) ≡ sort str_leb (if has_name xs f then xs else xs ++ (f ∷ []))
put_name-sort f xs = rw (has_name-sort str_leb xs f) (elim (Bool-cases (has_name xs f)) [
  | inl e ↦ rw e refl
  | inr e ↦ rw e (
      sort-append (sort str_leb xs) f
      ∙ ap (insert_sorted str_leb f) (
          sort_of_IsAscending str_leb (sort str_leb xs) (sort-IsAscending str_leb str_leb_total xs))
      ∙ sym (sort-append xs f))
])

module _ (b : BatchKey) where
  names_of-insert :
      (f : Str) (x : Bytes) (files : List (FileKey × Bytes))
      → names_of b (insert (b, f) x files)
        ≡ (if has_name (names_of b files) f then names_of b files else names_of b files ++ (f ∷ []))
  unfolding names_of insert has_name
  names_of-insert f x [] =
      let same : pair_beq b b ≡ true = (pair_beq_iff b b).1 refl in ground arith
  names_of-insert f x (((c, g), y) ∷ files) =
      let same : pair_beq b b ≡ true = (pair_beq_iff b b).1 refl in
      ground (arith, names_of-insert f x files, ==_iff g f)

-- The tables hold the batch: its files have the contents, in the order of their names.
module _ (client_id batch_id : Str) where
  pub record HoldsBatch (t : Tables) (v : Batch) : Type 0 where
    pub contents : (name : Str) → lookup ((client_id, batch_id), name) t.files ≡ lookup name v
    pub names_eq : sort str_leb (names_of (client_id, batch_id) t.files) ≡ names v

  pub HoldsBatch-put :
      (t t' : Tables) (v : Batch) (f : Str) (x : Bytes)
      → t'.files ≡ insert ((client_id, batch_id), f) x t.files
      → HoldsBatch t v
      → HoldsBatch t' (put f x v)
  HoldsBatch-put t t' v f x e h = record {
    contents = λ name.
        rw (e, lookup-insert, lookup-put name f x v, h.contents name)
          (ground (arith, pair_beq_iff (client_id, batch_id) (client_id, batch_id)));
    names_eq =
        rw (e, names_of-insert (client_id, batch_id) f x t.files, names-put f x v)
          (sym (put_name-sort f (names_of (client_id, batch_id) t.files))
            ∙ ap (put_name f) h.names_eq);
  }

  -- What the storage answers there.
  pub record IsAnswered (t : Tables) (v : Batch) : Type 0 where
    pub read_eq :
        (name : Str)
        → Database.read_file client_id batch_id name (calm t)
          ≡ (ok_or file_not_found (lookup name v), calm t)
    pub exists_eq :
        (name : Str)
        → Tables.file_exists client_id batch_id name (calm t)
          ≡ (ok (is_some (lookup name v)), calm t)
    pub names_eq :
        is_some (lookup (client_id, batch_id) t.batches) ≡ true
        → Database.load_batch_filenames str_leb client_id batch_id (calm t) ≡ (ok (names v), calm t)

  HoldsBatch-IsAnswered : (t : Tables) (v : Batch) → HoldsBatch t v → IsAnswered t v
  unfolding Database.read_file Tables.read_file Tables.file_exists Database.load_batch_filenames
      Tables.load_batch_filenames Tables.batch_exists query
  HoldsBatch-IsAnswered t v h = record {
    read_eq = λ name. rw (h.contents name) refl;
    exists_eq = λ name. rw (h.contents name) refl;
    names_eq = λ there. rw (there, h.names_eq) refl;
  }

  module _ ⦃K : Crates⦄ where
    abbrev pub store_all : List (Str × Bytes) → Exec StorageError Db (Unit {0})
    store_all [] = pure tt
    store_all ((f, x) ∷ uploads) =
        store_file_and_update_tree str_leb client_id batch_id f x >> store_all uploads

    IsAllowed-clients :
        (t t' : Tables) (f : Str)
        → t'.clients ≡ t.clients
        → IsAllowed t client_id batch_id f
        → IsAllowed t' client_id batch_id f
    IsAllowed-clients t t' f e a = record {
      registered = rw e a.registered;
      client_fits = a.client_fits;
      batch_fits = a.batch_fits;
      name_fits = a.name_fits;
    }

    pub All-IsAllowed :
        (t t' : Tables) (uploads : List (Str × Bytes))
        → t'.clients ≡ t.clients
        → All (λ (u : Str × Bytes). IsAllowed t client_id batch_id u.0) uploads
        → All (λ (u : Str × Bytes). IsAllowed t' client_id batch_id u.0) uploads
    All-IsAllowed t t' [] e a = tt
    All-IsAllowed t t' ((f, x) ∷ uploads) e a =
        (IsAllowed-clients t t' f e a.0, All-IsAllowed t t' uploads e a.1)

    -- Whatever files a registered client stores one after another in a batch that the tables hold, with
    -- names that fit, and while no request fails: all are stored, and the tables hold the batch with
    -- these files put into it in turn and answer reading operations as it says. The names are ordered as
    -- the server orders them.
    pub store_all-HoldsBatch :
        (uploads : List (Str × Bytes)) (t : Tables) (v : Batch)
        → HoldsBatch t v
        → All (λ (u : Str × Bytes). IsAllowed t client_id batch_id u.0) uploads
        → (t' : Tables) × (store_all uploads (calm t) ≡ (ok tt, calm t'))
          × HoldsBatch t' (put_all uploads v)
          × IsAnswered t' (put_all uploads v)
    store_all-HoldsBatch [] t v h a = (t, refl, h, HoldsBatch-IsAnswered t v h)
    store_all-HoldsBatch ((f, x) ∷ uploads) t v h a =
        let (t₁, e, s) = store_file_and_update_tree_lem str_leb t client_id batch_id f x a.0 in
        let (t₂, e₂, h₂, answered) =
          store_all-HoldsBatch uploads t₁ (put f x v) (HoldsBatch-put t t₁ v f x s.files_eq h)
            (All-IsAllowed t t₁ uploads s.clients a.1) in
        (t₂, rw e e₂, h₂, answered)
