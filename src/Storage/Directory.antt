-- ===== src/Storage/Directory.antt =====
-- The files of a directory stored in a new batch: the tree of the database is the one of the client.
use mathlib.Core.Option.{some-injective}
use mathlib.Core.List.{append_assoc, append-nil}
use verifiable_storage.Prelude.{
  ◌≡◌, refl, ap, ◌∙◌, sym, subst, false, Option, some, List, [], ◌∷◌, ◌++◌, map, arith, All, ==_iff,
}
use verifiable_storage.Prelude.Result.{ok}
use verifiable_storage.Prelude.Text.{Bytes, Str}
use verifiable_storage.Prelude.Sort.{str_leb, IsAscending, sort_of_IsAscending}
use verifiable_storage.Prelude.Order.{has_name, str_leb_total}
use verifiable_storage.Prelude.Dict.{str_eq, pair_eq, lookup}
use verifiable_storage.Crates.{Crates}
use verifiable_storage.Crypto.Laws.{hash_leaf-eq-hash_data}
use verifiable_storage.Merkle.{from_data, from_leaf_hashes, hash_data}
use verifiable_storage.Merkle.Tower.{from_data-eq}
use verifiable_storage.Storage.Tables.{Tables, FileKey}
use verifiable_storage.Storage.Trees.{calm, IsTreeFor, LeafHashes}
use verifiable_storage.Storage.Leaves.{LeavesOf}
use verifiable_storage.Storage.Store.{IsAllowed, store_file_and_update_tree_lem}
use verifiable_storage.Storage.Filesystem.Batch.{Batch, names, put, put_all, by_name, str_leb_refl}
use verifiable_storage.Storage.Batches.{HoldsBatch, HoldsBatch-put, store_all, All-IsAllowed}

-- In order, and no name twice.
abbrev pub IsStrict : Batch → Type 0
IsStrict [] = Unit
IsStrict (p ∷ v) = All (λ (q : Str × Bytes). str_leb q.0 p.0 ≡ false) v × IsStrict v

All-last :
    (P : Str × Bytes → Type 0) (v : Batch) (p : Str × Bytes) (rest : Batch)
    → All P (v ++ (p ∷ rest))
    → P p
All-last P [] p rest h = h.0
All-last P (q ∷ v) p rest h = All-last P v p rest h.1

name_is_new :
    (v : Batch) (p : Str × Bytes) (rest : Batch)
    → IsStrict (v ++ (p ∷ rest))
    → has_name (names v) p.0 ≡ false
unfolding has_name
name_is_new [] p rest h = refl
name_is_new (q ∷ v) p rest h =
    let above = All-last (λ r. str_leb r.0 q.0 ≡ false) v p rest h.0 in
    ground (arith, name_is_new v p rest h.1, above, ==_iff q.0 p.0, str_leb_refl q.0)

append-IsAscending :
    (v : Batch) (p : Str × Bytes) (rest : Batch)
    → IsStrict (v ++ (p ∷ rest))
    → IsAscending by_name (v ++ (p ∷ []))
append-IsAscending [] p rest h = tt
append-IsAscending (q ∷ []) p rest h = (str_leb_total p.0 q.0 h.0.0, tt)
append-IsAscending (q ∷ r ∷ v) p rest h =
    (str_leb_total r.0 q.0 h.0.0, append-IsAscending (r ∷ v) p rest h.1)

-- Files in order that are put into an empty batch are the batch.
pub put_all-append : (rest v : Batch) → IsStrict (v ++ rest) → put_all rest v ≡ v ++ rest
unfolding put
put_all-append [] v h = sym (append-nil v)
put_all-append ((f, x) ∷ rest) v h =
    let assoc = append_assoc v ((f, x) ∷ []) rest in
    rw
      (
        name_is_new v (f, x) rest h,
        sort_of_IsAscending by_name (v ++ ((f, x) ∷ [])) (append-IsAscending v (f, x) rest h),
      )
      (put_all-append rest (v ++ ((f, x) ∷ [])) (subst IsStrict (sym assoc) h) ∙ assoc)

lookup-other :
    (p : Str × Bytes) (v w : Batch)
    → All (λ (q : Str × Bytes). str_leb q.0 p.0 ≡ false) v
    → All (λ (q : Str × Bytes). lookup q.0 w ≡ some q.1) v
    → All (λ (q : Str × Bytes). lookup q.0 (p ∷ w) ≡ some q.1) v
unfolding lookup
lookup-other p [] w h k = tt
lookup-other p (q ∷ v) w h k =
    (ground (arith, h.0, k.0, ==_iff p.0 q.0, str_leb_refl p.0), lookup-other p v w h.1 k.1)

-- Each file is found under its name.
pub IsStrict-lookup :
    (v : Batch) → IsStrict v → All (λ (q : Str × Bytes). lookup q.0 v ≡ some q.1) v
unfolding lookup
IsStrict-lookup [] h = tt
IsStrict-lookup (p ∷ v) h =
    (rw ((==_iff p.0 p.0).1 refl) refl, lookup-other p v v h.0 (IsStrict-lookup v h.1))

module _ ⦃K : Crates⦄ (content_of : Str → Option Bytes) where
  pub hashes-eq :
      (w : Batch) (hashes : List Bytes)
      → All (λ (q : Str × Bytes). content_of q.0 ≡ some q.1) w
      → LeavesOf content_of (names w) hashes
      → hashes ≡ map hash_data (map (λ (q : Str × Bytes). q.1) w)
  hashes-eq [] [] found l = refl
  hashes-eq [] (h ∷ hashes) found l = absurd l
  hashes-eq (q ∷ w) [] found l = absurd l
  hashes-eq (q ∷ w) (h ∷ hashes) found l =
      let (content, there, hash) = l.0 in
      let same : content ≡ q.1 = some-injective _ _ (sym there ∙ found.0) in
      rw (hash, same, hash_leaf-eq-hash_data q.1)
        (ap (◌∷◌ (hash_data q.1)) (hashes-eq w hashes found.1 l.1))

module _ ⦃K : Crates⦄ (client_id batch_id : Str) where
  All-found :
      (files : List (FileKey × Bytes)) (v w : Batch)
      → ((name : Str) → lookup ((client_id, batch_id), name) files ≡ lookup name v)
      → All (λ (q : Str × Bytes). lookup q.0 v ≡ some q.1) w
      → All (λ (q : Str × Bytes). lookup ((client_id, batch_id), q.0) files ≡ some q.1) w
  All-found files v [] same h = tt
  All-found files v (q ∷ w) same h = (same q.0 ∙ h.0, All-found files v w same h.1)

  -- Where the tables hold a batch in order and its tree, the tree is the one that `from_data` builds of
  -- the contents.
  pub from_data-of_IsTreeFor :
      (t : Tables) (v : Batch) (tree : IsTreeFor str_leb t (client_id, batch_id))
      → IsStrict v
      → HoldsBatch client_id batch_id t v
      → from_data (map (λ (q : Str × Bytes). q.1) v) ≡ ok tree.tree
  from_data-of_IsTreeFor t v tree strict holds =
      let leaves =
        hashes-eq (λ n. lookup ((client_id, batch_id), n) t.files) v tree.hashes
          (All-found t.files v v holds.contents (IsStrict-lookup v strict))
          (subst (λ ns. LeafHashes t.files (client_id, batch_id) ns tree.hashes) holds.names_eq
            tree.exact) in
      from_data-eq (map (λ (q : Str × Bytes). q.1) v) ∙ ap from_leaf_hashes (sym leaves) ∙ tree.made

  -- Files stored in a batch with a tree leave it with a tree.
  store_all-IsTreeFor :
      (uploads : List (Str × Bytes)) (t : Tables) (v : Batch)
      → HoldsBatch client_id batch_id t v
      → IsTreeFor str_leb t (client_id, batch_id)
      → All (λ (u : Str × Bytes). IsAllowed t client_id batch_id u.0) uploads
      → (t' : Tables) × (store_all client_id batch_id uploads (calm t) ≡ (ok tt, calm t'))
        × HoldsBatch client_id batch_id t' (put_all uploads v)
        × IsTreeFor str_leb t' (client_id, batch_id)
  store_all-IsTreeFor [] t v h tree a = (t, refl, h, tree)
  store_all-IsTreeFor ((f, x) ∷ uploads) t v h tree a =
      let (t₁, e, s) = store_file_and_update_tree_lem str_leb t client_id batch_id f x a.0 in
      let (t₂, e₂, h₂, tree₂) =
        store_all-IsTreeFor uploads t₁ (put f x v)
          (HoldsBatch-put client_id batch_id t t₁ v f x s.files_eq h) s.tree
          (All-IsAllowed client_id batch_id t t₁ uploads s.clients a.1) in
      (t₂, rw e e₂, h₂, tree₂)

  -- Files stored in a new batch, at least one, leave it with its files and a tree.
  pub store_all-new :
      (f : Str) (x : Bytes) (uploads : List (Str × Bytes)) (t : Tables)
      → HoldsBatch client_id batch_id t []
      → All (λ (u : Str × Bytes). IsAllowed t client_id batch_id u.0) ((f, x) ∷ uploads)
      → (t' : Tables) × (store_all client_id batch_id ((f, x) ∷ uploads) (calm t)
          ≡ (ok tt, calm t'))
        × HoldsBatch client_id batch_id t' (put_all ((f, x) ∷ uploads) [])
        × IsTreeFor str_leb t' (client_id, batch_id)
  store_all-new f x uploads t h a =
      let (t₁, e, s) = store_file_and_update_tree_lem str_leb t client_id batch_id f x a.0 in
      let (t₂, e₂, held, tree) =
        store_all-IsTreeFor uploads t₁ (put f x [])
          (HoldsBatch-put client_id batch_id t t₁ [] f x s.files_eq h) s.tree
          (All-IsAllowed client_id batch_id t t₁ uploads s.clients a.1) in
      (t₂, rw e e₂, held, tree)
