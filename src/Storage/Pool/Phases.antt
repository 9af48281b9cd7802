-- ===== src/Storage/Pool/Phases.antt =====
-- What holds of a batch while a call of `store_file_and_update_tree` to it is in one of its phases, and
-- what each part of the call does.
use verifiable_storage.Prelude.{
  ◌<◌, ◌≡◌, refl, ap, ◌∙◌, sym, subst, ◌⊎◌, inl, inr, Bool, true, false, none, List, [], arith,
  Bool-cases, length,
}
use verifiable_storage.Prelude.Result.{Result, ok, ok_inj}
use verifiable_storage.Prelude.Text.{Bytes, Str}
use verifiable_storage.Prelude.Dict.{
  str_eq, pair_eq, pair_beq, pair_beq_iff, lookup, insert, lookup-insert_self,
}
use verifiable_storage.Crates.{Crates}
use verifiable_storage.Storage.{StorageError}
use verifiable_storage.Storage.Tables
use verifiable_storage.Storage.Tables.{Tables, Db, BatchKey, names_of}
use verifiable_storage.Storage.Trees.{
  calm, LeafHashes, sorted_names, IsTreeFor, compute_leaf_hashes-calm,
}
use verifiable_storage.Storage.Store.{
  IsAllowed, with_batch, with_file, with_batch-has, first_transaction, second_transaction,
  names_of-insert,
}
use verifiable_storage.Storage.Race.{
  File, Phase, started, stored, finished, hashed, Step, put, read, update, compute-calm,
}
use verifiable_storage.Storage.Pool.{
  key_of, Status, idle, broken, running, after, Pool, pool, set_status,
}
use verifiable_storage.Storage.Pool.Frame.{
  SameBatch, SameBatch-refl, with_file-SameBatch, with_tree-SameBatch, sorted_names-SameBatch,
  IsTreeFor-SameBatch,
}

module _ ⦃K : Crates⦄ (collation : Str → Str → Bool) where
  -- The stored tree of the batch is the one of its files, or it has neither.
  abbrev pub IsSettled : Tables → BatchKey → Type 0
  IsSettled t b =
      IsTreeFor collation t b ⊎ ((lookup b t.merkle_trees ≡ none) × (names_of b t.files ≡ []))

  -- What holds of a batch while a call to it runs.
  abbrev pub InPhase : Tables → Bool → File → BatchKey → Phase → Type 0
  InPhase t clean f b started =
      (clean ≡ true → IsSettled t b) × IsAllowed t f.client_id f.batch_id f.filename
  InPhase t clean f b stored =
      (Tables.is_some (lookup b t.batches) ≡ true) × (0 < length (names_of b t.files))
  InPhase t clean f b (hashed hashes) =
      (Tables.is_some (lookup b t.batches) ≡ true)
      × (0 < length (names_of b t.files))
      × LeafHashes t.files b (sorted_names collation t b) hashes
  InPhase t clean f b finished = ⊥

  abbrev pub Fits : Tables → BatchKey → Status → Type 0
  Fits t b idle = IsSettled t b
  Fits t b broken = Unit {0}
  Fits t b (running clean f p) = (key_of f ≡ b) × InPhase t clean f b p

  abbrev pub AllFit : Pool → Type 0
  AllFit P = (b : BatchKey) → Fits P.tables b (P.status b)

  IsSettled-SameBatch :
      (b : BatchKey) (t t' : Tables) → SameBatch b t t' → IsSettled t b → IsSettled t' b
  IsSettled-SameBatch b t t' s (inl T) = inl (IsTreeFor-SameBatch collation b t t' s T)
  IsSettled-SameBatch b t t' s (inr (no_tree, no_files)) =
      inr (s.tree_eq ∙ no_tree, s.names_eq ∙ no_files)

  InPhase-SameBatch :
      (b : BatchKey) (t t' : Tables) (clean : Bool) (f : File) (p : Phase)
      → SameBatch b t t'
      → InPhase t clean f b p
      → InPhase t' clean f b p
  InPhase-SameBatch b t t' clean f started s (settled, a) = (
    (λ c. IsSettled-SameBatch b t t' s (settled c)),
    record {
      registered = s.client f.client_id a.registered;
      client_fits = a.client_fits;
      batch_fits = a.batch_fits;
      name_fits = a.name_fits;
    },
  )
  InPhase-SameBatch b t t' clean f stored s (row, some_name) =
      (s.row row, omega (arith, some_name, ap length s.names_eq))
  InPhase-SameBatch b t t' clean f (hashed hashes) s (row, some_name, l) = (
    s.row row,
    omega (arith, some_name, ap length s.names_eq),
    sorted_names-SameBatch collation b t t' hashes s l,
  )
  InPhase-SameBatch b t t' clean f finished s h = h

  pub Fits-SameBatch :
      (b : BatchKey) (t t' : Tables) (st : Status) → SameBatch b t t' → Fits t b st → Fits t' b st
  Fits-SameBatch b t t' idle s h = IsSettled-SameBatch b t t' s h
  Fits-SameBatch b t t' broken s h = tt
  Fits-SameBatch b t t' (running clean f p) s (key, h) =
      (key, InPhase-SameBatch b t t' clean f p s h)

  pub set_status-AllFit :
      (t t' : Tables) (status : BatchKey → Status) (b : BatchKey) (st : Status)
      → ((d : BatchKey) → pair_beq b d ≡ false → SameBatch d t t')
      → AllFit (pool t status)
      → Fits t' b st
      → AllFit (pool t' (set_status b st status))
  set_status-AllFit t t' status b st frame all h d = elim (Bool-cases (pair_beq b d)) [
    | inl same ↦ rw same (subst (λ c. Fits t' c st) ((pair_beq_iff b d).0 same) h)
    | inr other ↦ rw other (Fits-SameBatch d t t' (status d) (frame d other) (all d))
  ]

  -- What a part of a call does to the tables, and what it leaves of its batch.
  pub record Stepped (t t' : Tables) (clean : Bool) (f : File) (p' : Phase) : Type 0 where
    pub frame : (d : BatchKey) → pair_beq (key_of f) d ≡ false → SameBatch d t t'
    pub fits : Fits t' (key_of f) (after clean f p')

  tables_eq :
      (r : Result StorageError (Unit {0}) × Db) (t t' : Tables)
      → r ≡ (ok tt, calm t)
      → r ≡ (ok tt, calm t')
      → t ≡ t'
  tables_eq r t t' h h' = ap (λ (o : Result StorageError (Unit {0}) × Db). o.1.tables) (sym h ∙ h')

  pub Step-Stepped :
      {t t' : Tables} {p p' : Phase} (clean : Bool) (f : File)
      → InPhase t clean f (key_of f) p
      → Step collation f p t p' t'
      → Stepped t t' clean f p'
  Step-Stepped {t} {t'} clean f h (put e) =
      let key = key_of f in
      let first = first_transaction t f.client_id f.batch_id f.filename f.content h.1 in
      let done : Stepped t (with_file t key f.filename f.content) clean f stored = record {
        frame = λ d other. with_file-SameBatch t key d f.filename f.content other;
        fits = (
          refl,
          (with_batch-has t key, names_of-insert key f.filename f.content (with_batch t key).files),
        );
      } in
      subst (λ u. Stepped t u clean f stored)
        (tables_eq _ (with_file t key f.filename f.content) t' first e) done
  Step-Stepped {t} clean f h (read {hashes = hashes} e) =
      let hashed_now = compute_leaf_hashes-calm collation t f.client_id f.batch_id in
      let same : hashed_now.hashes ≡ hashes = ok_inj (
        ap (λ (o : Result StorageError (List Bytes) × Db). o.0)
          (sym (compute-calm collation t f.client_id f.batch_id hashed_now) ∙ e)) in
      record {
        frame = λ d other. SameBatch-refl d t;
        fits = (
          refl,
          (
            h.0,
            h.1,
            subst (λ hs. LeafHashes t.files (key_of f) (sorted_names collation t (key_of f)) hs)
                same hashed_now.exact,
          ),
        );
      }
  Step-Stepped {t} {t'} clean f h (update {hashes = hashes} {tree = tree} made e) =
      let key = key_of f in
      let u = record t { merkle_trees = insert key tree t.merkle_trees } in
      let second = second_transaction t f.client_id f.batch_id tree h.0 in
      let done : Stepped t u clean f finished = record {
        frame = λ d other. with_tree-SameBatch t key d tree other;
        fits = inl (record {
          tree = tree;
          hashes = hashes;
          stored = lookup-insert_self key tree t.merkle_trees;
          exact = h.2;
          made = made;
        });
      } in
      subst (λ v. Stepped t v clean f finished) (tables_eq _ u t' second e) done
