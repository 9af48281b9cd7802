-- ===== src/Storage/Pool/Finish.antt =====
-- A call that runs can come to its end by its own parts, and leaves the batch with its tree.
use verifiable_storage.Prelude.{◌<◌, ◌≡◌, Bool, List, arith, length}
use verifiable_storage.Prelude.Text.{Bytes, Str}
use verifiable_storage.Prelude.Sort.{length-sort}
use verifiable_storage.Prelude.Dict.{str_eq, pair_eq, insert, lookup-insert_self}
use verifiable_storage.Crates.{Crates}
use verifiable_storage.Merkle.Tower.{from_leaf_hashes-IsTreeOf}
use verifiable_storage.Storage.Tables.{Tables, BatchKey, names_of}
use verifiable_storage.Storage.Trees.{
  IsTreeFor, sorted_names, compute_leaf_hashes-calm, length-LeafHashes,
}
use verifiable_storage.Storage.Store.{
  with_batch, with_file, with_batch-has, first_transaction, second_transaction, names_of-insert,
}
use verifiable_storage.Storage.Race.{
  File, Phase, started, stored, finished, hashed, Step, put, read, update, compute-calm,
}
use verifiable_storage.Storage.Pool.{key_of, pool, Pool, Turns, running, idle}
use verifiable_storage.Storage.Pool.Phases.{IsSettled, InPhase}
use verifiable_storage.Storage.Pool.Settled.{running-InPhase, Turns-AllFit}

module _ ⦃K : Crates⦄ (collation : Str → Str → Bool) (f : File) where
  -- Parts that one call takes while no other call runs.
  pub data Alone : Phase → Tables → Phase → Tables → Type 0 where
    rest : {p : Phase} {t : Tables} → Alone p t p t
    next :
        {p p' q : Phase} {t t' u : Tables}
        → Step collation f p t p' t'
        → Alone p' t' q u
        → Alone p t q u

  -- The end that a call can come to.
  abbrev pub CanFinish : Phase → Tables → Type 0
  CanFinish p t = (t' : Tables) × Alone p t finished t' × IsTreeFor collation t' (key_of f)

  can_update :
      (t : Tables) (clean : Bool) (hashes : List Bytes)
      → InPhase collation t clean f (key_of f) (hashed hashes)
      → CanFinish (hashed hashes) t
  can_update t clean hashes h =
      let key = key_of f in
      let some_hash : 0 < length hashes = omega (
        arith,
        h.1,
        length-LeafHashes t.files key (sorted_names collation t key) hashes h.2,
        length-sort collation (names_of key t.files),
      ) in
      let (tree, made, _) = from_leaf_hashes-IsTreeOf hashes some_hash in
      (
        record t { merkle_trees = insert key tree t.merkle_trees },
        next (update made (second_transaction t f.client_id f.batch_id tree h.0)) rest,
        record {
          tree = tree;
          hashes = hashes;
          stored = lookup-insert_self key tree t.merkle_trees;
          exact = h.2;
          made = made;
        },
      )

  can_read :
      (t : Tables) (clean : Bool)
      → InPhase collation t clean f (key_of f) stored
      → CanFinish stored t
  can_read t clean h =
      let now = compute_leaf_hashes-calm collation t f.client_id f.batch_id in
      let (t', steps, tree) = can_update t clean now.hashes (h.0, h.1, now.exact) in
      (t', next (read (compute-calm collation t f.client_id f.batch_id now)) steps, tree)

  can_put :
      (t : Tables) (clean : Bool)
      → InPhase collation t clean f (key_of f) started
      → CanFinish started t
  can_put t clean h =
      let key = key_of f in
      let u = with_file t key f.filename f.content in
      let (t', steps, tree) =
        can_read u clean (
          with_batch-has t key,
          names_of-insert key f.filename f.content (with_batch t key).files,
        ) in
      (
        t',
        next (put (first_transaction t f.client_id f.batch_id f.filename f.content h.1)) steps,
        tree,
      )

  can_finish :
      (t : Tables) (clean : Bool) (p : Phase)
      → InPhase collation t clean f (key_of f) p
      → CanFinish p t
  can_finish t clean started h = can_put t clean h
  can_finish t clean stored h = can_read t clean h
  can_finish t clean (hashed hashes) h = can_update t clean hashes h
  can_finish t clean finished h = absurd h

  -- However many calls have interleaved and failed before, at most one to each batch at a time, from
  -- tables whose batches are settled: a call that runs is never stuck. Its own parts lead to its end, if
  -- none of them fails and no other call comes between, and the batch then has the tree of its files.
  pub Turns-CanFinish :
      (t : Tables) (P : Pool) (clean : Bool) (p : Phase)
      → ((d : BatchKey) → IsSettled collation t d)
      → Turns collation (pool t (λ _. idle)) P
      → P.status (key_of f) ≡ running clean f p
      → CanFinish p P.tables
  Turns-CanFinish t P clean p settled turns e = can_finish P.tables clean p (
      running-InPhase collation P.tables (key_of f) (P.status (key_of f)) clean f p e
        (Turns-AllFit collation settled turns (key_of f)))
