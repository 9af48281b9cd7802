-- ===== src/Tests/Stores.antt =====
-- Files stored in the tables of the database, one after the other and at one time.
use verifiable_storage.Prelude.{
  ℕ, zero, suc, ◌+◌, ◌*◌, ◌^◌, ◌<◌, ◌≤◌, ◌↔◌, ◌≡◌, ◌≢◌, refl, List, [], ◌∷◌, ◌==◌, ==_iff, true,
  false, some,
}
use verifiable_storage.Prelude.Result.{ok}
use verifiable_storage.Prelude.Text.{Bytes, Str, text}
use verifiable_storage.Prelude.Sort.{str_leb, sort}
use verifiable_storage.Prelude.Dict.{str_eq, pair_eq, lookup}
use verifiable_storage.Storage.Tables
use verifiable_storage.Storage.Tables.{Tables, fits, names_of}
use verifiable_storage.Storage.Database.{store_file_and_update_tree}
use verifiable_storage.Storage.Trees.{calm, IsTreeFor}
use verifiable_storage.Storage.Store.{IsAllowed, IsStoredBy, store_file_and_update_tree_lem}
use verifiable_storage.Storage.Filesystem.Batch.{put_all}
use verifiable_storage.Storage.Batches.{HoldsBatch, IsAnswered, store_all, store_all-HoldsBatch}
use verifiable_storage.Storage.Race.{Run, Stale, started, finished, Run-Stale}
use verifiable_storage.Storage.Success.{store_file_and_update_tree-IsTreeFor}
use verifiable_storage.Storage.Connect.{
  Attempt, connected, test_failed, connect_failed, default_config, calculate_retry_delay,
  connect_with_retry, total, connect_with_retry_lem,
}
use verifiable_storage.Tests.ToyCrates.{toy_crates}

abbrev name : Str
name = text "a.txt"

abbrev content : Bytes
content = 1 ∷ 2 ∷ 3 ∷ []

-- A registered client, and names that fit.
abbrev registered : Tables
registered = record {
  batches = [];
  files = [];
  clients = (text "c1", 7 ∷ []) ∷ [];
  merkle_trees = [];
}

allowed : IsAllowed registered (text "c1") (text "b1") name
unfolding fits lookup Tables.is_some ◌==◌
allowed = record { registered = refl; client_fits = refl; batch_fits = refl; name_fits = refl }

permission : IsAllowed registered (text "c1") (text "b1") (text "b.txt")
unfolding fits lookup Tables.is_some ◌==◌
permission = record { registered = refl; client_fits = refl; batch_fits = refl; name_fits = refl }

store_file_and_update_tree_lem_example :
    (t' : Tables) × (store_file_and_update_tree str_leb
        (text "c1")
        (text "b1")
        name
        content
        (calm registered)
      ≡ (ok tt, calm t'))
    × IsStoredBy str_leb (text "c1") (text "b1") name content registered t'
store_file_and_update_tree_lem_example =
    store_file_and_update_tree_lem str_leb registered (text "c1") (text "b1") name content allowed

names_differ : name ≢ text "b.txt"
names_differ e =
    let same : (name == text "b.txt") ≡ true = (==_iff name (text "b.txt")).1 e in
    let differ : (name == text "b.txt") ≡ false = unfold ◌==◌ in refl in absurd (cc)

-- Two files of one batch at one time.
Run-Stale_example :
    (t' : Tables) × Run str_leb
      (record { client_id = text "c1"; batch_id = text "b1"; filename = name; content = content })
      (record {
        client_id = text "c1";
        batch_id = text "b1";
        filename = text "b.txt";
        content = [];
      })
      started
      started
      registered
      finished
      finished
      t'
    × Stale str_leb t' (text "c1", text "b1")
Run-Stale_example =
    Run-Stale str_leb registered (text "c1") (text "b1") name (text "b.txt") content [] allowed
      permission names_differ (unfold lookup in refl)

-- The run of the call above, with its result.
succeeded :
    (t' : Tables) × (store_file_and_update_tree str_leb
        (text "c1")
        (text "b1")
        name
        content
        (calm registered)
      ≡ (ok tt, calm t'))
    × IsStoredBy str_leb (text "c1") (text "b1") name content registered t'
succeeded =
    store_file_and_update_tree_lem str_leb registered (text "c1") (text "b1") name content allowed

store_file_and_update_tree-IsTreeFor_example :
    (lookup ((text "c1", text "b1"), name) (succeeded.0).files ≡ some content)
    × IsTreeFor str_leb (succeeded.0) (text "c1", text "b1")
store_file_and_update_tree-IsTreeFor_example =
    store_file_and_update_tree-IsTreeFor str_leb (text "c1") (text "b1") name content
      (calm registered) (calm (succeeded.0)) (succeeded.1)

-- A database that takes connections from the third attempt on.
abbrev tries : ℕ → Attempt
tries zero = connect_failed
tries (suc zero) = test_failed
tries (suc (suc i)) = connected

connect_with_retry_lem_example :
    ((connect_with_retry tries default_config).is_connected ≡ true
      ↔ ((i : ℕ) × (i < 5) × (tries i ≡ connected)))
    × (total (connect_with_retry tries default_config).delays + 1 ≤ 1 * 2 ^ 4)
connect_with_retry_lem_example = connect_with_retry_lem tries default_config

retried :
    connect_with_retry tries default_config ≡ record { is_connected = true; delays = 1 ∷ 2 ∷ [] }
unfolding connect_with_retry calculate_retry_delay
retried = refl

no_files : HoldsBatch (text "c1") (text "b1") registered []
unfolding lookup names_of sort
no_files = record { contents = λ name. refl; names_eq = refl }

abbrev uploads : List (Str × Bytes)
uploads = (text "b.txt", []) ∷ (name, content) ∷ []

store_all-HoldsBatch_example :
    (t' : Tables) × (store_all (text "c1") (text "b1") uploads (calm registered) ≡ (ok tt, calm t'))
    × HoldsBatch (text "c1") (text "b1") t' (put_all uploads [])
    × IsAnswered (text "c1") (text "b1") t' (put_all uploads [])
store_all-HoldsBatch_example =
    store_all-HoldsBatch (text "c1") (text "b1") uploads registered [] no_files
      (permission, (allowed, tt))

-- The files in another order, one of them twice.
abbrev again : List (Str × Bytes)
again = (name, []) ∷ (name, content) ∷ (text "b.txt", []) ∷ []
