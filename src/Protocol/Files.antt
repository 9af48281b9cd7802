-- ===== src/Protocol/Files.antt =====
-- Downloads from a server with the file system storage: a request of bin/client/src/download.rs, the
-- handler of bin/server/src/handlers/download.rs over crates/storage/src/filesystem.rs, and what the
-- client makes of the answer.
use verifiable_storage.Prelude.{
  ℕ, ◌≡◌, ◌≢◌, refl, ◌∙◌, sym, ap, true, Option, some, List, [], ◌∷◌, map, arith,
}
use verifiable_storage.Prelude.Result.{ok}
use verifiable_storage.Prelude.Text.{Bytes, Str, as_bytes}
use verifiable_storage.Prelude.Sort.{str_leb, IsAscending}
use verifiable_storage.Prelude.Order.{has_name, str_leb_total}
use verifiable_storage.Prelude.Dict.{str_eq, lookup}
use verifiable_storage.Disk.Laws.{sound}
use verifiable_storage.Crates.{Crates, IsLawful}
use verifiable_storage.Merkle.{MerkleTree, from_data, from_leaf_hashes}
use verifiable_storage.Merkle.Tower.{from_data-eq}
use verifiable_storage.Common.{DownloadResponse}
use verifiable_storage.Common.Filename.{validate_filename_iff}
use verifiable_storage.Storage.Metadata.{Json}
use verifiable_storage.Storage.Filesystem.{
  batch_dir, public_key_path, filesystem_storage, load_merkle_tree,
}
use verifiable_storage.Storage.Filesystem.Batch.{Batch, names}
use verifiable_storage.Storage.Filesystem.Paths.{IsFileName}
use verifiable_storage.Storage.Filesystem.Views.{
  IsBatch, IsBatch-IsViewed, TreeView, tree_of, no_tree, listing,
}
use verifiable_storage.Storage.Filesystem.Keys.{load_public_key-sound}
use verifiable_storage.Storage.Directory.{IsStrict, IsStrict-lookup, hashes-eq}
use verifiable_storage.Server.Checks.{validate_timestamp_default}
use verifiable_storage.Server.Download.{download}
use verifiable_storage.Client.Download.{FileDownloader, request_of}
use verifiable_storage.Protocol.Download.{IsAccepted, IsAnswering, download-of_IsAnswering}

IsStrict-IsAscending : (v : Batch) → IsStrict v → IsAscending str_leb (names v)
IsStrict-IsAscending [] strict = tt
IsStrict-IsAscending (p ∷ []) strict = tt
IsStrict-IsAscending (p ∷ q ∷ v) strict =
    (str_leb_total q.0 p.0 strict.0.0, IsStrict-IsAscending (q ∷ v) strict.1)

has_name-lookup :
    (f : Str) (x : Bytes) (v : Batch) → lookup f v ≡ some x → has_name (names v) f ≡ true
unfolding lookup has_name
has_name-lookup f x [] h = absurd (cc)
has_name-lookup f x (p ∷ v) h = ground (arith, has_name-lookup f x v)

not_empty : (f : Str) (x : Bytes) (v : Batch) → lookup f v ≡ some x → v ≢ []
unfolding lookup
not_empty f x [] h = absurd (cc)
not_empty f x (p ∷ v) h = λ e. cc

listing-lookup :
    ⦃K : Crates⦄ ⦃J : Json⦄ (data_dir c b f : Str) (x : Bytes) (v : Batch)
    → lookup f v ≡ some x
    → listing data_dir c b v ≡ ok (names v)
unfolding lookup
listing-lookup data_dir c b f x [] h = absurd (cc)
listing-lookup data_dir c b f x (p ∷ v) h = refl

module _ ⦃K : Crates⦄ ⦃J : Json⦄ (L : IsLawful K) (data_dir : Str) (d : FileDownloader) where
  -- The files hold the client's batch and its key.
  pub record IsOnDisk (files : List (Str × Bytes)) (v : Batch) : Type 0 where
    pub batch : IsBatch (batch_dir data_dir d.client_id d.batch_id) files v
    pub strict : IsStrict v
    pub key :
        lookup (public_key_path data_dir d.client_id) files
        ≡ some (as_bytes (K.hex_encode (K.verifying_key d.signing_key)))

  module _ (files : List (Str × Bytes)) (v : Batch) (f : Str) (x : Bytes) (h : IsOnDisk files v)
      (n : IsFileName f) (found : lookup f v ≡ some x) where
    answering :
        (o : Option MerkleTree)
        → load_merkle_tree data_dir d.client_id d.batch_id (sound files) ≡ (ok o, sound files)
        → TreeView data_dir d.client_id d.batch_id v o
        → (tree : MerkleTree) × (from_data (map (λ (q : Str × Bytes). q.1) v) ≡ ok tree)
          × IsAnswering (filesystem_storage data_dir) (sound files) d f x tree
    answering _ loaded (no_tree empty) = absurd (not_empty f x v found empty)
    answering _ loaded (tree_of tree hashes leaves built) =
        let view = IsBatch-IsViewed data_dir d.client_id d.batch_id files v h.batch in
        (
          tree,
          from_data-eq (map (λ (q : Str × Bytes). q.1) v)
              ∙ ap from_leaf_hashes
                  (sym (hashes-eq (λ n. lookup n v) v hashes (IsStrict-lookup v h.strict) leaves))
              ∙ built,
          record {
            names = names v;
            content_of = λ n. lookup n v;
            hashes = hashes;
            known =
                load_public_key-sound L data_dir files d.client_id (K.verifying_key d.signing_key)
                  (L.verifying_key_bytes d.signing_key) h.key;
            listed =
                view.names_eq
                ∙ rw (listing-lookup data_dir d.client_id d.batch_id f x v found) refl;
            there = view.exists_eq f n ∙ rw found refl;
            read = view.read_eq f n ∙ rw found refl;
            loaded = loaded;
            leaves = leaves;
            built = built;
            ascending = IsStrict-IsAscending v h.strict;
            named = has_name-lookup f x v found;
            stored = found;
          },
        )

    -- The server with the file system storage answers a signed download of a file of a batch that its
    -- directory holds, with the content and a proof that the client verifies against the root of the tree
    -- that `from_data` builds of the contents in the order of their names; the disk stays as it is. This
    -- is while nothing fails, for a client whose key is on the disk, a timestamp in the window and a
    -- name that is not one of the storage's own.
    pub download-of_IsOnDisk :
        (now : Option ℕ) (timestamp : ℕ)
        → validate_timestamp_default now timestamp ≡ ok tt
        → (tree : MerkleTree) × (resp : DownloadResponse) × (from_data
              (map (λ (q : Str × Bytes). q.1) v)
            ≡ ok tree)
          × (download (filesystem_storage data_dir) now (request_of d timestamp f) (sound files)
              ≡ (ok resp, sound files))
          × IsAccepted f x tree.root resp
    download-of_IsOnDisk now timestamp fresh =
        let view = IsBatch-IsViewed data_dir d.client_id d.batch_id files v h.batch in
        let (o, loaded, seen) = view.tree_eq in
        let (tree, made, a) = answering o loaded seen in
        let (resp, answered, accepted) =
          download-of_IsAnswering L (filesystem_storage data_dir) (sound files) d now timestamp f x
            tree a ((validate_filename_iff f).1 n.valid) fresh in
        (tree, resp, made, answered, accepted)
