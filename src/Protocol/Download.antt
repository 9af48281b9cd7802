-- ===== src/Protocol/Download.antt =====
-- A request of bin/client/src/download.rs, the answer of bin/server/src/handlers/download.rs to
-- it, and what the client makes of the answer.
use verifiable_storage.Prelude.{ℕ, ◌≡◌, refl, ◌∙◌, subst, true, Option, some, List, ==_iff}
use verifiable_storage.Prelude.Result.{ok}
use verifiable_storage.Prelude.Text.{Bytes, Str}
use verifiable_storage.Prelude.Sort.{str_leb, IsAscending}
use verifiable_storage.Prelude.Order.{has_name, has_name-sort, str_leb_total, sort-IsAscending}
use verifiable_storage.Prelude.Dict.{str_eq, pair_eq, lookup}
use verifiable_storage.Crates.{Crates, IsLawful}
use verifiable_storage.Crypto.{sign_message, verify_signature, public_key_from_bytes, hash_leaf}
use verifiable_storage.Merkle.{MerkleTree, MerkleProof, compute_root, from_leaf_hashes}
use verifiable_storage.Common.{DownloadResponse}
use verifiable_storage.Common.Filename.{validate_filename}
use verifiable_storage.Storage.{Storage}
use verifiable_storage.Storage.Leaves.{LeavesOf}
use verifiable_storage.Storage.Tables
use verifiable_storage.Storage.Tables.{Tables, BatchKey, query, names_of}
use verifiable_storage.Storage.Database.{database_storage, load_batch_filenames, read_file}
use verifiable_storage.Storage.Trees.{calm, sorted_names, IsTreeFor}
use verifiable_storage.Server.Checks.{validate_timestamp_default, parse_signature}
use verifiable_storage.Server.Auth.{verify_request_signature_with_client_id}
use verifiable_storage.Server.Proof.{proof_to_json}
use verifiable_storage.Server.Download.{build_message, download}
use verifiable_storage.Server.Serve.{has_name-names_of, IsProofOf, generate_proof-of_LeavesOf}
use verifiable_storage.Client.Verify.{verify_merkle_proof}
use verifiable_storage.Client.Download.{FileDownloader, build_download_message, request_of}
use verifiable_storage.Client.Trust.{
  convert_proof_to_nodes-proof_to_json, hex_decode_array-hex_encode,
}

module _ ⦃K : Crates⦄ where
  -- What the client does with an answer up to the decryption.
  pub record IsAccepted (f : Str) (x : Bytes) (root : Bytes) (resp : DownloadResponse)
      : Type 0 where
    pub name_eq : resp.filename ≡ f
    pub content_eq : K.base64_decode resp.file_content ≡ some x
    pub verified : verify_merkle_proof resp (hash_leaf x) (K.hex_encode root) ≡ ok tt

  -- What a download needs from the server's tables.
  pub record IsServed (t : Tables) (d : FileDownloader) (f : Str) (x : Bytes) : Type 0 where
    pub known : lookup d.client_id t.clients ≡ some (K.verifying_key d.signing_key)
    pub batch : Tables.is_some (lookup (d.client_id, d.batch_id) t.batches) ≡ true
    pub stored : lookup ((d.client_id, d.batch_id), f) t.files ≡ some x
    pub tree : IsTreeFor str_leb t (d.client_id, d.batch_id)

  -- What a storage answers for a file of a batch, whose names it lists in order, and whose tree is the
  -- one of the contents.
  pub record IsAnswering (S : Storage) (s : S.State) (d : FileDownloader) (f : Str) (x : Bytes)
      (tree : MerkleTree) : Type 0 where
    pub names : List Str
    pub content_of : Str → Option Bytes
    pub hashes : List Bytes
    pub known : S.load_public_key d.client_id s ≡ (ok (some (K.verifying_key d.signing_key)), s)
    pub listed : S.load_batch_filenames d.client_id d.batch_id s ≡ (ok names, s)
    pub there : S.file_exists d.client_id d.batch_id f s ≡ (ok true, s)
    pub read : S.read_file d.client_id d.batch_id f s ≡ (ok x, s)
    pub loaded : S.load_merkle_tree d.client_id d.batch_id s ≡ (ok (some tree), s)
    pub leaves : LeavesOf content_of names hashes
    pub built : from_leaf_hashes hashes ≡ ok tree
    pub ascending : IsAscending str_leb names
    pub named : has_name names f ≡ true
    pub stored : content_of f ≡ some x

module _ ⦃K : Crates⦄ (L : IsLawful K) where
  pub parse_signature-sign :
      (k m : Bytes) → parse_signature (K.hex_encode (K.sign k m)) ≡ ok (K.sign k m)
  unfolding parse_signature
  parse_signature-sign k m =
      rw (L.hex_trim (K.sign k m), L.hex_round (K.sign k m), L.sign_len k m) refl

  pub public_key-verifying_key :
      (k : Bytes) → public_key_from_bytes (K.verifying_key k) ≡ ok (K.verifying_key k)
  unfolding public_key_from_bytes
  public_key-verifying_key k = rw (L.verifying_key_len k, L.verifying_key_valid k) refl

  pub verify_signature-sign :
      (k m : Bytes) → verify_signature (K.verifying_key k) m (K.sign k m) ≡ ok tt
  unfolding verify_signature
  verify_signature-sign k m = rw (L.verify_sign k m) refl

  verify_request-known :
      (S : Storage) (s : S.State) (c : Str) (k m : Bytes)
      → S.load_public_key c s ≡ (ok (some (K.verifying_key k)), s)
      → verify_request_signature_with_client_id S c m (K.sign k m) s ≡ (ok tt, s)
  unfolding verify_request_signature_with_client_id
  verify_request-known S s c k m known =
      rw (known, public_key-verifying_key k, verify_signature-sign k m) refl

  load_public_key-calm :
      (t : Tables) (c : Str) (k : Bytes)
      → lookup c t.clients ≡ some k
      → Tables.load_public_key c (calm t) ≡ (ok (some k), calm t)
  unfolding Tables.load_public_key query
  load_public_key-calm t c k known = rw known refl

  load_merkle_tree-calm :
      (t : Tables) (c b : Str) (tree : MerkleTree)
      → lookup (c, b) t.merkle_trees ≡ some tree
      → Tables.load_merkle_tree c b (calm t) ≡ (ok (some tree), calm t)
  unfolding Tables.load_merkle_tree query
  load_merkle_tree-calm t c b tree stored = rw stored refl

  load_batch_filenames-calm :
      (t : Tables) (c b : Str)
      → Tables.is_some (lookup (c, b) t.batches) ≡ true
      → load_batch_filenames str_leb c b (calm t) ≡ (ok (sorted_names str_leb t (c, b)), calm t)
  unfolding load_batch_filenames Tables.batch_exists Tables.load_batch_filenames query
  load_batch_filenames-calm t c b h = rw h refl

  file_exists-calm :
      (t : Tables) (c b f : Str) (x : Bytes)
      → lookup ((c, b), f) t.files ≡ some x
      → Tables.file_exists c b f (calm t) ≡ (ok true, calm t)
  unfolding Tables.file_exists Tables.is_some query
  file_exists-calm t c b f x h = rw h refl

  read_file-calm :
      (t : Tables) (c b f : Str) (x : Bytes)
      → lookup ((c, b), f) t.files ≡ some x
      → read_file c b f (calm t) ≡ (ok x, calm t)
  unfolding read_file Tables.read_file query
  read_file-calm t c b f x h = rw h refl

  verify_merkle_proof-IsProofOf :
      (tree : MerkleTree) (x : Bytes) (p : MerkleProof) (f content : Str)
      → IsProofOf tree x p
      → verify_merkle_proof
          (record { filename = f; file_content = content; merkle_proof = proof_to_json p })
          (hash_leaf x)
          (K.hex_encode tree.root)
        ≡ ok tt
  unfolding verify_merkle_proof
  verify_merkle_proof-IsProofOf tree x p f content proof =
      let nodes = convert_proof_to_nodes-proof_to_json L p proof.widths in
      let computed : compute_root
            (record { leaf_index = 0; leaf_hash = hash_leaf x; path = p.path })
          ≡ ok tree.root =
        subst
          (λ h.
            compute_root (record { leaf_index = 0; leaf_hash = h; path = p.path }) ≡ ok tree.root)
          proof.leaf_eq (unfold compute_root in proof.root_eq) in
      let expected = hex_decode_array-hex_encode L 32 tree.root proof.root_width in
      rw (nodes, computed, expected, (==_iff tree.root tree.root).1 refl) refl

  IsServed-IsAnswering :
      (t : Tables) (d : FileDownloader) (f : Str) (x : Bytes) (s : IsServed t d f x)
      → IsAnswering (database_storage str_leb) (calm t) d f x s.tree.tree
  IsServed-IsAnswering t d f x s =
      let b : BatchKey = (d.client_id, d.batch_id) in
      record {
        names = sorted_names str_leb t b;
        content_of = λ n. lookup (b, n) t.files;
        hashes = s.tree.hashes;
        known = load_public_key-calm t d.client_id (K.verifying_key d.signing_key) s.known;
        listed = load_batch_filenames-calm t d.client_id d.batch_id s.batch;
        there = file_exists-calm t d.client_id d.batch_id f x s.stored;
        read = read_file-calm t d.client_id d.batch_id f x s.stored;
        loaded = load_merkle_tree-calm t d.client_id d.batch_id s.tree.tree s.tree.stored;
        leaves = s.tree.exact;
        built = s.tree.made;
        ascending = sort-IsAscending str_leb str_leb_total (names_of b t.files);
        named =
            has_name-sort str_leb (names_of b t.files) f ∙ has_name-names_of b f x t.files s.stored;
        stored = s.stored;
      }

  -- A request that the client signs, with a filename that is valid and a timestamp in the window, is
  -- answered, by the handler over any storage that answers for the file. The state of the storage
  -- stays; the answer has the filename and the content, and the client verifies it against the root
  -- of the tree.
  pub download-of_IsAnswering :
      (S : Storage) (s : S.State) (d : FileDownloader) (now : Option ℕ) (timestamp : ℕ) (f : Str)
      (x : Bytes) (tree : MerkleTree)
      → IsAnswering S s d f x tree
      → validate_filename f ≡ ok tt
      → validate_timestamp_default now timestamp ≡ ok tt
      → (resp : DownloadResponse) × (download S now (request_of d timestamp f) s ≡ (ok resp, s))
        × IsAccepted f x tree.root resp
  unfolding download request_of
  download-of_IsAnswering S s d now timestamp f x tree a valid fresh =
      let m = build_message f d.batch_id timestamp in
      let signed : (request_of d timestamp f).signature ≡ K.hex_encode (K.sign d.signing_key m) =
        unfold request_of build_message build_download_message sign_message in refl in
      let (p, proved, proof) =
        generate_proof-of_LeavesOf L S s d.client_id d.batch_id a.content_of a.names a.hashes tree f
          x a.loaded a.leaves a.built a.ascending a.named a.stored in
      (
        record { filename = f; file_content = K.base64_encode x; merkle_proof = proof_to_json p },
        rw
            (
              valid,
              fresh,
              signed,
              parse_signature-sign d.signing_key m,
              verify_request-known S s d.client_id d.signing_key m a.known,
              a.listed,
              a.named,
              a.there,
              a.read,
              proved,
            )
            refl,
        record {
          name_eq = refl;
          content_eq = L.base64_round x;
          verified = verify_merkle_proof-IsProofOf tree x p f (K.base64_encode x) proof;
        },
      )

  -- A request that the client signs, with a filename that is valid and a timestamp in the window, is
  -- answered, for a file that is stored and a tree that is up to date. The tables stay; the answer
  -- has the filename and the content, and the client verifies it against the root of the tree.
  pub download-IsAccepted :
      (t : Tables) (d : FileDownloader) (now : Option ℕ) (timestamp : ℕ) (f : Str) (x : Bytes)
      (s : IsServed t d f x)
      → validate_filename f ≡ ok tt
      → validate_timestamp_default now timestamp ≡ ok tt
      → (resp : DownloadResponse) × (download
            (database_storage str_leb)
            now
            (request_of d timestamp f)
            (calm t)
          ≡ (ok resp, calm t))
        × IsAccepted f x s.tree.tree.root resp
  download-IsAccepted t d now timestamp f x s valid fresh =
      download-of_IsAnswering (database_storage str_leb) (calm t) d now timestamp f x s.tree.tree
        (IsServed-IsAnswering t d f x s) valid fresh
