-- ===== src/Client/Keypair/Held.antt =====
-- bin/client/src/keypair.rs: the key that a client's disk holds.
use verifiable_storage.Prelude.{◌≡◌, ◌≢◌, refl, ◌∙◌, some, List, [], ◌∷◌, ◌++◌, All, length}
use verifiable_storage.Prelude.Result.{ok}
use verifiable_storage.Prelude.Text.{Bytes, Str, as_bytes}
use verifiable_storage.Prelude.Dict.{str_eq, lookup, insert}
use verifiable_storage.Disk.{create_dir_all, exists}
use verifiable_storage.Disk.Laws.{sound, read_to_string-sound}
use verifiable_storage.Disk.Paths.{lookup-insert_other}
use verifiable_storage.Crates.{Crates, IsLawful, IsByte}
use verifiable_storage.Crypto
use verifiable_storage.Crypto.{Keypair, compute_client_id}
use verifiable_storage.Crypto.Laws.{load_or_generate_keypair-reload}
use verifiable_storage.Client.{client_io}
use verifiable_storage.Client.Config.{get_key_file_path}
use verifiable_storage.Client.Keypair.{get_or_create_keypair, load_or_generate}

append-IsByte : (b c : Bytes) → All IsByte b → All IsByte c → All IsByte (b ++ c)
append-IsByte [] c hb hc = hc
append-IsByte (x ∷ b) c hb hc = (hb.0, append-IsByte b c hb.1 hc)

module _ ⦃K : Crates⦄ (data_dir : Str) (key : Bytes) where
  -- The key file holds the pair of the key.
  pub record HoldsKey (files : List (Str × Bytes)) : Type 0 where
    pub width : length key ≡ 32
    pub bytes : All IsByte key
    pub file :
        lookup (get_key_file_path data_dir) files
        ≡ some (as_bytes (K.hex_encode (key ++ K.verifying_key key)))

  -- It stays when another file is written.
  pub insert-HoldsKey :
      (path : Str) (x : Bytes) (files : List (Str × Bytes))
      → get_key_file_path data_dir ≢ path
      → HoldsKey files
      → HoldsKey (insert path x files)
  insert-HoldsKey path x files other h = record {
    width = h.width;
    bytes = h.bytes;
    file = lookup-insert_other (get_key_file_path data_dir) path x files other ∙ h.file;
  }

  -- It is the one that is loaded, and loading changes nothing.
  pub get_or_create_keypair-HoldsKey :
      (L : IsLawful K) (random : Bytes) (files : List (Str × Bytes))
      → HoldsKey files
      → get_or_create_keypair data_dir random (sound files)
        ≡ (ok (key, compute_client_id (K.verifying_key key)), sound files)
  unfolding get_or_create_keypair load_or_generate create_dir_all exists Crypto.generate_keypair
  get_or_create_keypair-HoldsKey L random files h =
      let pair = key ++ K.verifying_key key in
      let keys : Keypair = record {
        signing_key = key;
        public_key = K.verifying_key key;
        client_id = compute_client_id (K.verifying_key key);
      } in
      let reload =
        load_or_generate_keypair-reload L key random keys (some (K.hex_encode pair)) h.width
          (unfold Crypto.load_or_generate_keypair in refl) in
      let scalar =
        L.hex_scalar pair
          (append-IsByte key (K.verifying_key key) h.bytes (L.verifying_key_bytes key)) in
      rw
        (
          h.file,
          read_to_string-sound (get_key_file_path data_dir) (K.hex_encode pair) files h.file scalar,
          reload,
        )
        refl
