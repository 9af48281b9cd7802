-- ===== src/Storage/Filesystem/Keys.antt =====
-- The keys of the clients on a disk on which nothing fails.
use verifiable_storage.Prelude.{◌≡◌, refl, none, some, List, All}
use verifiable_storage.Prelude.Result.{ok}
use verifiable_storage.Prelude.Text.{Bytes, Str, as_bytes}
use verifiable_storage.Prelude.Dict.{str_eq, lookup, insert, lookup-insert_self}
use verifiable_storage.Disk.{create_dir_all, write, exists}
use verifiable_storage.Crates.{Crates, IsLawful, IsByte}
use verifiable_storage.Storage.Metadata.{Json}
use verifiable_storage.Storage.Filesystem.{public_key_path, store_public_key, load_public_key}
use verifiable_storage.Disk.Laws.{sound, read_to_string-sound}

module _ ⦃K : Crates⦄ ⦃J : Json⦄ (L : IsLawful K) (data_dir : Str) where
  pub load_public_key-sound :
      (files : List (Str × Bytes)) (client_id : Str) (key : Bytes)
      → All IsByte key
      → lookup (public_key_path data_dir client_id) files ≡ some (as_bytes (K.hex_encode key))
      → load_public_key data_dir client_id (sound files) ≡ (ok (some key), sound files)
  unfolding load_public_key exists
  load_public_key-sound files client_id key bytes written =
      let path = public_key_path data_dir client_id in
      rw
        (
          written,
          read_to_string-sound path (K.hex_encode key) files written (L.hex_scalar key bytes),
          L.hex_trim key,
          L.hex_round key,
        )
        refl

  pub load_public_key-missing :
      (files : List (Str × Bytes)) (client_id : Str)
      → lookup (public_key_path data_dir client_id) files ≡ none
      → load_public_key data_dir client_id (sound files) ≡ (ok none, sound files)
  unfolding load_public_key exists
  load_public_key-missing files client_id missing = rw missing refl

  pub store_public_key-sound :
      (files : List (Str × Bytes)) (client_id : Str) (key : Bytes)
      → store_public_key data_dir client_id key (sound files) ≡ (
        ok tt,
        sound (insert (public_key_path data_dir client_id) (as_bytes (K.hex_encode key)) files),
      )
  unfolding store_public_key create_dir_all write
  store_public_key-sound files client_id key = refl

  -- The key that is stored for a client is the one that is loaded for it; while nothing fails, both
  -- succeed.
  pub load_public_key-store_public_key :
      (files : List (Str × Bytes)) (client_id : Str) (key : Bytes)
      → All IsByte key
      → (files' : List (Str × Bytes)) × (store_public_key data_dir client_id key (sound files)
          ≡ (ok tt, sound files'))
        × (load_public_key data_dir client_id (sound files') ≡ (ok (some key), sound files'))
  load_public_key-store_public_key files client_id key bytes =
      let path = public_key_path data_dir client_id in
      let files' = insert path (as_bytes (K.hex_encode key)) files in
      (
        files',
        store_public_key-sound files client_id key,
        load_public_key-sound files' client_id key bytes
            (lookup-insert_self path (as_bytes (K.hex_encode key)) files),
      )
