-- ===== src/Client/Keypair/Laws.antt =====
-- What the commands on the keys guarantee on the disk.
use verifiable_storage.Prelude.{
  ◌≡◌, refl, ◌∙◌, Bool, true, false, not, ◌&&◌, Option, none, some, List, [], ◌∷◌, ◌++◌, All,
  length, if◌then◌else◌, ◌==◌,
}
use verifiable_storage.Prelude.Result.{ok, err}
use verifiable_storage.Prelude.Text.{Bytes, Str, as_bytes}
use verifiable_storage.Prelude.Dict.{str_eq, lookup, insert, remove, lookup-insert_self}
use verifiable_storage.Disk.{
  Outcome, works, fails, breaks, Disk, is_file, create_dir_all, write, exists, remove_file,
}
use verifiable_storage.Disk.Laws.{sound}
use verifiable_storage.Prelude.Exec.{◌>>=◌, pure}
use verifiable_storage.Disk.Paths.{lookup-insert-join}
use verifiable_storage.Crates.{Crates, IsLawful, IsByte}
use verifiable_storage.Crypto
use verifiable_storage.Crypto.{Keypair, compute_client_id}
use verifiable_storage.Client.Keypair.Held.{HoldsKey, get_or_create_keypair-HoldsKey}
use verifiable_storage.Common.FilePath.{IsPlain, join}
use verifiable_storage.Client.{ClientError, client_io, keypair_exists, io_failed}
use verifiable_storage.Client.Config.{key_file, client_id_file, get_key_file_path}
use verifiable_storage.Client.Keypair.{
  generate_keypair, get_or_create_keypair, save_keypair, save_client_id, remove_existing_keypair,
}

remove_id-sound :
    (path : Str) (o : Option Bytes) (files : List (Str × Bytes))
    → lookup path files ≡ o
    → (files' : List (Str × Bytes)) × ((if is_file o
            then remove_file {E = ClientError} path
            else pure tt)
          (sound files)
        ≡ (ok tt, sound files'))
unfolding remove_file
remove_id-sound path none files h = (files, refl)
remove_id-sound path (some content) files h = (remove path files, rw h refl)

remove_existing_keypair-sound :
    (data_dir path : Str) (key : Bytes) (files : List (Str × Bytes))
    → lookup path files ≡ some key
    → (files' : List (Str × Bytes)) × (remove_existing_keypair data_dir path (sound files)
        ≡ (ok tt, sound files'))
unfolding remove_existing_keypair remove_file exists
remove_existing_keypair-sound data_dir path key files h =
    let rest = remove path files in
    let (files', e) =
      remove_id-sound (join data_dir client_id_file) (lookup (join data_dir client_id_file) rest)
        rest refl in
    (files', rw h e)

-- The removal before new keys are saved.
cleared :
    (data_dir path : Str) (force : Bool) (o : Option Bytes) (files : List (Str × Bytes))
    → lookup path files ≡ o
    → (files' : List (Str × Bytes)) × ((if force
            then (do
              again ← exists {E = ClientError} path
              (if again then remove_existing_keypair data_dir path else pure tt))
            else pure tt)
          (sound files)
        ≡ (ok tt, sound files'))
unfolding exists
cleared data_dir path false o files h = (files, refl)
cleared data_dir path true none files h = (files, rw h refl)
cleared data_dir path true (some key) files h =
    let (files', e) = remove_existing_keypair-sound data_dir path key files h in (files', rw h e)

pub key_file-IsPlain : IsPlain key_file
key_file-IsPlain = record {
  ne_nil = λ e. cc;
  ne_dot = λ e. cc;
  ne_dotdot = λ e. cc;
  no_slash = refl;
}

pub client_id_file-IsPlain : IsPlain client_id_file
client_id_file-IsPlain = record {
  ne_nil = λ e. cc;
  ne_dot = λ e. cc;
  ne_dotdot = λ e. cc;
  no_slash = refl;
}

files_differ : (client_id_file == key_file) ≡ false
unfolding ◌==◌
files_differ = refl

-- Saving the identifier leaves the key.
key_saved :
    (data_dir : Str) (key id : Bytes) (files : List (Str × Bytes))
    → lookup
        (join data_dir key_file)
        (insert (join data_dir client_id_file) id (insert (join data_dir key_file) key files))
      ≡ some key
key_saved data_dir key id files =
    lookup-insert-join data_dir client_id_file key_file id
      (insert (join data_dir key_file) key files) client_id_file-IsPlain key_file-IsPlain
    ∙ rw files_differ (lookup-insert_self (join data_dir key_file) key files)

module _ ⦃K : Crates⦄ (data_dir : Str) (random : Bytes) where
  -- Without `--force` and with a key file on the disk: if the call that looks for the file works,
  -- then the command fails and all files stay, whatever becomes of the other calls; if it alone fails,
  -- then the command succeeds and the new key stands in place of the old one.
  pub generate_keypair-keeps :
      (files : List (Str × Bytes)) (key : Bytes)
      → lookup (get_key_file_path data_dir) files ≡ some key
      → ((first : Outcome) (rest : List Outcome)
          → (e : ClientError) × (d' : Disk) × (generate_keypair data_dir random false
                (record { files = files; outcomes = first ∷ works ∷ rest })
              ≡ (err e, d'))
            × (d'.files ≡ files))
        × ((d' : Disk) × (generate_keypair data_dir random false
                (record { files = files; outcomes = works ∷ fails ∷ [] })
              ≡ (ok tt, d'))
            × (lookup (get_key_file_path data_dir) d'.files
                ≡ some (as_bytes (K.hex_encode (random ++ K.verifying_key random)))))
  unfolding generate_keypair create_dir_all exists save_keypair save_client_id write
      get_key_file_path Crypto.generate_keypair
  generate_keypair-keeps files key h = (keeps, (replaced, refl, saved))
    where
      keeps :
          (first : Outcome) (rest : List Outcome)
          → (e : ClientError) × (d' : Disk) × (generate_keypair data_dir random false
                (record { files = files; outcomes = first ∷ works ∷ rest })
              ≡ (err e, d'))
            × (d'.files ≡ files)
      keeps works rest =
          (keypair_exists, record { files = files; outcomes = rest }, rw h refl, refl)
      keeps fails rest = (io_failed, record { files = files; outcomes = works ∷ rest }, refl, refl)
      keeps (breaks n) rest =
          (io_failed, record { files = files; outcomes = works ∷ rest }, refl, refl)

      new_key : Bytes
      new_key = as_bytes (K.hex_encode (random ++ K.verifying_key random))

      new_id : Bytes
      new_id = as_bytes (compute_client_id (K.verifying_key random))

      replaced : Disk
      replaced = sound (
          insert (join data_dir client_id_file) new_id
            (insert (join data_dir key_file) new_key files))

      saved : lookup (join data_dir key_file) replaced.files ≡ some new_key
      saved = key_saved data_dir new_key new_id files

module _ ⦃K : Crates⦄ (L : IsLawful K) (data_dir : Str) (random : Bytes) where
  -- The key that is generated is held, with its identifier in its file.
  pub generate_keypair-HoldsKey :
      (force : Bool) (files : List (Str × Bytes))
      → length random ≡ 32
      → All IsByte random
      → (is_file (lookup (get_key_file_path data_dir) files) && not force) ≡ false
      → (files' : List (Str × Bytes)) × (generate_keypair data_dir random force (sound files)
          ≡ (ok tt, sound files'))
        × HoldsKey data_dir random files'
        × (lookup (join data_dir client_id_file) files'
            ≡ some (as_bytes (compute_client_id (K.verifying_key random))))
  unfolding generate_keypair create_dir_all exists save_keypair save_client_id write
      get_key_file_path Crypto.generate_keypair
  generate_keypair-HoldsKey force files len bytes allowed =
      let path = join data_dir key_file in
      let id_path = join data_dir client_id_file in
      let id = compute_client_id (K.verifying_key random) in
      let pair = random ++ K.verifying_key random in
      let (base, e) = cleared data_dir path force (lookup path files) files refl in
      let fs₁ = insert path (as_bytes (K.hex_encode pair)) base in
      let fs₂ = insert id_path (as_bytes id) fs₁ in
      let found : lookup path fs₂ ≡ some (as_bytes (K.hex_encode pair)) =
        key_saved data_dir (as_bytes (K.hex_encode pair)) (as_bytes id) base in
      (
        fs₂,
        rw (allowed, e) refl,
        record { width = len; bytes = bytes; file = found },
        lookup-insert_self id_path (as_bytes id) fs₁,
      )

  -- Where there is no key file or `--force` is given, and while nothing fails, the command succeeds;
  -- what is then loaded by any later run is the new key with its identifier, and loading changes
  -- nothing. The identifier is in its file.
  pub get_or_create_keypair-generate_keypair :
      (random' : Bytes) (force : Bool) (files : List (Str × Bytes))
      → length random ≡ 32
      → All IsByte random
      → (is_file (lookup (get_key_file_path data_dir) files) && not force) ≡ false
      → (files' : List (Str × Bytes)) × (generate_keypair data_dir random force (sound files)
          ≡ (ok tt, sound files'))
        × (get_or_create_keypair data_dir random' (sound files')
            ≡ (ok (random, compute_client_id (K.verifying_key random)), sound files'))
        × (lookup (join data_dir client_id_file) files'
            ≡ some (as_bytes (compute_client_id (K.verifying_key random))))
  get_or_create_keypair-generate_keypair random' force files len bytes allowed =
      let (files', made, held, id) = generate_keypair-HoldsKey force files len bytes allowed in
      (files', made, get_or_create_keypair-HoldsKey data_dir random L random' files' held, id)
