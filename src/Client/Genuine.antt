-- ===== src/Client/Genuine.antt =====
-- The download command from its start, with the root hash that an upload has left.
use mathlib.Core.Option.{some-injective}
use verifiable_storage.Prelude.{ℕ, ◌≡◌, ap, ◌∙◌, sym, subst, Option, none, some, List, All}
use verifiable_storage.Prelude.Result
use verifiable_storage.Prelude.Result.{Result, ok, err, panic, ok_inj}
use verifiable_storage.Prelude.Text.{Bytes, Str, as_bytes, trim}
use verifiable_storage.Prelude.Utf8.{from_utf8, from_utf8-as_bytes}
use verifiable_storage.Prelude.Dict.{str_eq, lookup}
use verifiable_storage.Prelude.Exec.{Exec, ◌>>=◌, >>=-ok, lift-ok, require-ok}
use verifiable_storage.Common.FilePath.{join}
use verifiable_storage.Common.Filename.{validate_filename}
use verifiable_storage.Disk.{Disk, create_dir_all, write, exists, read_to_string}
use verifiable_storage.Disk.Laws.{exists-ok, create_dir_all-ok, write-ok, read_to_string-ok}
use verifiable_storage.Disk.Paths.{lookup-insert_other}
use verifiable_storage.Crates.{Crates, IsLawful, IsByte}
use verifiable_storage.Merkle.{MerkleTree, from_data}
use verifiable_storage.Merkle.Soundness.{root-IsByte}
use verifiable_storage.Server.Upload.{UploadForm}
use verifiable_storage.Client.{ClientError, client_io, invalid_filename, root_hash_not_found}
use verifiable_storage.Client.Config
use verifiable_storage.Client.Config.{
  get_key_file_path, get_server_url, client_id_file, key_file, root_hash_file,
}
use verifiable_storage.Client.Keypair.{get_or_create_keypair}
use verifiable_storage.Client.RootHash.{load_root_hash}
use verifiable_storage.Client.Upload.{on_disk}
use verifiable_storage.Client.Download.{FileDownloader, Server, download_and_verify, download_file}
use verifiable_storage.Client.Saved.{IsGenuine, download_and_verify-IsGenuine}
use verifiable_storage.Client.Main.{
  download_command, expect, root_hash_or_saved, dispatch, with_keys, main,
}
use verifiable_storage.Client.Paths.{root_path, not_key_file, not_client_id_file}
use verifiable_storage.Client.Runs.{on_disk-ok, get_or_create_keypair-keeps}

expect-ok :
    {S A : Type 0} (o : Result ClientError A × S) (a : A) (s : S)
    → expect o ≡ (ok a, s)
    → o ≡ (ok a, s)
expect-ok (ok b, t) a s h = h
expect-ok (err e, t) a s h = absurd (cc)
expect-ok (panic, t) a s h = absurd (cc)

module _ ⦃K : Crates⦄ (L : IsLawful K) where
  -- The root hash that is loaded is the one in the file.
  load_root_hash-ok :
      (data_dir batch_id : Str) (root : Bytes) (d d' : Disk) (loaded : Str)
      → All IsByte root
      → lookup (root_path data_dir batch_id) d.files ≡ some (as_bytes (K.hex_encode root))
      → load_root_hash batch_id data_dir d ≡ (ok loaded, d')
      → loaded ≡ K.hex_encode root
  unfolding load_root_hash
  load_root_hash-ok data_dir batch_id root d d' loaded bytes there h =
      >>=-ok (exists (root_path data_dir batch_id)) _ {s = d} h λ found u stat h₁.
        let unchanged = (exists-ok (root_path data_dir batch_id) found d u stat).1 in
        require-ok found root_hash_not_found _ h₁ λ _ h₂.
          >>=-ok (read_to_string (root_path data_dir batch_id)) _ {s = u} h₂ λ read t got rest.
            let (content, held, decoded, _) =
              read_to_string-ok (root_path data_dir batch_id) read u t got in
            let same : content ≡ as_bytes (K.hex_encode root) =
              some-injective _ _
                (sym held ∙ ap (lookup (root_path data_dir batch_id)) unchanged ∙ there) in
            let read_eq : read ≡ K.hex_encode root = some-injective _ _ (
              sym decoded
              ∙ ap from_utf8 same
              ∙ from_utf8-as_bytes (K.hex_encode root) (L.hex_scalar root bytes)) in
            ok_inj (ap (λ (o : Result ClientError Str × Disk). o.0) (sym rest))
            ∙ ap trim read_eq
            ∙ L.hex_trim root

  -- A download against the root hash that is saved.
  saved_root-IsGenuine :
      (respond : Server) (c : FileDownloader) (now : ℕ) (filename : Str) (output_dir : Option Str)
      (items : List Bytes) (t : MerkleTree) (d d' : Disk)
      → from_data items ≡ ok t
      → lookup (root_path c.data_dir c.batch_id) d.files ≡ some (as_bytes (K.hex_encode t.root))
      → (root_hash_or_saved none c.batch_id c.data_dir >>= λ root.
            download_file respond c now filename root output_dir)
          d
        ≡ (ok tt, d')
      → IsGenuine L respond c now filename output_dir items t d'
  unfolding root_hash_or_saved download_file
  saved_root-IsGenuine respond c now filename output_dir items t d d' made there h =
      >>=-ok (root_hash_or_saved none c.batch_id c.data_dir)
        (λ root. download_file respond c now filename root output_dir) {s = d} h
        λ root u loaded h₁.
          let root_eq =
            load_root_hash-ok c.data_dir c.batch_id t.root d u root (root-IsByte L items t made)
              there (expect-ok _ root u loaded) in
          lift-ok (Result.map_err invalid_filename (validate_filename filename))
            (λ _. download_and_verify respond c now filename root output_dir) {s = u} h₁
            λ _ _ h₂.
              download_and_verify-IsGenuine L respond c now filename output_dir items t u d' made (
                subst (λ r. download_and_verify respond c now filename r output_dir u ≡ (ok tt, d'))
                  root_eq h₂)

  module _ (to_string_pretty : List Str → Str) {S : Type 0}
      (post : Str → UploadForm → Exec ClientError S (Unit {0})) (respond : Server) where
    -- Whatever the server answers: if the client's root hash of a batch is the one of the tree of some
    -- items, and its download command, without `--root-hash`, succeeds, then the file on disk is the
    -- plaintext, under this filename and batch and some key, of the content in the answer, and this
    -- content is one of the items, or there is a collision: two different byte strings with one digest,
    -- one of them hashed for the tree and one for the proof in the answer.
    pub main-IsGenuine :
        (var : Str → Option Str) (random : Bytes) (clock : ℕ → ℕ) (filename batch_id : Str)
        (server output_dir : Option Str) (items : List Bytes) (t : MerkleTree) (s s' : S)
        (d d' : Disk)
        → from_data items ≡ ok t
        → lookup (join (join (Config.load var).data_dir batch_id) root_hash_file) d.files
          ≡ some (as_bytes (K.hex_encode t.root))
        → main to_string_pretty post respond var random clock
            (download_command filename batch_id server none output_dir)
            (s, d)
          ≡ (ok tt, (s', d'))
        → (signing_key : Bytes) × (client_id : Str) × IsGenuine L respond
            (record {
              server = get_server_url (Config.load var) server;
              batch_id = batch_id;
              signing_key = signing_key;
              client_id = client_id;
              data_dir = (Config.load var).data_dir;
            })
            (clock 0)
            filename
            output_dir
            items
            t
            d'
    unfolding main with_keys dispatch
    main-IsGenuine var random clock filename batch_id server output_dir items t s s' d d' made there
          h =
        let dir = (Config.load var).data_dir in
        let path = root_path dir batch_id in
        >>=-ok (on_disk (get_or_create_keypair dir random)) _ {s = (s, d)} h λ keys st got h₁.
          >>=-ok (on_disk (create_dir_all dir)) _ {s = st} h₁ λ _ su made₂ h₂.
            >>=-ok (on_disk (write (join dir client_id_file) (as_bytes keys.1))) _ {s = su} h₂
              λ _ sv wrote h₃.
                let c : FileDownloader = record {
                  server = get_server_url (Config.load var) server;
                  batch_id = batch_id;
                  signing_key = keys.0;
                  client_id = keys.1;
                  data_dir = dir;
                } in
                let (got', _) =
                  on_disk-ok (get_or_create_keypair dir random) s st.0 d st.1 keys got in
                let (created, _) = on_disk-ok (create_dir_all dir) st.0 su.0 st.1 su.1 tt made₂ in
                let (written, _) =
                  on_disk-ok (write (join dir client_id_file) (as_bytes keys.1)) su.0 sv.0 su.1 sv.1
                    tt wrote in
                let kept : lookup path sv.1.files ≡ some (as_bytes (K.hex_encode t.root)) =
                  rw (write-ok (join dir client_id_file) (as_bytes keys.1) su.1 sv.1 written) (
                    lookup-insert_other path (join dir client_id_file) (as_bytes keys.1) su.1.files
                      (not_client_id_file dir batch_id))
                  ∙ ap (lookup path) (create_dir_all-ok dir st.1 su.1 created)
                  ∙ get_or_create_keypair-keeps random dir path d st.1 keys got'
                      (not_key_file dir batch_id)
                  ∙ there in
                let (ran, _) =
                  on_disk-ok
                    (root_hash_or_saved none batch_id dir >>= λ root.
                      download_file respond c (clock 0) filename root output_dir)
                    sv.0 s' sv.1 d' tt h₃ in
                (
                  keys.0,
                  keys.1,
                  saved_root-IsGenuine respond c (clock 0) filename output_dir items t sv.1 d' made
                      kept ran,
                )
