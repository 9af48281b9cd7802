-- ===== src/Protocol/Session/Runs.antt =====
-- The commands of bin/client/src/main.rs one after another, against the server over the database.
use mathlib.Core.List.{Memᴰ}
use verifiable_storage.Prelude.{
  ℕ, ◌≡◌, ◌≢◌, refl, ◌∙◌, Bool, Option, none, some, List, [], All, map,
}
use verifiable_storage.Prelude.Result.{ok}
use verifiable_storage.Prelude.Text.{Bytes, Str, as_bytes}
use verifiable_storage.Prelude.Dict.{str_eq, lookup, insert, lookup-insert_self}
use verifiable_storage.Prelude.Exec.{Exec}
use verifiable_storage.Crates.{Crates, IsLawful}
use verifiable_storage.Crypto.Laws.{decrypt_file-encrypt_file}
use verifiable_storage.Merkle.Soundness.{root-IsByte}
use verifiable_storage.Disk.{create_dir_all, write}
use verifiable_storage.Disk.Laws.{sound}
use verifiable_storage.Disk.Paths.{lookup-insert_other}
use verifiable_storage.Common.Filename.{validate_filename}
use verifiable_storage.Common.FilePath.{join}
use verifiable_storage.Storage.Tables.{Tables}
use verifiable_storage.Storage.Filesystem.Batch.{Batch}
use verifiable_storage.Storage.Batches.{HoldsBatch}
use verifiable_storage.Storage.Directory.{IsStrict-lookup, from_data-of_IsTreeFor}
use verifiable_storage.Server.Checks.{validate_timestamp_default}
use verifiable_storage.Server.Upload.{UploadForm}
use verifiable_storage.Client.{ClientError, client_io}
use verifiable_storage.Client.Config
use verifiable_storage.Client.Config.{get_server_url, get_key_file_path, client_id_file}
use verifiable_storage.Client.Files.{
  FileUploader, DirEntry, read_files_from_directory, encrypt_files,
}
use verifiable_storage.Client.Paths.{root_path, key_file-ne-client_id_file, not_client_id_file}
use verifiable_storage.Client.Keypair.Held.{
  HoldsKey, insert-HoldsKey, get_or_create_keypair-HoldsKey,
}
use verifiable_storage.Client.Download.{Server, output_path, request_file_proof}
use verifiable_storage.Client.Main.{
  Commands, upload_command, download_command, dispatch, with_keys, main,
}
use verifiable_storage.Protocol.Download.{IsServed, download-IsAccepted}
use verifiable_storage.Protocol.Forms.{client_of}
use verifiable_storage.Protocol.Upload.{downloader}
use verifiable_storage.Protocol.Remote.{post_form, send_query, send_query-download}
use verifiable_storage.Protocol.Session.Directory.{IsDistinct}
use verifiable_storage.Protocol.Session.Encrypted.{encrypt_files-Encrypted, Encrypted-Memᴰ}
use verifiable_storage.Protocol.Session.Uploads.{serving, IsFitting, IsWelcome}
use verifiable_storage.Protocol.Session.Upload.{IsReady, upload_from_directory-IsReady}
use verifiable_storage.Protocol.Session.Download.{downloaded, saved_root_download}

-- The uploads of a client with this key to this batch.
abbrev pub uploader : (Str → Option Str) → Option Str → Str → Bytes → FileUploader
uploader var server batch_id key = record {
  server = get_server_url (Config.load var) server;
  batch_id = batch_id;
  signing_key = key;
  data_dir = (Config.load var).data_dir;
}

module _ ⦃K : Crates⦄ (L : IsLawful K) (to_string_pretty : List Str → Str) (var : Str → Option Str)
    (server : Option Str) (batch_id : Str) (key : Bytes) where
  abbrev self : FileUploader
  self = uploader var server batch_id key

  abbrev id_path : Str
  id_path = join self.data_dir client_id_file

  -- The disk with the identifier of the client, which each command writes.
  abbrev with_id : List (Str × Bytes) → List (Str × Bytes)
  with_id files = insert id_path (as_bytes (client_of self)) files

  with_id-HoldsKey :
      (files : List (Str × Bytes))
      → HoldsKey self.data_dir key files
      → HoldsKey self.data_dir key (with_id files)
  with_id-HoldsKey files h =
      insert-HoldsKey self.data_dir key id_path (as_bytes (client_of self)) files
        (key_file-ne-client_id_file self.data_dir) h

  module _ {S : Type 0} (post : Str → UploadForm → Exec ClientError S (Unit {0}))
      (respond : Server) where
    -- What comes before a command succeeds.
    with_keys-HoldsKey :
        (random : Bytes) (clock : ℕ → ℕ) (command : Commands) (s : S) (files : List (Str × Bytes))
        → HoldsKey self.data_dir key files
        → with_keys to_string_pretty post respond
            (Config.load var)
            random
            clock
            command
            (s, sound files)
          ≡ dispatch to_string_pretty post respond
              (Config.load var)
              key
              (client_of self)
              clock
              command
              (s, sound (with_id files))
    unfolding with_keys create_dir_all write
    with_keys-HoldsKey random clock command s files h =
        rw (get_or_create_keypair-HoldsKey self.data_dir key L random files h) refl

  module _ (accepts : UploadForm → Bool) where
    -- The upload command leaves the batch with the server, ready to be downloaded.
    pub main-upload :
        (respond : Server) (entries : List DirEntry) (v w : Batch) (t : Tables) (now : ℕ → Option ℕ)
        (random : Bytes) (clock : ℕ → ℕ) (files : List (Str × Bytes))
        → read_files_from_directory (some entries) ≡ ok v
        → v ≢ []
        → encrypt_files self v ≡ ok w
        → IsDistinct entries
        → All (IsFitting self accepts) w
        → HoldsBatch (client_of self) batch_id t []
        → IsWelcome self t
        → ((i : ℕ) → validate_timestamp_default (now i) (clock i) ≡ ok tt)
        → HoldsKey self.data_dir key files
        → (t' : Tables) × (now' : ℕ → Option ℕ) × (files' : List (Str × Bytes)) × (main
              to_string_pretty
              (post_form self.server accepts)
              respond
              var
              random
              clock
              (upload_command (some entries) server batch_id)
              (serving t now, sound files)
            ≡ (ok tt, (serving t' now', sound files')))
          × IsReady self t' w files'
    unfolding main dispatch
    main-upload respond entries v w t now random clock files read some_file encrypted distinct
          fitting new welcome fresh held =
        let (t', now', files', ready, uploaded) =
          upload_from_directory-IsReady self L accepts to_string_pretty entries v w t now clock
            (with_id files) read some_file encrypted distinct fitting new welcome fresh
            (with_id-HoldsKey files held) in
        let started =
          with_keys-HoldsKey (post_form self.server accepts) respond random clock
            (upload_command (some entries) server batch_id) (serving t now) files held in
        (t', now', files', started ∙ rw uploaded refl, ready)

  module _ {S : Type 0} (post : Str → UploadForm → Exec ClientError S (Unit {0})) where
    -- The download command leaves the plaintext of the file on the disk.
    pub main-download :
        (s : S) (v w : Batch) (t : Tables) (now : ℕ → Option ℕ) (random : Bytes) (clock : ℕ → ℕ)
        (files : List (Str × Bytes)) (f : Str) (x : Bytes) (output_dir : Option Str)
        → IsReady self t w files
        → encrypt_files self v ≡ ok w
        → validate_filename f ≡ ok tt
        → Memᴰ (f, x) v
        → validate_timestamp_default (now 0) (clock 0) ≡ ok tt
        → (files' : List (Str × Bytes)) × (main to_string_pretty post
              (send_query self.server (serving t now))
              var
              random
              clock
              (download_command f batch_id server none output_dir)
              (s, sound files)
            ≡ (ok tt, (s, sound files')))
          × (lookup (join (output_path (downloader self) output_dir) f) files' ≡ some x)
    unfolding main dispatch
    main-download s v w t now random clock files f x output_dir ready encrypted valid m fresh =
        let d = downloader self in
        let tree = ready.synced.tree in
        let (c, found, hidden) =
          Encrypted-Memᴰ self (λ q. lookup q.0 w ≡ some q.1) v w (f, x)
            (encrypt_files-Encrypted self v w encrypted) (IsStrict-lookup w ready.strict) m in
        let served : IsServed t d f c = record {
          known = ready.synced.known;
          batch = ready.synced.batch;
          stored = ready.synced.held.contents f ∙ found;
          tree = tree;
        } in
        let (resp, answered, accepted) =
          download-IsAccepted L t d (now 0) (clock 0) f c served valid fresh in
        let bytes = root-IsByte L (map (λ (q : Str × Bytes). q.1) w) tree.tree (
          from_data-of_IsTreeFor (client_of self) batch_id t w tree ready.strict
            ready.synced.held) in
        let there =
          lookup-insert_other (root_path self.data_dir batch_id) id_path (as_bytes (client_of self))
            files (not_client_id_file self.data_dir batch_id)
          ∙ ready.root in
        let received : request_file_proof (send_query self.server (serving t now)) d (clock 0) f
            ≡ ok resp =
          unfold request_file_proof in send_query-download self.server _ resp t now answered in
        let ran =
          saved_root_download L (send_query self.server (serving t now)) d (clock 0) f c x
            tree.tree.root resp output_dir (with_id files) valid received accepted
            (decrypt_file-encrypt_file L key f batch_id x c hidden) bytes there in
        let started =
          with_keys-HoldsKey post (send_query self.server (serving t now)) random clock
            (download_command f batch_id server none output_dir) s files ready.key in
        let path = join (output_path d output_dir) f in
        (
          downloaded d f output_dir c x (with_id files),
          started ∙ rw ran refl,
          lookup-insert_self path x _,
        )
