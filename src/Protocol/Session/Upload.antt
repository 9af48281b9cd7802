-- ===== src/Protocol/Session/Upload.antt =====
-- The upload command of bin/client/src/upload.rs from the directory to the root hash on the client's
-- disk, against the server over the database.
use verifiable_storage.Prelude.{
  ℕ, ◌≡◌, ◌≢◌, refl, ◌∙◌, sym, subst, Bool, Option, some, true, List, [], ◌∷◌, arith, All, map, ltb,
  length,
}
use verifiable_storage.Prelude.Result.{ok}
use verifiable_storage.Prelude.Text.{Bytes, Str, as_bytes}
use verifiable_storage.Prelude.Dict.{str_eq, lookup, insert, lookup-insert_self}
use verifiable_storage.Crates.{Crates, IsLawful}
use verifiable_storage.Merkle.{root_hash}
use verifiable_storage.Disk.{create_dir_all, write}
use verifiable_storage.Disk.Laws.{sound}
use verifiable_storage.Disk.Paths.{lookup-insert_other}
use verifiable_storage.Common.Filename.{validate_filename}
use verifiable_storage.Storage.Tables.{Tables}
use verifiable_storage.Storage.Filesystem.Batch.{Batch}
use verifiable_storage.Storage.Batches.{HoldsBatch}
use verifiable_storage.Storage.Directory.{IsStrict, put_all-append, from_data-of_IsTreeFor}
use verifiable_storage.Server.Checks.{validate_timestamp_default}
use verifiable_storage.Server.Upload.{UploadForm}
use verifiable_storage.Client.{client_io}
use verifiable_storage.Client.Files.{
  FileUploader, DirEntry, read_files_from_directory, encrypt_files,
}
use verifiable_storage.Client.Keypair.Held.{HoldsKey, insert-HoldsKey}
use verifiable_storage.Client.Upload.{upload_from_directory, save_upload_metadata}
use verifiable_storage.Client.Paths.{
  root_path, names_path, not_key_file, root_path-ne-names_path, key_file-ne-names_path,
}
use verifiable_storage.Protocol.Forms.{client_of}
use verifiable_storage.Protocol.Remote.{post_form}
use verifiable_storage.Protocol.Session.Directory.{IsDistinct, read_files_from_directory-IsStrict}
use verifiable_storage.Protocol.Session.Encrypted.{
  encrypt_files-Encrypted, Encrypted-All, Encrypted-IsStrict,
}
use verifiable_storage.Protocol.Session.Uploads.{
  serving, IsFitting, IsTaken, All-IsTaken, IsWelcome, IsSynced, upload_files_to_server-IsSynced,
}

module _ ⦃K : Crates⦄ (u : FileUploader) where
  -- The server holds these files of the batch, in order, and the client its key and the root hash of
  -- them.
  pub record IsReady (t : Tables) (w : Batch) (files : List (Str × Bytes)) : Type 0 where
    pub key : HoldsKey u.data_dir u.signing_key files
    pub synced : IsSynced u t w
    pub strict : IsStrict w
    pub root :
        lookup (root_path u.data_dir u.batch_id) files
        ≡ some (as_bytes (K.hex_encode synced.tree.tree.root))

  -- What the record of an upload leaves on the disk.
  abbrev with_metadata : Bytes → Bytes → List (Str × Bytes) → List (Str × Bytes)
  with_metadata root names files =
      insert (names_path u.data_dir u.batch_id) names
        (insert (root_path u.data_dir u.batch_id) root files)

  with_metadata-IsReady :
      (t : Tables) (w : Batch) (files : List (Str × Bytes)) (names : Bytes) (s : IsSynced u t w)
      → IsStrict w
      → HoldsKey u.data_dir u.signing_key files
      → IsReady t w (with_metadata (as_bytes (K.hex_encode s.tree.tree.root)) names files)
  with_metadata-IsReady t w files names s strict held =
      let root = as_bytes (K.hex_encode s.tree.tree.root) in
      let path = root_path u.data_dir u.batch_id in
      record {
        key =
            insert-HoldsKey u.data_dir u.signing_key (names_path u.data_dir u.batch_id) names
              (insert path root files) (key_file-ne-names_path u.data_dir u.batch_id)
              (insert-HoldsKey u.data_dir u.signing_key path root files
                (λ e. not_key_file u.data_dir u.batch_id (sym e)) held);
        synced = s;
        strict = strict;
        root =
            lookup-insert_other path (names_path u.data_dir u.batch_id) names
              (insert path root files) (root_path-ne-names_path u.data_dir u.batch_id)
            ∙ lookup-insert_self path root files;
      }

  module _ (L : IsLawful K) (accepts : UploadForm → Bool) (to_string_pretty : List Str → Str) where
    -- The run after the directory has been read and encrypted.
    upload_encrypted :
        (entries : List DirEntry) (p q : Str × Bytes) (v w : Batch) (t : Tables)
        (now : ℕ → Option ℕ) (clock : ℕ → ℕ) (files : List (Str × Bytes))
        → read_files_from_directory (some entries) ≡ ok (p ∷ v)
        → encrypt_files u (p ∷ v) ≡ ok (q ∷ w)
        → IsStrict (q ∷ w)
        → All (IsTaken u accepts) (q ∷ w)
        → HoldsBatch (client_of u) u.batch_id t []
        → IsWelcome u t
        → ((i : ℕ) → validate_timestamp_default (now i) (clock i) ≡ ok tt)
        → HoldsKey u.data_dir u.signing_key files
        → (t' : Tables) × (now' : ℕ → Option ℕ) × (files' : List (Str × Bytes)) × (ready : IsReady
            t'
            (q ∷ w)
            files')
          × (upload_from_directory to_string_pretty
                (post_form u.server accepts)
                u
                clock
                (some entries)
                (serving t now, sound files)
              ≡ (ok (K.hex_encode ready.synced.tree.tree.root), (serving t' now', sound files')))
    unfolding upload_from_directory root_hash save_upload_metadata create_dir_all write
        with_metadata-IsReady
    upload_encrypted entries p q v w t now clock files read encrypted strict taken new welcome fresh
          held =
        let (t', now', uploaded, s₀) =
          upload_files_to_server-IsSynced u L accepts q w t [] now clock new welcome taken fresh in
        let s : IsSynced u t' (q ∷ w) =
          subst (IsSynced u t') (put_all-append (q ∷ w) [] strict) s₀ in
        let made =
          from_data-of_IsTreeFor (client_of u) u.batch_id t' (q ∷ w) s.tree strict s.held in
        let some_files : ltb 0 (length (p ∷ v)) ≡ true = ground arith in
        let root = as_bytes (K.hex_encode s.tree.tree.root) in
        let names = as_bytes (to_string_pretty (map (λ (f : Str × Bytes). f.0) (p ∷ v))) in
        (
          t',
          now',
          with_metadata root names files,
          with_metadata-IsReady t' (q ∷ w) files names s strict held,
          rw (read, some_files, encrypted, made, uploaded) refl,
        )

    -- A directory with files, whose entries have different names, that can be read and encrypted: into
    -- a new batch of a client that may be registered, while nothing fails, all files are uploaded. The
    -- server then holds the encrypted files with their tree, and the client's disk the root hash of it.
    pub upload_from_directory-IsReady :
        (entries : List DirEntry) (v w : Batch) (t : Tables) (now : ℕ → Option ℕ) (clock : ℕ → ℕ)
        (files : List (Str × Bytes))
        → read_files_from_directory (some entries) ≡ ok v
        → v ≢ []
        → encrypt_files u v ≡ ok w
        → IsDistinct entries
        → All (IsFitting u accepts) w
        → HoldsBatch (client_of u) u.batch_id t []
        → IsWelcome u t
        → ((i : ℕ) → validate_timestamp_default (now i) (clock i) ≡ ok tt)
        → HoldsKey u.data_dir u.signing_key files
        → (t' : Tables) × (now' : ℕ → Option ℕ) × (files' : List (Str × Bytes)) × (ready : IsReady
            t' w files')
          × (upload_from_directory to_string_pretty
                (post_form u.server accepts)
                u
                clock
                (some entries)
                (serving t now, sound files)
              ≡ (ok (K.hex_encode ready.synced.tree.tree.root), (serving t' now', sound files')))
    upload_from_directory-IsReady entries [] w t now clock files read some_file encrypted distinct
          fitting =
        absurd (some_file refl)
    upload_from_directory-IsReady entries (p ∷ v) [] t now clock files read some_file encrypted
          distinct fitting =
        absurd (encrypt_files-Encrypted u (p ∷ v) [] encrypted)
    upload_from_directory-IsReady entries (p ∷ v) (q ∷ w) t now clock files read some_file encrypted
          distinct fitting =
        let (strict, valid) = read_files_from_directory-IsStrict entries (p ∷ v) read distinct in
        let e = encrypt_files-Encrypted u (p ∷ v) (q ∷ w) encrypted in
        let valid' = Encrypted-All u (λ f. validate_filename f ≡ ok tt) (p ∷ v) (q ∷ w) e valid in
        upload_encrypted entries p q v w t now clock files read encrypted
          (Encrypted-IsStrict u (p ∷ v) (q ∷ w) e strict)
          (All-IsTaken u accepts (q ∷ w) valid' fitting)
