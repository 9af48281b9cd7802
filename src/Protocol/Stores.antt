-- ===== src/Protocol/Stores.antt =====
-- Uploads to a server with the file system storage, one after another, and downloads of what they have
-- left: the forms of bin/client/src/upload.rs, the handlers of bin/server/src/handlers over
-- crates/storage/src/filesystem.rs.
use verifiable_storage.Prelude.{
  ℕ, suc, ◌≡◌, refl, sym, ◌∙◌, Bool, true, false, ◌⊎◌, inl, inr, Option, none, some, List, [], ◌∷◌,
  map, All,
}
use verifiable_storage.Prelude.Result.{ok}
use verifiable_storage.Prelude.Exec.{Exec, ◌>>◌, pure}
use verifiable_storage.Prelude.Text.{Bytes, Str, as_bytes}
use verifiable_storage.Prelude.Dict.{str_eq, lookup, insert, lookup-insert_self}
use verifiable_storage.Disk.{Disk}
use verifiable_storage.Disk.Laws.{sound}
use verifiable_storage.Disk.Paths.{lookup-insert_other}
use verifiable_storage.Crates.{Crates, IsLawful}
use verifiable_storage.Merkle.{MerkleTree, from_data}
use verifiable_storage.Common.{DownloadResponse}
use verifiable_storage.Common.FilePath.{IsPlain, join}
use verifiable_storage.Common.Filename.{validate_filename_iff}
use verifiable_storage.Storage.Metadata.{Json, IsFaithful}
use verifiable_storage.Storage.Filesystem.{batch_dir, public_key_path, filesystem_storage}
use verifiable_storage.Storage.Filesystem.Batch.{Batch, put, put_all}
use verifiable_storage.Storage.Filesystem.Paths.{IsFileName}
use verifiable_storage.Storage.Filesystem.Views.{IsBatch}
use verifiable_storage.Storage.Filesystem.Frames.{public_key_path-IsOutside, IsBatch-same}
use verifiable_storage.Storage.Filesystem.Refinement.{store_file_and_update_tree-framed}
use verifiable_storage.Storage.Filesystem.Keys.{
  load_public_key-sound, load_public_key-missing, store_public_key-sound,
}
use verifiable_storage.Storage.Directory.{IsStrict}
use verifiable_storage.Storage.Strict.{put-IsStrict}
use verifiable_storage.Server.Checks.{validate_timestamp_default}
use verifiable_storage.Server.Auth.{verify_request_signature}
use verifiable_storage.Server.Errors.{HttpError}
use verifiable_storage.Server.Upload.{upload}
use verifiable_storage.Server.Download.{download}
use verifiable_storage.Client.Files.{FileUploader}
use verifiable_storage.Client.Download.{request_of}
use verifiable_storage.Protocol.Download.{IsAccepted}
use verifiable_storage.Protocol.Forms.{
  IsShort, client_of, form_of, verify_request-known, verify_request-new, upload-of_steps,
}
use verifiable_storage.Protocol.Upload.{downloader}
use verifiable_storage.Protocol.Files.{IsOnDisk, download-of_IsOnDisk}

module _ ⦃K : Crates⦄ ⦃J : Json⦄ (L : IsLawful K) (F : IsFaithful J) (data_dir : Str)
    (u : FileUploader) where
  abbrev key_path : Str
  key_path = public_key_path data_dir (client_of u)

  abbrev key_text : Bytes
  key_text = as_bytes (K.hex_encode (K.verifying_key u.signing_key))

  abbrev dir : Str
  dir = batch_dir data_dir (client_of u) u.batch_id

  -- No other key is there for the client.
  abbrev pub IsOwn : List (Str × Bytes) → Type 0
  IsOwn files = (lookup key_path files ≡ none) ⊎ (lookup key_path files ≡ some key_text)

  -- The key is known, or is stored beside the batch.
  record IsRegistered (files files₁ : List (Str × Bytes)) (v : Batch) : Type 0 where
    new : Bool
    verified :
        (m : Bytes)
        → verify_request_signature
            (filesystem_storage data_dir)
            m
            (K.sign u.signing_key m)
            (K.hex_encode (K.verifying_key u.signing_key))
            (sound files)
          ≡ (ok (client_of u, new), sound files₁)
    known : lookup key_path files₁ ≡ some key_text
    batch : IsBatch dir files₁ v

  registered :
      (files : List (Str × Bytes)) (v : Batch)
      → IsPlain u.batch_id
      → IsOwn files
      → IsBatch dir files v
      → (files₁ : List (Str × Bytes)) × IsRegistered files files₁ v
  registered files v plain (inr known) batch = (
    files,
    record {
      new = false;
      verified = λ m. verify_request-known L (filesystem_storage data_dir) (sound files) u m (
          load_public_key-sound L data_dir files (client_of u) (K.verifying_key u.signing_key)
            (L.verifying_key_bytes u.signing_key) known);
      known = known;
      batch = batch;
    },
  )
  registered files v plain (inl missing) batch =
      let files₁ = insert key_path key_text files in
      (
        files₁,
        record {
          new = true;
          verified = λ m.
              verify_request-new L (filesystem_storage data_dir) (sound files) (sound files₁) u m
                (load_public_key-missing L data_dir files (client_of u) missing)
                (store_public_key-sound L data_dir files (client_of u)
                  (K.verifying_key u.signing_key));
          known = lookup-insert_self key_path key_text files;
          batch =
              IsBatch-same dir files files₁ v
                (λ name p. lookup-insert_other (join dir name) key_path key_text files λ e.
                  public_key_path-IsOutside data_dir (client_of u) u.batch_id plain name p (sym e))
                batch;
        },
      )

  -- The name of a file that can be uploaded, in the batch of the client.
  pub record IsUploadName (f : Str) : Type 0 where
    pub name : IsFileName f
    pub short : IsShort f

  upload-IsOnDisk :
      (files : List (Str × Bytes)) (v : Batch) (now : Option ℕ) (timestamp : ℕ) (f : Str)
      (x : Bytes)
      → IsPlain u.batch_id
      → IsShort u.batch_id
      → IsOwn files
      → IsBatch dir files v
      → IsStrict v
      → IsUploadName f
      → validate_timestamp_default now timestamp ≡ ok tt
      → (files' : List (Str × Bytes)) × (upload
            (filesystem_storage data_dir)
            now
            (form_of u timestamp f x)
            (sound files)
          ≡ (ok tt, sound files'))
        × IsOnDisk L data_dir (downloader u) files' (put f x v)
  upload-IsOnDisk files v now timestamp f x plain short own batch strict n fresh =
      let (files₁, r) = registered files v plain own batch in
      let (files', stored, held, framed) =
        store_file_and_update_tree-framed F data_dir (client_of u) u.batch_id files₁ v f x r.batch
          n.name in
      (
        files',
        upload-of_steps L (filesystem_storage data_dir) (sound files) (sound files₁) (sound files')
            u now timestamp f x r.new ((validate_filename_iff f).1 n.name.valid) n.short short fresh
            r.verified stored,
        record {
          batch = held;
          strict = put-IsStrict f x v strict;
          key =
              framed key_path (public_key_path-IsOutside data_dir (client_of u) u.batch_id plain)
              ∙ r.known;
        },
      )

  -- The forms of some files, one after another, each with its time.
  abbrev pub upload_all :
      (ℕ → Option ℕ) → (ℕ → ℕ) → List (Str × Bytes) → Exec HttpError Disk (Unit {0})
  upload_all now clock [] = pure tt
  upload_all now clock ((f, x) ∷ uploads) =
      upload (filesystem_storage data_dir) (now 0) (form_of u (clock 0) f x)
      >> upload_all (λ i. now (suc i)) (λ i. clock (suc i)) uploads

  upload_all-IsOnDisk :
      (uploads : List (Str × Bytes)) (files : List (Str × Bytes)) (v : Batch) (now : ℕ → Option ℕ)
      (clock : ℕ → ℕ)
      → IsPlain u.batch_id
      → IsShort u.batch_id
      → IsOnDisk L data_dir (downloader u) files v
      → All (λ (p : Str × Bytes). IsUploadName p.0) uploads
      → ((i : ℕ) → validate_timestamp_default (now i) (clock i) ≡ ok tt)
      → (files' : List (Str × Bytes)) × (upload_all now clock uploads (sound files)
          ≡ (ok tt, sound files'))
        × IsOnDisk L data_dir (downloader u) files' (put_all uploads v)
  upload_all-IsOnDisk [] files v now clock plain short h ns fresh = (files, refl, h)
  upload_all-IsOnDisk ((f, x) ∷ uploads) files v now clock plain short h ns fresh =
      let (files₁, e, h₁) =
        upload-IsOnDisk files v (now 0) (clock 0) f x plain short (inr h.key) h.batch h.strict ns.0
          (fresh 0) in
      let (files₂, e₂, h₂) =
        upload_all-IsOnDisk uploads files₁ (put f x v) (λ i. now (suc i)) (λ i. clock (suc i)) plain
          short h₁ ns.1 (λ i. fresh (suc i)) in
      (files₂, rw e e₂, h₂)

  -- A client uploads files, at least one and in any order, to a server with the file system storage,
  -- which has nothing of the batch and no other key for the client, and then downloads one of them. If
  -- names and batch have their sizes and are plain, no name is one of the storage's own, each
  -- timestamp is in the window and nothing fails, then every upload and the download succeed, the
  -- download changes nothing, and the client gets the last content of the file with a proof that it
  -- verifies against the root of the tree that `from_data` builds of the contents in the order of their
  -- names.
  pub upload_all-download :
      (files : List (Str × Bytes)) (f : Str) (x : Bytes) (uploads : List (Str × Bytes))
      (now : ℕ → Option ℕ) (clock : ℕ → ℕ) (g : Str) (y : Bytes) (later : Option ℕ) (timestamp : ℕ)
      → IsPlain u.batch_id
      → IsShort u.batch_id
      → IsOwn files
      → IsBatch dir files []
      → All (λ (p : Str × Bytes). IsUploadName p.0) ((f, x) ∷ uploads)
      → ((i : ℕ) → validate_timestamp_default (now i) (clock i) ≡ ok tt)
      → lookup g (put_all ((f, x) ∷ uploads) []) ≡ some y
      → IsFileName g
      → validate_timestamp_default later timestamp ≡ ok tt
      → (files' : List (Str × Bytes)) × (tree : MerkleTree) × (resp : DownloadResponse)
        × (upload_all now clock ((f, x) ∷ uploads) (sound files) ≡ (ok tt, sound files'))
        × (from_data (map (λ (q : Str × Bytes). q.1) (put_all ((f, x) ∷ uploads) [])) ≡ ok tree)
        × (download
              (filesystem_storage data_dir)
              later
              (request_of (downloader u) timestamp g)
              (sound files')
            ≡ (ok resp, sound files'))
        × IsAccepted g y tree.root resp
  upload_all-download files f x uploads now clock g y later timestamp plain short own batch ns fresh
        found n fresh' =
      let (files₁, e, h₁) =
        upload-IsOnDisk files [] (now 0) (clock 0) f x plain short own batch tt ns.0 (fresh 0) in
      let (files₂, e₂, h₂) =
        upload_all-IsOnDisk uploads files₁ (put f x []) (λ i. now (suc i)) (λ i. clock (suc i))
          plain short h₁ ns.1 (λ i. fresh (suc i)) in
      let (tree, resp, made, answered, accepted) =
        download-of_IsOnDisk L data_dir (downloader u) files₂ (put_all ((f, x) ∷ uploads) []) g y h₂
          n found later timestamp fresh' in
      (files₂, tree, resp, rw e e₂, made, answered, accepted)
