-- ===== src/Protocol/Upload.antt =====
-- A form of bin/client/src/upload.rs, and what bin/server/src/handlers/upload.rs makes of it.
use verifiable_storage.Prelude.{
  ℕ, ◌≡◌, refl, ap, ◌∙◌, Bool, true, false, Option, some, List, if◌then◌else◌, Option-cases, inl,
  inr,
}
use verifiable_storage.Prelude.Result.{ok}
use verifiable_storage.Prelude.Text.{Bytes, Str}
use verifiable_storage.Prelude.Sort.{str_leb}
use verifiable_storage.Prelude.Dict.{str_eq, pair_eq, pair_beq, lookup, insert, lookup-insert_self}
use verifiable_storage.Crates.{Crates, IsLawful}
use verifiable_storage.Merkle.{MerkleTree}
use verifiable_storage.Common.Filename.{validate_filename}
use verifiable_storage.Storage.Tables
use verifiable_storage.Storage.Tables.{Tables, FileKey, BatchKey, query, fits}
use verifiable_storage.Storage.Database.{database_storage}
use verifiable_storage.Storage.Trees.{calm}
use verifiable_storage.Storage.Store.{IsAllowed, FileKey-refl, store_file_and_update_tree_lem}
use verifiable_storage.Server.Checks.{validate_timestamp_default}
use verifiable_storage.Server.Auth.{verify_request_signature}
use verifiable_storage.Server.Upload.{upload}
use verifiable_storage.Client.Files.{FileUploader}
use verifiable_storage.Client.Download.{FileDownloader}
use verifiable_storage.Protocol.Forms.{
  IsShort, client_of, form_of, verify_request-known, verify_request-new, upload-of_steps,
}
use verifiable_storage.Protocol.Download.{IsServed}

module _ ⦃K : Crates⦄ where
  -- What an upload needs: sizes, and that no other key is registered for the client.
  pub record IsUploadable (t : Tables) (u : FileUploader) (f : Str) : Type 0 where
    pub valid : validate_filename f ≡ ok tt
    pub name_short : IsShort f
    pub batch_short : IsShort u.batch_id
    pub client_fits : fits (client_of u) ≡ true
    pub batch_fits : fits u.batch_id ≡ true
    pub name_fits : fits f ≡ true
    pub own_key :
        (k : Bytes) → lookup (client_of u) t.clients ≡ some k → k ≡ K.verifying_key u.signing_key

  -- The tables with the client.
  record IsRegisteredBy (u : FileUploader) (t t' : Tables) : Type 0 where
    known : lookup (client_of u) t'.clients ≡ some (K.verifying_key u.signing_key)
    files_eq : t'.files ≡ t.files
    trees_eq : t'.merkle_trees ≡ t.merkle_trees

  -- The downloads with the same key, batch and client.
  abbrev pub downloader : FileUploader → FileDownloader
  downloader u = record {
    server = u.server;
    batch_id = u.batch_id;
    signing_key = u.signing_key;
    client_id = client_of u;
    data_dir = u.data_dir;
  }

  -- The tables before and after an upload: exactly this file has changed, and it can be downloaded.
  pub record IsUploaded (t t' : Tables) (u : FileUploader) (f : Str) (x : Bytes) : Type 0 where
    pub files :
        (k : FileKey)
        → lookup k t'.files
          ≡ (if pair_beq ((client_of u, u.batch_id), f) k then some x else lookup k t.files)
    pub files_eq : t'.files ≡ insert ((client_of u, u.batch_id), f) x t.files
    pub other_trees :
        (d : BatchKey)
        → pair_beq (client_of u, u.batch_id) d ≡ false
        → lookup d t'.merkle_trees ≡ lookup d t.merkle_trees
    pub served : IsServed t' (downloader u) f x

  module _ (L : IsLawful K) where
    register-IsRegisteredBy :
        (t : Tables) (u : FileUploader) (f : Str)
        → IsUploadable t u f
        → (t' : Tables) × (new : Bool) × ((m : Bytes)
            → verify_request_signature
                (database_storage str_leb)
                m
                (K.sign u.signing_key m)
                (K.hex_encode (K.verifying_key u.signing_key))
                (calm t)
              ≡ (ok (client_of u, new), calm t'))
          × IsRegisteredBy u t t'
    unfolding Tables.load_public_key Tables.store_public_key query
    register-IsRegisteredBy t u f h =
        let k = K.verifying_key u.signing_key in
        let S = database_storage str_leb in
        elim (Option-cases (lookup (client_of u) t.clients)) [
          | inl e ↦
              let t' = record t { clients = insert (client_of u) k t.clients } in
              (
                t',
                true,
                λ m.
                    verify_request-new L S (calm t) (calm t') u m (rw e refl)
                      (rw h.client_fits refl),
                record {
                  known = lookup-insert_self (client_of u) k t.clients;
                  files_eq = refl;
                  trees_eq = refl;
                },
              )
          | inr (k', e) ↦
              let known = e ∙ ap some (h.own_key k' e) in
              (
                t,
                false,
                λ m. verify_request-known L S (calm t) u m (rw known refl),
                record { known = known; files_eq = refl; trees_eq = refl },
              )
        ]

    -- While no request to the database fails, the server stores what the client uploads, if the
    -- names have their sizes, the filename is valid, the time is in the window and no other key is
    -- registered under the identifier of the client. Exactly that file has the new content, the
    -- trees of other batches stay, and the client is registered and can download the file.
    pub upload-IsUploaded :
        (t : Tables) (u : FileUploader) (now : Option ℕ) (timestamp : ℕ) (f : Str) (x : Bytes)
        → IsUploadable t u f
        → validate_timestamp_default now timestamp ≡ ok tt
        → (t' : Tables) × (upload (database_storage str_leb) now (form_of u timestamp f x) (calm t)
            ≡ (ok tt, calm t'))
          × IsUploaded t t' u f x
    upload-IsUploaded t u now timestamp f x h fresh =
        let c = client_of u in
        let b = u.batch_id in
        let (t₁, new, verified, r) = register-IsRegisteredBy t u f h in
        let allowed : IsAllowed t₁ c b f = record {
          registered = rw r.known (unfold Tables.is_some in refl);
          client_fits = h.client_fits;
          batch_fits = h.batch_fits;
          name_fits = h.name_fits;
        } in
        let (t', stored, s) = store_file_and_update_tree_lem str_leb t₁ c b f x allowed in
        let key_same = FileKey-refl ((c, b), f) in
        (
          t',
          upload-of_steps L (database_storage str_leb) (calm t) (calm t₁) (calm t') u now timestamp
              f x new h.valid h.name_short h.batch_short fresh verified stored,
          record {
            files = λ k. s.files k ∙ rw r.files_eq refl;
            files_eq = s.files_eq ∙ ap (insert ((c, b), f) x) r.files_eq;
            other_trees = λ d ne.
                s.other_trees d ne
                ∙ ap (λ (l : List (BatchKey × MerkleTree)). lookup d l) r.trees_eq;
            served = record {
              known = rw s.clients r.known;
              batch = s.batch;
              stored = rw (s.files ((c, b), f), key_same) refl;
              tree = s.tree;
            };
          },
        )
