-- ===== src/Protocol/Session/Uploads.antt =====
-- The requests of one upload command of bin/client/src/upload.rs, one after another, against the
-- server over the database.
use mathlib.Core.Option.{some-injective}
use verifiable_storage.Prelude.{
  ℕ, suc, ◌≡◌, refl, ◌∙◌, sym, Bool, true, Option, some, List, [], ◌∷◌, ◌++◌, All,
}
use verifiable_storage.Prelude.Result.{ok}
use verifiable_storage.Prelude.Text.{Bytes, Str, text}
use verifiable_storage.Prelude.Sort.{str_leb}
use verifiable_storage.Prelude.Dict.{str_eq, pair_eq, lookup}
use verifiable_storage.Crates.{Crates, IsLawful}
use verifiable_storage.Common.Filename.{validate_filename}
use verifiable_storage.Storage.Tables
use verifiable_storage.Storage.Tables.{Tables, fits}
use verifiable_storage.Storage.Trees.{calm, IsTreeFor}
use verifiable_storage.Storage.Filesystem.Batch.{Batch, put, put_all}
use verifiable_storage.Storage.Batches.{HoldsBatch, HoldsBatch-put}
use verifiable_storage.Server.Checks.{validate_timestamp_default}
use verifiable_storage.Server.Upload.{UploadForm}
use verifiable_storage.Client.Files.{FileUploader}
use verifiable_storage.Client.Upload.{upload_files_to_server}
use verifiable_storage.Protocol.Forms.{IsShort, client_of, form_of}
use verifiable_storage.Protocol.Upload.{IsUploadable, upload-IsUploaded}
use verifiable_storage.Protocol.Remote.{Remote, post_form, post_form-upload}

-- The server while no request to its database fails.
abbrev pub serving : Tables → (ℕ → Option ℕ) → Remote
serving t now = record { db = calm t; now = now }

module _ ⦃K : Crates⦄ (u : FileUploader) where
  -- A file whose name has its size and whose form the parser of forms reads.
  pub record IsFitting (accepts : UploadForm → Bool) (f : Str × Bytes) : Type 0 where
    pub short : IsShort f.0
    pub name_fits : fits f.0 ≡ true
    pub accepted : (timestamp : ℕ) → accepts (form_of u timestamp f.0 f.1) ≡ true

  -- A file that the server takes: its name is valid too.
  pub record IsTaken (accepts : UploadForm → Bool) (f : Str × Bytes) : Type 0 where
    pub valid : validate_filename f.0 ≡ ok tt
    pub fitting : IsFitting accepts f

  pub All-IsTaken :
      (accepts : UploadForm → Bool) (v : List (Str × Bytes))
      → All (λ (f : Str × Bytes). validate_filename f.0 ≡ ok tt) v
      → All (IsFitting accepts) v
      → All (IsTaken accepts) v
  All-IsTaken accepts [] valid fitting = tt
  All-IsTaken accepts (f ∷ v) valid fitting =
      (record { valid = valid.0; fitting = fitting.0 }, All-IsTaken accepts v valid.1 fitting.1)

  -- What the identifiers need, and that no other key is registered for the client.
  pub record IsWelcome (t : Tables) : Type 0 where
    pub batch_short : IsShort u.batch_id
    pub client_fits : fits (client_of u) ≡ true
    pub batch_fits : fits u.batch_id ≡ true
    pub own_key :
        (k : Bytes) → lookup (client_of u) t.clients ≡ some k → k ≡ K.verifying_key u.signing_key

  -- The tables hold the files of the client's batch and their tree.
  pub record IsSynced (t : Tables) (v : Batch) : Type 0 where
    pub known : lookup (client_of u) t.clients ≡ some (K.verifying_key u.signing_key)
    pub batch : Tables.is_some (lookup (client_of u, u.batch_id) t.batches) ≡ true
    pub tree : IsTreeFor str_leb t (client_of u, u.batch_id)
    pub held : HoldsBatch (client_of u) u.batch_id t v

  IsWelcome-IsSynced : (t t' : Tables) (v : Batch) → IsWelcome t → IsSynced t' v → IsWelcome t'
  IsWelcome-IsSynced t t' v w s = record {
    batch_short = w.batch_short;
    client_fits = w.client_fits;
    batch_fits = w.batch_fits;
    own_key = λ k e. some-injective _ _ (sym e ∙ s.known);
  }

  module _ (L : IsLawful K) (accepts : UploadForm → Bool) where
    upload_one :
        (t : Tables) (v : Batch) (f : Str × Bytes) (now : ℕ → Option ℕ) (timestamp : ℕ)
        → HoldsBatch (client_of u) u.batch_id t v
        → IsWelcome t
        → IsTaken accepts f
        → validate_timestamp_default (now 0) timestamp ≡ ok tt
        → (t' : Tables) × (post_form u.server accepts
              (u.server ++ text "/upload")
              (form_of u timestamp f.0 f.1)
              (serving t now)
            ≡ (ok tt, serving t' (λ i. now (suc i))))
          × IsSynced t' (put f.0 f.1 v)
    upload_one t v (f, x) now timestamp h w taken fresh =
        let uploadable : IsUploadable t u f = record {
          valid = taken.valid;
          name_short = taken.fitting.short;
          batch_short = w.batch_short;
          client_fits = w.client_fits;
          batch_fits = w.batch_fits;
          name_fits = taken.fitting.name_fits;
          own_key = w.own_key;
        } in
        let (t', stored, done) = upload-IsUploaded L t u (now 0) timestamp f x uploadable fresh in
        (
          t',
          post_form-upload u.server accepts (form_of u timestamp f x) t t' now
              (taken.fitting.accepted timestamp) stored,
          record {
            known = done.served.known;
            batch = done.served.batch;
            tree = done.served.tree;
            held = HoldsBatch-put (client_of u) u.batch_id t t' v f x done.files_eq h;
          },
        )

    -- Files uploaded in turn to a batch that has its tree.
    upload_more :
        (rest : List (Str × Bytes)) (t : Tables) (v : Batch) (now : ℕ → Option ℕ) (clock : ℕ → ℕ)
        → IsSynced t v
        → IsWelcome t
        → All (IsTaken accepts) rest
        → ((i : ℕ) → validate_timestamp_default (now i) (clock i) ≡ ok tt)
        → (t' : Tables) × (now' : ℕ → Option ℕ) × (upload_files_to_server
              (post_form u.server accepts)
              u
              clock
              rest
              (serving t now)
            ≡ (ok tt, serving t' now'))
          × IsSynced t' (put_all rest v)
    unfolding upload_files_to_server
    upload_more [] t v now clock s w taken fresh = (t, now, refl, s)
    upload_more (f ∷ rest) t v now clock s w taken fresh =
        let (t₁, e, s₁) = upload_one t v f now (clock 0) s.held w taken.0 (fresh 0) in
        let (t₂, now₂, e₂, s₂) =
          upload_more rest t₁ (put f.0 f.1 v) (λ i. now (suc i)) (λ i. clock (suc i)) s₁
            (IsWelcome-IsSynced t t₁ (put f.0 f.1 v) w s₁) taken.1 (λ i. fresh (suc i)) in
        (t₂, now₂, rw e e₂, s₂)

    -- Files uploaded in turn, at least one, to a batch that the tables hold.
    pub upload_files_to_server-IsSynced :
        (f : Str × Bytes) (rest : List (Str × Bytes)) (t : Tables) (v : Batch) (now : ℕ → Option ℕ)
        (clock : ℕ → ℕ)
        → HoldsBatch (client_of u) u.batch_id t v
        → IsWelcome t
        → All (IsTaken accepts) (f ∷ rest)
        → ((i : ℕ) → validate_timestamp_default (now i) (clock i) ≡ ok tt)
        → (t' : Tables) × (now' : ℕ → Option ℕ) × (upload_files_to_server
              (post_form u.server accepts)
              u
              clock
              (f ∷ rest)
              (serving t now)
            ≡ (ok tt, serving t' now'))
          × IsSynced t' (put_all (f ∷ rest) v)
    unfolding upload_files_to_server
    upload_files_to_server-IsSynced f rest t v now clock h w taken fresh =
        let (t₁, e, s₁) = upload_one t v f now (clock 0) h w taken.0 (fresh 0) in
        let (t₂, now₂, e₂, s₂) =
          upload_more rest t₁ (put f.0 f.1 v) (λ i. now (suc i)) (λ i. clock (suc i)) s₁
            (IsWelcome-IsSynced t t₁ (put f.0 f.1 v) w s₁) taken.1 (λ i. fresh (suc i)) in
        (t₂, now₂, rw e e₂, s₂)
