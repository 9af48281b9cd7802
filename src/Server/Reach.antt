-- ===== src/Server/Reach.antt =====
-- Every state that the server comes to from an empty database, through any requests, good or bad,
-- and any failures of the database.
use mathlib.Core.List.Memᴰ
use mathlib.Core.Option.{some-injective}
use verifiable_storage.Prelude.{
  ◌≡◌, refl, ap, ◌∙◌, sym, subst, ◌⊎◌, Bool, true, if◌then◌else◌, Option, none, some, List, [], ◌∷◌,
  ℕ, ◌==◌,
}
use verifiable_storage.Prelude.Result
use verifiable_storage.Prelude.Result.{Result, ok, ok_or, map_err-ok, ok_or-ok}
use verifiable_storage.Prelude.Text.{Bytes, Str, trim}
use verifiable_storage.Prelude.Dict.{str_eq, pair_eq, lookup}
use verifiable_storage.Prelude.Exec.{◌>>◌, map_err, pure}
use verifiable_storage.Crates.{Crates, IsLawful}
use verifiable_storage.Merkle.Inputs.{Collision, sha256_cases}
use verifiable_storage.Crypto.{
  compute_client_id, public_key_from_bytes, verify_signature, hash_leaf,
}
use verifiable_storage.Crypto.Laws.{public_key_from_bytes-same}
use verifiable_storage.Common.{DownloadRequest}
use verifiable_storage.Common.Filename.{validate_filename, validate_filename_iff}
use verifiable_storage.Storage.Tables
use verifiable_storage.Storage.Tables.{Tables, Db}
use verifiable_storage.Storage.Database.{database_storage}
use verifiable_storage.Storage.Keeps.{Keeps, >>=-Keeps, lift-Keeps, require-Keeps, read-Keeps}
use verifiable_storage.Storage.Valid.{
  IsValid, store_public_key-IsValid, store_file_and_update_tree-IsValid,
}
use verifiable_storage.Server.Checks.{
  validate_timestamp_default, parse_signature, validate_public_key, decode_public_key_failed,
  parse_public_key_failed, signature_failed, storage_failed,
}
use verifiable_storage.Server.Auth.{is_none, verify_request_signature}
use verifiable_storage.Server.Upload
use verifiable_storage.Server.Upload.{UploadForm, validate_fields, upload}
use verifiable_storage.Server.Reads.{download-Keeps}
use verifiable_storage.Server.Download.{download}
use verifiable_storage.Server.Errors.{
  handle_error, handle_auth_error, invalid_form, invalid_filename, auth, unreadable_upload,
  file_hash_mismatch,
}

module _ ⦃K : Crates⦄ (collation : Str → Str → Bool) where
  -- The key is registered if none is known.
  register-IsValid :
      (bytes k : Bytes) (known : Option Bytes)
      → k ≡ bytes
      → Keeps IsValid (
          (if is_none known
            then map_err storage_failed (Tables.store_public_key (compute_client_id k) bytes)
            else pure tt)
          >> pure {A = Str × Bool} (compute_client_id k, is_none known))
  register-IsValid bytes k none same =
      >>=-Keeps IsValid
        (map_err storage_failed (Tables.store_public_key (compute_client_id k) bytes))
        (λ _. pure (compute_client_id k, true))
        (subst (λ b. Keeps IsValid (Tables.store_public_key (compute_client_id k) b)) same
          (store_public_key-IsValid k))
        λ _ s v. v
  register-IsValid bytes k (some l) same = λ s v. v

  verify_request_signature-IsValid :
      (m sig : Bytes) (key : Str)
      → Keeps IsValid (verify_request_signature (database_storage collation) m sig key)
  unfolding verify_request_signature Tables.load_public_key
  verify_request_signature-IsValid m sig key =
      lift-Keeps IsValid (ok_or decode_public_key_failed (K.hex_decode (trim key))) _ λ bytes _.
        lift-Keeps IsValid (Result.map_err parse_public_key_failed (public_key_from_bytes bytes)) _
          λ k parsed.
            lift-Keeps IsValid (Result.map_err signature_failed (verify_signature k m sig)) _ λ _ _.
              >>=-Keeps IsValid
                (map_err storage_failed (Tables.load_public_key (compute_client_id k))) _
                (read-Keeps IsValid _)
                λ known.
                  register-IsValid bytes k known (
                    public_key_from_bytes-same bytes k
                      (map_err-ok parse_public_key_failed _ parsed))

  upload-IsValid :
      (now : Option ℕ) (f : UploadForm) → Keeps IsValid (upload (database_storage collation) now f)
  unfolding upload
  upload-IsValid now f =
      lift-Keeps IsValid (Result.map_err (λ e. handle_error (invalid_form e)) (validate_fields f)) _
        λ _ _.
          lift-Keeps IsValid
            (Result.map_err (λ e. handle_error (invalid_filename e)) (validate_filename f.filename))
            _
            λ _ valid.
              lift-Keeps IsValid
                (Result.map_err handle_auth_error (validate_timestamp_default now f.timestamp)) _
                λ _ _.
                  lift-Keeps IsValid (ok_or (handle_error unreadable_upload) f.file) _ λ content _.
                    require-Keeps IsValid (K.hex_encode (hash_leaf content) == f.file_hash)
                      (handle_error file_hash_mismatch) _
                      (lift-Keeps IsValid
                        (Result.map_err (λ e. handle_error (auth e)) (parse_signature f.signature))
                        _
                        λ sig _.
                          lift-Keeps IsValid
                            (Result.map_err handle_auth_error (validate_public_key f.public_key)) _
                            λ _ _.
                              >>=-Keeps IsValid
                                (map_err handle_auth_error (
                                  verify_request_signature (database_storage collation)
                                    (Upload.build_message f.filename f.batch_id f.file_hash content
                                      f.timestamp)
                                    sig f.public_key))
                                _
                                (verify_request_signature-IsValid
                                  (Upload.build_message f.filename f.batch_id f.file_hash content
                                    f.timestamp)
                                  sig f.public_key)
                                λ verified.
                                  store_file_and_update_tree-IsValid collation (verified.0)
                                    f.batch_id f.filename content
                                    ((validate_filename_iff f.filename).0 (map_err-ok _ _ valid)))

  -- One event: a request that is handled to its end, or a change of what will fail.
  pub data Event (s : Db) : Db → Type 0 where
    uploads :
        (now : Option ℕ) (f : UploadForm) → Event s (upload (database_storage collation) now f s).1
    downloads :
        (now : Option ℕ) (req : DownloadRequest)
        → Event s (download (database_storage collation) now req s).1
    outage : (outages : List Bool) → Event s (record s { outages = outages })

  -- The database starts with no rows.
  abbrev pub empty_tables : Tables
  empty_tables = record { clients = []; batches = []; files = []; merkle_trees = [] }

  pub data Reach : Db → Type 0 where
    start : Reach (record { tables = empty_tables; outages = [] })
    next : {s t : Db} → Reach s → Event s t → Reach t

  empty-IsValid : IsValid empty_tables
  unfolding lookup Tables.is_some
  empty-IsValid = record {
    own_keys = λ c k h. absurd (cc);
    valid_names = λ b f x h. absurd (cc);
    file_batches = λ b f x h. absurd (cc);
    tree_batches = λ b m h. absurd (cc);
    batch_clients = λ b h. absurd (cc);
  }

  Event-IsValid : {s t : Db} → Event s t → IsValid s.tables → IsValid t.tables
  Event-IsValid {s} (uploads now f) v = upload-IsValid now f s v
  Event-IsValid {s} (downloads now req) v = download-Keeps collation IsValid now req s v
  Event-IsValid (outage outages) v = v

  -- In every state that the server comes to, through any requests and any failures of the database
  -- between and within them: each key is registered under the identifier computed from it, each
  -- file has a valid name and a batch, each tree has a batch, and each batch has a client.
  pub Reach-IsValid : {s : Db} → Reach s → IsValid s.tables
  Reach-IsValid start = empty-IsValid
  Reach-IsValid (next r event) = Event-IsValid event (Reach-IsValid r)

  -- In every such state the key that is registered under the identifier of a key is this key, or
  -- these are two different keys with one digest.
  pub Reach-own_key :
      IsLawful K
      → {s : Db} (r : Reach s) (k l : Bytes)
      → lookup (compute_client_id l) s.tables.clients ≡ some k
      → (k ≡ l) ⊎ Collision (k ∷ []) (l ∷ [])
  unfolding compute_client_id
  Reach-own_key L r k l h =
      let same_id = (Reach-IsValid r).own_keys (compute_client_id l) k h in
      sha256_cases k l (Memᴰ.head refl) (Memᴰ.head refl) (
        some-injective (K.sha256 k) (K.sha256 l) (
          sym (L.hex_round (K.sha256 k))
          ∙ ap K.hex_decode (sym same_id)
          ∙ L.hex_round (K.sha256 l)))
