-- ===== src/Protocol/Forms.antt =====
-- The form of bin/client/src/upload.rs, and what the handler of bin/server/src/handlers/upload.rs does
-- with it over any storage, by what the storage does.
use verifiable_storage.Prelude.{
  ℕ, ◌≡◌, refl, Bool, true, false, ◌||◌, Option, none, some, [], ==_iff, ◌==◌, ltb,
}
use verifiable_storage.Prelude.Result.{ok}
use verifiable_storage.Prelude.Text.{Bytes, Str}
use verifiable_storage.Prelude.Dict.{str_eq, pair_eq}
use verifiable_storage.Crates.{Crates, IsLawful}
use verifiable_storage.Crypto.{compute_client_id, sign_message, hash_leaf}
use verifiable_storage.Common.Filename.{validate_filename}
use verifiable_storage.Storage.{Storage}
use verifiable_storage.Server.Checks.{validate_timestamp_default, validate_public_key}
use verifiable_storage.Server.Auth.{verify_request_signature}
use verifiable_storage.Server.Upload
use verifiable_storage.Server.Upload.{UploadForm, len, validate_fields, upload}
use verifiable_storage.Client.Files.{FileUploader}
use verifiable_storage.Client.Upload.{build_upload_message, build_multipart_form}
use verifiable_storage.Protocol.Download.{
  parse_signature-sign, public_key-verifying_key, verify_signature-sign,
}

-- The text is not empty and has at most 255 bytes.
abbrev pub IsShort : Str → Type 0
IsShort s = (s == [] || ltb 255 (len s)) ≡ false

module _ ⦃K : Crates⦄ where
  abbrev pub client_of : FileUploader → Str
  client_of u = compute_client_id (K.verifying_key u.signing_key)

  -- The form that the client sends.
  abbrev pub form_of : FileUploader → ℕ → Str → Bytes → UploadForm
  form_of u timestamp f x =
      build_multipart_form u timestamp f x (K.hex_encode (K.verifying_key u.signing_key))

module _ ⦃K : Crates⦄ (L : IsLawful K) where
  validate_fields-form_of :
      (u : FileUploader) (timestamp : ℕ) (f : Str) (x : Bytes)
      → IsShort f
      → IsShort u.batch_id
      → validate_fields (form_of u timestamp f x) ≡ ok tt
  unfolding validate_fields build_multipart_form hash_leaf sign_message
  validate_fields-form_of u timestamp f x name_short batch_short =
      rw
        (
          name_short,
          batch_short,
          L.hex_len (K.sha256 _) (L.sha256_bytes _),
          L.sha256_len _,
          L.hex_len (K.sign u.signing_key _) (L.sign_bytes u.signing_key _),
          L.sign_len u.signing_key _,
          L.hex_len (K.verifying_key u.signing_key) (L.verifying_key_bytes u.signing_key),
          L.verifying_key_len u.signing_key,
        )
        refl

  validate_public_key-verifying_key :
      (k : Bytes) → validate_public_key (K.hex_encode (K.verifying_key k)) ≡ ok tt
  unfolding validate_public_key
  validate_public_key-verifying_key k =
      rw
        (
          L.hex_trim (K.verifying_key k),
          L.hex_round (K.verifying_key k),
          L.verifying_key_len k,
          L.verifying_key_valid k,
        )
        refl

  -- A storage that knows the client, or registers it.
  pub verify_request-known :
      (S : Storage) (s : S.State) (u : FileUploader) (m : Bytes)
      → S.load_public_key (client_of u) s ≡ (ok (some (K.verifying_key u.signing_key)), s)
      → verify_request_signature S m
          (K.sign u.signing_key m)
          (K.hex_encode (K.verifying_key u.signing_key))
          s
        ≡ (ok (client_of u, false), s)
  unfolding verify_request_signature
  verify_request-known S s u m known =
      let k = K.verifying_key u.signing_key in
      rw
        (
          L.hex_trim k,
          L.hex_round k,
          public_key-verifying_key L u.signing_key,
          verify_signature-sign L u.signing_key m,
          known,
        )
        refl

  pub verify_request-new :
      (S : Storage) (s s' : S.State) (u : FileUploader) (m : Bytes)
      → S.load_public_key (client_of u) s ≡ (ok none, s)
      → S.store_public_key (client_of u) (K.verifying_key u.signing_key) s ≡ (ok tt, s')
      → verify_request_signature S m
          (K.sign u.signing_key m)
          (K.hex_encode (K.verifying_key u.signing_key))
          s
        ≡ (ok (client_of u, true), s')
  unfolding verify_request_signature
  verify_request-new S s s' u m unknown registered =
      let k = K.verifying_key u.signing_key in
      rw
        (
          L.hex_trim k,
          L.hex_round k,
          public_key-verifying_key L u.signing_key,
          verify_signature-sign L u.signing_key m,
          unknown,
          registered,
        )
        refl

  -- The handler over any storage, by what the storage does.
  pub upload-of_steps :
      (S : Storage) (s s₁ s' : S.State) (u : FileUploader) (now : Option ℕ) (timestamp : ℕ)
      (f : Str) (x : Bytes) (new : Bool)
      → validate_filename f ≡ ok tt
      → IsShort f
      → IsShort u.batch_id
      → validate_timestamp_default now timestamp ≡ ok tt
      → ((m : Bytes)
          → verify_request_signature S m
              (K.sign u.signing_key m)
              (K.hex_encode (K.verifying_key u.signing_key))
              s
            ≡ (ok (client_of u, new), s₁))
      → S.store_file_and_update_tree (client_of u) u.batch_id f x s₁ ≡ (ok tt, s')
      → upload S now (form_of u timestamp f x) s ≡ (ok tt, s')
  unfolding upload build_multipart_form sign_message Upload.build_message build_upload_message
  upload-of_steps S s s₁ s' u now timestamp f x new valid name_short batch_short fresh verified
        stored =
      let hash = K.hex_encode (hash_leaf x) in
      let m = build_upload_message u f hash x timestamp in
      rw
        (
          validate_fields-form_of u timestamp f x name_short batch_short,
          valid,
          fresh,
          (==_iff hash hash).1 refl,
          parse_signature-sign L u.signing_key m,
          validate_public_key-verifying_key u.signing_key,
          verified m,
          stored,
        )
        refl
