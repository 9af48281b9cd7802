-- ===== src/Server/Refused.antt =====
-- What a request without a signature that verifies does to the server.
use verifiable_storage.Prelude.{ℕ, ◌≡◌, refl, ap, ◌∙◌, Bool, true, false, Option, some, arith, ◌==◌}
use verifiable_storage.Prelude.Result
use verifiable_storage.Prelude.Result.{Result, ok, err, panic, ok_or, map_err-ok, ok_or-ok}
use verifiable_storage.Prelude.Text.{Bytes, Str, trim}
use verifiable_storage.Prelude.Exec.{Exec, ◌>>=◌, ◌>>◌, lift, require}
use verifiable_storage.Crates.{Crates}
use verifiable_storage.Crypto.{public_key_from_bytes, verify_signature, hash_leaf}
use verifiable_storage.Crypto.Laws.{public_key_from_bytes-same}
use verifiable_storage.Common.Filename.{validate_filename}
use verifiable_storage.Storage.{Storage}
use verifiable_storage.Server.Checks.{
  validate_timestamp_default, parse_signature, validate_public_key, decode_public_key_failed,
  parse_public_key_failed, signature_failed,
}
use verifiable_storage.Server.Auth.{verify_request_signature}
use verifiable_storage.Server.Upload.{UploadForm, validate_fields, build_message, upload}
use verifiable_storage.Server.Errors.{
  handle_error, handle_auth_error, invalid_form, invalid_filename, auth, unreadable_upload,
  file_hash_mismatch,
}

-- No success, and the state is as it was.
abbrev pub Refused : {E S A : Type 0} → Result E A × S → S → Type 0
Refused (ok a, t) s = ⊥
Refused (err e, t) s = t ≡ s
Refused (panic, t) s = t ≡ s

module _ {E S A B : Type 0} where
  lift-Refused :
      (r : Result E A) (f : A → Exec E S B) (s : S)
      → ((a : A) → r ≡ ok a → Refused (f a s) s)
      → Refused ((lift r >>= f) s) s
  lift-Refused (ok a) f s h = h a refl
  lift-Refused (err e) f s h = refl
  lift-Refused panic f s h = refl

  lift_then-Refused :
      (r : Result E A) (m : Exec E S B) (s : S)
      → ((a : A) → r ≡ ok a → Refused (m s) s)
      → Refused ((lift r >> m) s) s
  lift_then-Refused (ok a) m s h = h a refl
  lift_then-Refused (err e) m s h = refl
  lift_then-Refused panic m s h = refl

  failed-Refused :
      {F : Type 0} (g : F → E) (o : Result F A × S) (f : A → Exec E S B) (s : S)
      → Refused o s
      → Refused (((λ (t : S). (Result.map_err g o.0, o.1)) >>= f) s) s
  failed-Refused g (ok a, t) f s h = absurd h
  failed-Refused g (err e, t) f s h = h
  failed-Refused g (panic, t) f s h = h

require-Refused :
    {E S B : Type 0} (c : Bool) (e : E) (m : Exec E S B) (s : S)
    → (c ≡ true → Refused (m s) s)
    → Refused ((require c e >> m) s) s
require-Refused true e m s h = h refl
require-Refused false e m s h = refl

module _ ⦃K : Crates⦄ (S : Storage) where
  verify_signature-fails :
      (k m sig : Bytes) (a : Unit {0})
      → K.verify k m sig ≡ false
      → verify_signature k m sig ≡ ok a
      → ⊥
  unfolding verify_signature
  verify_signature-fails k m sig a unverified h = ground arith

  verify_request_signature-Refused :
      (m sig : Bytes) (public_key_hex : Str) (s : S.State)
      → ((k : Bytes) → K.hex_decode (trim public_key_hex) ≡ some k → K.verify k m sig ≡ false)
      → Refused (verify_request_signature S m sig public_key_hex s) s
  unfolding verify_request_signature
  verify_request_signature-Refused m sig hex s unverified =
      lift-Refused (ok_or decode_public_key_failed (K.hex_decode (trim hex))) _ s λ bytes decoded.
        lift-Refused (Result.map_err parse_public_key_failed (public_key_from_bytes bytes)) _ s
          λ k parsed.
            lift_then-Refused (Result.map_err signature_failed (verify_signature k m sig)) _ s
              λ a verified.
                let same = public_key_from_bytes-same bytes k (map_err-ok _ _ parsed) in
                let fails = unverified bytes (ok_or-ok _ _ bytes decoded) in
                absurd (
                  verify_signature-fails k m sig a (ap (λ q. K.verify q m sig) same ∙ fails)
                    (map_err-ok _ _ verified))

  -- A form whose signature does not verify, under the key that it names, the message made of its
  -- fields and content, is refused whatever the storage does, and leaves its state as it was: no
  -- key is registered and no file is stored.
  pub upload-Refused :
      (now : Option ℕ) (f : UploadForm) (s : S.State)
      → ((content sig k : Bytes)
          → f.file ≡ some content
          → parse_signature f.signature ≡ ok sig
          → K.hex_decode (trim f.public_key) ≡ some k
          → K.verify k (build_message f.filename f.batch_id f.file_hash content f.timestamp) sig
            ≡ false)
      → Refused (upload S now f s) s
  unfolding upload
  upload-Refused now f s unverified =
      lift_then-Refused (Result.map_err (λ e. handle_error (invalid_form e)) (validate_fields f)) _
        s
        λ _ _.
          lift_then-Refused
            (Result.map_err (λ e. handle_error (invalid_filename e)) (validate_filename f.filename))
            _ s
            λ _ _.
              lift_then-Refused
                (Result.map_err handle_auth_error (validate_timestamp_default now f.timestamp)) _ s
                λ _ _.
                  lift-Refused (ok_or (handle_error unreadable_upload) f.file) _ s λ content read.
                    require-Refused (K.hex_encode (hash_leaf content) == f.file_hash)
                      (handle_error file_hash_mismatch) _ s
                      λ _.
                        lift-Refused
                          (Result.map_err (λ e. handle_error (auth e))
                            (parse_signature f.signature))
                          _ s
                          λ sig parsed.
                            lift_then-Refused
                              (Result.map_err handle_auth_error (validate_public_key f.public_key))
                              _ s
                              λ _ _.
                                failed-Refused handle_auth_error
                                  (verify_request_signature S
                                    (build_message f.filename f.batch_id f.file_hash content
                                      f.timestamp)
                                    sig f.public_key s)
                                  _ s
                                  (verify_request_signature-Refused
                                    (build_message f.filename f.batch_id f.file_hash content
                                      f.timestamp)
                                    sig f.public_key s
                                    λ k decoded.
                                      unverified content sig k (ok_or-ok _ _ content read)
                                        (map_err-ok _ _ parsed) decoded)
