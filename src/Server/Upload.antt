-- ===== src/Server/Upload.antt =====
-- bin/server/src/handlers/upload.rs and upload_form.rs
use verifiable_storage.Prelude.{
  ℕ, ◌||◌, not, Option, [], ◌++◌, nat_beq, ltb, length, ◌==◌, if◌then◌else◌,
}
use verifiable_storage.Prelude.Result
use verifiable_storage.Prelude.Result.{Result, ok, err, ok_or}
use verifiable_storage.Prelude.Text.{Bytes, Str, as_bytes, to_be_bytes}
use verifiable_storage.Prelude.Exec.{Exec, ◌>>=◌, ◌>>◌, lift, require, map_err}
use verifiable_storage.Crates.{Crates}
use verifiable_storage.Crypto.{hash_leaf}
use verifiable_storage.Common.Filename.{validate_filename}
use verifiable_storage.Storage.{Storage}
use verifiable_storage.Server.Checks.{
  validate_timestamp_default, parse_signature, validate_public_key,
}
use verifiable_storage.Server.Auth.{verify_request_signature}
use verifiable_storage.Server.Errors.{
  HttpError, handle_error, handle_auth_error, handle_server_error, FormError, filename_length,
  batch_id_length, file_hash_length, signature_length, public_key_length, invalid_form,
  invalid_filename, auth, storage, unreadable_upload, file_hash_mismatch,
}

-- The fields of the multipart form. `file` is what reading the temporary file gives, `none` for an
-- error. The parser of forms refuses more than 10 MB and a timestamp that is no `u64`.
pub record UploadForm : Type 0 where
  pub file : Option Bytes
  pub filename : Str
  pub batch_id : Str
  pub file_hash : Str
  pub signature : Str
  pub timestamp : ℕ
  pub public_key : Str

-- `s.len()` counts bytes.
abbrev pub len : Str → ℕ
len s = length (as_bytes s)

unfoldable pub validate_fields : UploadForm → Result FormError (Unit {0})
validate_fields f =
    if f.filename == [] || ltb 255 (len f.filename)
    then err filename_length
    else if f.batch_id == [] || ltb 255 (len f.batch_id)
    then err batch_id_length
    else if not (nat_beq (len f.file_hash) 64)
    then err file_hash_length
    else if not (nat_beq (len f.signature) 128)
    then err signature_length
    else if not (nat_beq (len f.public_key) 64)
    then err public_key_length
    else ok tt

unfoldable pub build_message : Str → Str → Str → Bytes → ℕ → Bytes
build_message filename batch_id file_hash file_content timestamp =
    as_bytes filename
    ++ (as_bytes batch_id ++ (as_bytes file_hash ++ (file_content ++ to_be_bytes timestamp)))

module _ ⦃K : Crates⦄ (S : Storage) where
  unfoldable pub upload : Option ℕ → UploadForm → Exec HttpError S.State (Unit {0})
  unfolding validate_fields handle_error handle_auth_error handle_server_error
  upload now f = do
    lift (Result.map_err (λ e. handle_error (invalid_form e)) (validate_fields f))
    lift (Result.map_err (λ e. handle_error (invalid_filename e)) (validate_filename f.filename))
    lift (Result.map_err handle_auth_error (validate_timestamp_default now f.timestamp))
    file_content ← lift (ok_or (handle_error unreadable_upload) f.file)
    let computed_hash_hex = K.hex_encode (hash_leaf file_content)
    require (computed_hash_hex == f.file_hash) (handle_error file_hash_mismatch)
    let message = build_message f.filename f.batch_id f.file_hash file_content f.timestamp
    signature ← lift (Result.map_err (λ e. handle_error (auth e)) (parse_signature f.signature))
    lift (Result.map_err handle_auth_error (validate_public_key f.public_key))
    verified ← map_err handle_auth_error (verify_request_signature S message signature f.public_key)
    map_err (λ e. handle_server_error (storage e))
        (S.store_file_and_update_tree verified.0 f.batch_id f.filename file_content)
