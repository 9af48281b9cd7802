-- ===== src/Server/Download.antt =====
-- bin/server/src/handlers/download.rs
use verifiable_storage.Prelude.{ℕ, Option, ◌++◌}
use verifiable_storage.Prelude.Result
use verifiable_storage.Prelude.Text.{Bytes, Str, as_bytes, to_be_bytes}
use verifiable_storage.Prelude.Order.{has_name}
use verifiable_storage.Prelude.Exec.{Exec, ◌>>=◌, ◌>>◌, pure, lift, require, map_err}
use verifiable_storage.Crates.{Crates}
use verifiable_storage.Common.{DownloadRequest, DownloadResponse}
use verifiable_storage.Common.Filename.{validate_filename}
use verifiable_storage.Storage.{Storage}
use verifiable_storage.Server.Checks.{validate_timestamp_default, parse_signature}
use verifiable_storage.Server.Auth.{verify_request_signature_with_client_id}
use verifiable_storage.Server.Proof.{generate_proof, proof_to_json}
use verifiable_storage.Server.Errors.{
  HttpError, handle_error, handle_auth_error, handle_server_error, handle_not_found,
  invalid_filename, auth, storage, file_not_found,
}

unfoldable pub build_message : Str → Str → ℕ → Bytes
build_message filename batch_id timestamp =
    as_bytes filename ++ (as_bytes batch_id ++ to_be_bytes timestamp)

module _ ⦃K : Crates⦄ (S : Storage) where
  unfoldable pub download : Option ℕ → DownloadRequest → Exec HttpError S.State DownloadResponse
  unfolding handle_error handle_auth_error handle_server_error handle_not_found
  download now req = do
    lift (Result.map_err (λ e. handle_error (invalid_filename e)) (validate_filename req.filename))
    lift (Result.map_err handle_auth_error (validate_timestamp_default now req.timestamp))
    let message = build_message req.filename req.batch_id req.timestamp
    signature_obj ←
        lift (Result.map_err (λ e. handle_error (auth e)) (parse_signature req.signature))
    map_err handle_auth_error
        (verify_request_signature_with_client_id S req.client_id message signature_obj)
    filenames ←
        map_err (λ e. handle_not_found (storage e))
          (S.load_batch_filenames req.client_id req.batch_id)
    require (has_name filenames req.filename) (handle_not_found file_not_found)
    exists ←
        map_err (λ e. handle_server_error (storage e))
          (S.file_exists req.client_id req.batch_id req.filename)
    require exists (handle_not_found file_not_found)
    file_content ←
        map_err (λ e. handle_server_error (storage e))
          (S.read_file req.client_id req.batch_id req.filename)
    let file_content_b64 = K.base64_encode file_content
    proof ← generate_proof S req.client_id req.batch_id filenames req.filename
    pure (record {
      filename = req.filename;
      file_content = file_content_b64;
      merkle_proof = proof_to_json proof;
    })
