-- ===== src/Server/Errors.antt =====
-- bin/server/src/handlers/error.rs: what a handler answers in place of a result. The texts of the
-- answers are not modelled, only their status and what caused them.
use verifiable_storage.Merkle.{MerkleTreeError}
use verifiable_storage.Common.Filename.{FilenameValidationError}
use verifiable_storage.Storage.{StorageError}
use verifiable_storage.Server.Checks.{AuthError}

pub data FormError : Type 0 where
  filename_length batch_id_length file_hash_length signature_length public_key_length : FormError

pub data Cause : Type 0 where
  invalid_form : FormError → Cause
  invalid_filename : FilenameValidationError → Cause
  auth : AuthError → Cause
  storage : StorageError → Cause
  merkle : MerkleTreeError → Cause
  unreadable_upload file_hash_mismatch file_not_found tree_not_found tree_out_of_sync : Cause

-- The statuses 400, 401, 404 and 500.
pub data Status : Type 0 where
  bad_request unauthorized not_found internal_server_error : Status

pub record HttpError : Type 0 where
  pub status : Status
  pub cause : Cause

unfoldable pub handle_error : Cause → HttpError
handle_error e = record { status = bad_request; cause = e }

unfoldable pub handle_auth_error : AuthError → HttpError
handle_auth_error e = record { status = unauthorized; cause = auth e }

unfoldable pub handle_server_error : Cause → HttpError
handle_server_error e = record { status = internal_server_error; cause = e }

unfoldable pub handle_not_found : Cause → HttpError
handle_not_found e = record { status = not_found; cause = e }
