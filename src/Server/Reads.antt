-- ===== src/Server/Reads.antt =====
-- A download reads: what bin/server/src/handlers/download.rs and proof.rs leave as it was.
use verifiable_storage.Prelude.{◌≡◌, refl, Bool, true, false, Option, List, ℕ, nat_beq, length}
use verifiable_storage.Prelude.Result
use verifiable_storage.Prelude.Result.{Result, ok, ok_or, map_err-ok, ok_or-ok}
use verifiable_storage.Prelude.Text.{Bytes, Str}
use verifiable_storage.Prelude.Order.{has_name}
use verifiable_storage.Prelude.Sort.{str_leb, sort}
use verifiable_storage.Prelude.Dict.{str_eq, pair_eq}
use verifiable_storage.Prelude.Exec.{map_err, raise}
use verifiable_storage.Crates.{Crates}
use verifiable_storage.Crypto.{public_key_from_bytes}
use verifiable_storage.Merkle.{num_leaves}
use verifiable_storage.Common.{DownloadRequest}
use verifiable_storage.Common.Filename.{validate_filename}
use verifiable_storage.Storage
use verifiable_storage.Storage.Tables
use verifiable_storage.Storage.Tables.{Tables, Db, names_of}
use verifiable_storage.Storage.Database
use verifiable_storage.Storage.Database.{database_storage, store_file_and_update_tree}
use verifiable_storage.Storage.Keeps.{Keeps, >>=-Keeps, lift-Keeps, require-Keeps, read-Keeps}
use verifiable_storage.Server.Checks.{
  validate_timestamp_default, parse_signature, parse_public_key_failed, client_not_found,
  storage_failed,
}
use verifiable_storage.Server.Auth.{verify_request_signature_with_client_id}
use verifiable_storage.Server.Download
use verifiable_storage.Server.Download.{download}
use verifiable_storage.Server.Proof.{generate_proof, position}
use verifiable_storage.Server.Errors.{
  handle_error, handle_auth_error, handle_server_error, invalid_filename, auth, storage,
  file_not_found, tree_not_found, tree_out_of_sync, handle_not_found,
}

module _ ⦃K : Crates⦄ (collation : Str → Str → Bool) (P : Tables → Type 0) where
  generate_proof-Keeps :
      (c b : Str) (names : List Str) (f : Str)
      → Keeps P (generate_proof (database_storage collation) c b names f)
  unfolding generate_proof Tables.load_merkle_tree
  generate_proof-Keeps c b names f =
      >>=-Keeps P (map_err (λ e. handle_server_error (storage e)) (Tables.load_merkle_tree c b)) _
        (read-Keeps P _)
        λ stored. lift-Keeps P (ok_or (handle_server_error tree_not_found) stored) _ λ tree _.
          require-Keeps P (nat_beq (num_leaves tree) (length (sort str_leb names)))
            (handle_server_error tree_out_of_sync) _
            (lift-Keeps P
              (ok_or (handle_not_found file_not_found) (position f (sort str_leb names))) _
              λ i _ s p. p)

  names_if-Keeps :
      (c b : Str) (exists : Bool)
      → Keeps P {E = Storage.StorageError} {A = List Str} (elim exists [
        | true ↦ Tables.load_batch_filenames collation c b
        | false ↦ raise Storage.batch_not_found
      ])
  unfolding Tables.load_batch_filenames
  names_if-Keeps c b true = read-Keeps P (λ t. sort collation (names_of (c, b) t.files))
  names_if-Keeps c b false = λ s p. p

  pub download-Keeps :
      (now : Option ℕ) (req : DownloadRequest)
      → Keeps P (download (database_storage collation) now req)
  unfolding download verify_request_signature_with_client_id Tables.load_public_key
      Database.load_batch_filenames Tables.batch_exists Tables.load_batch_filenames
      Tables.file_exists Database.read_file Tables.read_file
  download-Keeps now req =
      lift-Keeps P
        (Result.map_err (λ e. handle_error (invalid_filename e)) (validate_filename req.filename)) _
        λ _ _.
          lift-Keeps P
            (Result.map_err handle_auth_error (validate_timestamp_default now req.timestamp)) _
            λ _ _.
              lift-Keeps P
                (Result.map_err (λ e. handle_error (auth e)) (parse_signature req.signature)) _
                λ sig _.
                  >>=-Keeps P
                    (map_err handle_auth_error (
                      verify_request_signature_with_client_id (database_storage collation)
                        req.client_id
                        (Download.build_message req.filename req.batch_id req.timestamp) sig))
                    _ (verified sig)
                    λ _.
                      >>=-Keeps P
                        (map_err (λ e. handle_not_found (storage e))
                          (Database.load_batch_filenames collation req.client_id req.batch_id))
                        _ listed
                        λ names.
                          require-Keeps P (has_name names req.filename)
                            (handle_not_found file_not_found) _
                            (>>=-Keeps P
                              (map_err (λ e. handle_server_error (storage e))
                                (Tables.file_exists req.client_id req.batch_id req.filename))
                              _ (read-Keeps P _)
                              λ exists. require-Keeps P exists (handle_not_found file_not_found) _ (
                                >>=-Keeps P
                                  (map_err (λ e. handle_server_error (storage e))
                                    (Database.read_file req.client_id req.batch_id req.filename))
                                  _ contents
                                  λ content.
                                    >>=-Keeps P
                                      (generate_proof (database_storage collation) req.client_id
                                        req.batch_id names req.filename)
                                      _
                                      (generate_proof-Keeps req.client_id req.batch_id names
                                        req.filename)
                                      λ _ s p. p))
    where
      verified :
          (sig : Bytes)
          → Keeps P (
              verify_request_signature_with_client_id
                (database_storage collation)
                req.client_id
                (Download.build_message req.filename req.batch_id req.timestamp)
                sig)
      verified sig =
          >>=-Keeps P (map_err storage_failed (Tables.load_public_key req.client_id)) _
            (read-Keeps P _)
            λ found. lift-Keeps P (ok_or client_not_found found) _ λ bytes _.
              lift-Keeps P (Result.map_err parse_public_key_failed (public_key_from_bytes bytes)) _
                λ k _ s p. p

      listed : Keeps P (Database.load_batch_filenames collation req.client_id req.batch_id)
      listed =
          >>=-Keeps P (Tables.batch_exists req.client_id req.batch_id) _ (read-Keeps P _)
            (names_if-Keeps req.client_id req.batch_id)

      contents : Keeps P (Database.read_file req.client_id req.batch_id req.filename)
      contents =
          >>=-Keeps P (Tables.read_file req.client_id req.batch_id req.filename) _ (read-Keeps P _)
            (λ found s p. p)

module _ ⦃K : Crates⦄ (collation : Str → Str → Bool) where
  -- A download leaves the tables as they are, on every branch and whatever requests fail.
  pub download-unchanged :
      (now : Option ℕ) (req : DownloadRequest) (s : Db)
      → (download (database_storage collation) now req s).1.tables ≡ s.tables
  download-unchanged now req s = download-Keeps collation (λ t. t ≡ s.tables) now req s refl
