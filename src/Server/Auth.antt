-- ===== src/Server/Auth.antt =====
-- bin/server/src/auth.rs: the checks of signatures, with the registration of clients.
use verifiable_storage.Prelude.{Bool, true, false, Option, none, some, if◌then◌else◌}
use verifiable_storage.Prelude.Result
use verifiable_storage.Prelude.Result.{ok_or}
use verifiable_storage.Prelude.Text.{Bytes, Str, trim}
use verifiable_storage.Prelude.Exec.{Exec, ◌>>=◌, ◌>>◌, pure, lift, map_err}
use verifiable_storage.Crates.{Crates}
use verifiable_storage.Crypto.{compute_client_id, public_key_from_bytes, verify_signature}
use verifiable_storage.Storage.{Storage}
use verifiable_storage.Server.Checks.{
  AuthError, decode_public_key_failed, client_not_found, parse_public_key_failed, signature_failed,
  storage_failed,
}

abbrev pub is_none {ℓ} : {A : Type ℓ} → Option A → Bool
is_none none = true
is_none (some a) = false

module _ ⦃K : Crates⦄ (S : Storage) where
  -- The client's identifier, and whether it is new.
  unfoldable pub verify_request_signature :
      Bytes → Bytes → Str → Exec AuthError S.State (Str × Bool)
  unfolding public_key_from_bytes verify_signature
  verify_request_signature message signature public_key_hex = do
    public_key_bytes ← lift (ok_or decode_public_key_failed (K.hex_decode (trim public_key_hex)))
    public_key ←
        lift (Result.map_err parse_public_key_failed (public_key_from_bytes public_key_bytes))
    let client_id = compute_client_id public_key
    lift (Result.map_err signature_failed (verify_signature public_key message signature))
    known ← map_err storage_failed (S.load_public_key client_id)
    (if is_none known
        then map_err storage_failed (S.store_public_key client_id public_key_bytes)
        else pure tt)
    pure (client_id, is_none known)

  unfoldable pub verify_request_signature_with_client_id :
      Str → Bytes → Bytes → Exec AuthError S.State (Unit {0})
  unfolding public_key_from_bytes verify_signature
  verify_request_signature_with_client_id client_id message signature = do
    found ← map_err storage_failed (S.load_public_key client_id)
    public_key_bytes ← lift (ok_or client_not_found found)
    public_key ←
        lift (Result.map_err parse_public_key_failed (public_key_from_bytes public_key_bytes))
    lift (Result.map_err signature_failed (verify_signature public_key message signature))
