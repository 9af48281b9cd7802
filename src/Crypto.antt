-- ===== src/Crypto.antt =====
-- crates/crypto/src/lib.rs
pub mod Laws
use verifiable_storage.Prelude.{
  ℕ, Bool, true, false, Option, none, some, List, [], ◌∷◌, ◌++◌, nat_beq, length, take,
  if◌then◌else◌,
}
use verifiable_storage.Prelude.Result.{Result, ok, err, panic, ◌>>=◌, ◌>>◌, ok_or, guard}
use verifiable_storage.Prelude.Text.{Bytes, Str, text, as_bytes, trim}
use verifiable_storage.Crates.{Crates}

pub data CryptoError : Type 0 where
  signature_verification_failed invalid_public_key_length invalid_public_key : CryptoError
  create_cipher_failed encryption_failed decryption_failed : CryptoError
  decode_key_file_failed invalid_key_file_format : CryptoError

abbrev expect : Option Bytes → Result CryptoError Bytes
expect none = panic
expect (some b) = ok b

-- A signing key is its 32 secret bytes, a verifying key its 32 public bytes.
pub record Keypair : Type 0 where
  pub signing_key : Bytes
  pub public_key : Bytes
  pub client_id : Str

module _ ⦃K : Crates⦄ where
  -- The random generator's 32 bytes come in as an argument.
  unfoldable pub generate_keypair : Bytes → Bytes × Bytes
  generate_keypair random = (random, K.verifying_key random)

  unfoldable pub compute_client_id : Bytes → Str
  compute_client_id public_key = K.hex_encode (K.sha256 public_key)

  unfoldable pub sign_message : Bytes → Bytes → Bytes
  sign_message signing_key message = K.sign signing_key message

  unfoldable pub verify_signature : Bytes → Bytes → Bytes → Result CryptoError (Unit {0})
  verify_signature public_key message signature =
      guard (K.verify public_key message signature) signature_verification_failed

  unfoldable pub public_key_from_bytes : Bytes → Result CryptoError Bytes
  public_key_from_bytes bytes = do
    guard (nat_beq (length bytes) 32) invalid_public_key_length
    guard (K.is_verifying_key bytes) invalid_public_key
    ok bytes

  unfoldable pub hash_leaf : Bytes → Bytes
  hash_leaf content = K.sha256 (0x00 ∷ content)

  unfoldable pub derive_encryption_key : Bytes → Result CryptoError Bytes
  derive_encryption_key signing_key =
      expect (K.hkdf_expand signing_key (as_bytes (text "verifiable-storage-encryption-key")))

  unfoldable pub derive_nonce : Str → Str → Bytes
  derive_nonce filename batch_id = take 12 (
      K.sha256
        (as_bytes (text "verifiable-storage-nonce") ++ (as_bytes filename ++ as_bytes batch_id)))

  -- `Aes256Gcm::new_from_slice` wants a key of 32 bytes.
  unfoldable pub encrypt_file : Bytes → Str → Str → Bytes → Result CryptoError Bytes
  unfolding derive_encryption_key
  encrypt_file signing_key filename batch_id plaintext = do
    key ← derive_encryption_key signing_key
    guard (nat_beq (length key) 32) create_cipher_failed
    ok_or encryption_failed (K.aes_encrypt key (derive_nonce filename batch_id) plaintext)

  unfoldable pub decrypt_file : Bytes → Str → Str → Bytes → Result CryptoError Bytes
  unfolding derive_encryption_key
  decrypt_file signing_key filename batch_id ciphertext = do
    key ← derive_encryption_key signing_key
    guard (nat_beq (length key) 32) create_cipher_failed
    ok_or decryption_failed (K.aes_decrypt key (derive_nonce filename batch_id) ciphertext)

  -- The key file is its text, or none if it does not exist; it comes back with the keys.
  unfoldable pub load_or_generate_keypair :
      Bytes → Option Str → Result CryptoError (Keypair × Option Str)
  unfolding generate_keypair
  load_or_generate_keypair random (some key_data) = do
    key_bytes ← ok_or decode_key_file_failed (K.hex_decode (trim key_data))
    guard (nat_beq (length key_bytes) 64) invalid_key_file_format
    let signing_key = take 32 key_bytes
    let public_key = K.verifying_key signing_key
    ok (
      record {
        signing_key = signing_key;
        public_key = public_key;
        client_id = compute_client_id public_key;
      },
      some key_data,
    )
  load_or_generate_keypair random none = do
    let (signing_key, public_key) = generate_keypair random
    ok (
      record {
        signing_key = signing_key;
        public_key = public_key;
        client_id = compute_client_id public_key;
      },
      some (K.hex_encode (signing_key ++ public_key)),
    )
