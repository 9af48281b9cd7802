-- ===== src/Crates.antt =====
-- The functions of third-party crates that the program calls: sha2, hex, base64, ed25519_dalek,
-- hkdf and aes_gcm. They are parameters, with what the code relies on as `IsLawful`.
use verifiable_storage.Prelude.{ℕ, ◌*◌, ◌<◌, ◌≡◌, Bool, true, Option, some, All, length}
use verifiable_storage.Prelude.Text.{Bytes, Str, trim, as_bytes}
use verifiable_storage.Prelude.Utf8.{IsScalar}

pub record Crates : Type 0 where
  -- `Sha256::digest`
  pub sha256 : Bytes → Bytes
  -- `hex::encode`, `hex::decode`
  pub hex_encode : Bytes → Str
  pub hex_decode : Str → Option Bytes
  -- `STANDARD.encode`, `STANDARD.decode`
  pub base64_encode : Bytes → Str
  pub base64_decode : Str → Option Bytes
  -- `SigningKey::verifying_key`, on the 32 bytes of a secret key, to the 32 bytes of a public one
  pub verifying_key : Bytes → Bytes
  -- whether `VerifyingKey::from_bytes` accepts 32 bytes
  pub is_verifying_key : Bytes → Bool
  -- `SigningKey::sign`: secret key, message; the 64 bytes of the signature
  pub sign : Bytes → Bytes → Bytes
  -- `VerifyingKey::verify`: public key, message, signature
  pub verify : Bytes → Bytes → Bytes → Bool
  -- `Hkdf::<Sha256>::new(None, key).expand(info, 32 bytes)`; no result is the error of `expand`
  pub hkdf_expand : Bytes → Bytes → Option Bytes
  -- `Aes256Gcm::encrypt`, `decrypt`: key, nonce, text
  pub aes_encrypt : Bytes → Bytes → Bytes → Option Bytes
  pub aes_decrypt : Bytes → Bytes → Bytes → Option Bytes

abbrev pub IsByte : ℕ → Type 0
IsByte x = x < 256

-- What the crates document.
pub record IsLawful (K : Crates) : Type 0 where
  pub sha256_len : (b : Bytes) → length (K.sha256 b) ≡ 32
  pub sha256_bytes : (b : Bytes) → All IsByte (K.sha256 b)
  -- decoding undoes encoding; hexadecimal digits are no white space and ASCII, two for a byte
  pub hex_round : (b : Bytes) → K.hex_decode (K.hex_encode b) ≡ some b
  pub hex_trim : (b : Bytes) → trim (K.hex_encode b) ≡ K.hex_encode b
  pub hex_scalar : (b : Bytes) → All IsByte b → All IsScalar (K.hex_encode b)
  pub hex_len : (b : Bytes) → All IsByte b → length (as_bytes (K.hex_encode b)) ≡ 2 * length b
  pub base64_round : (b : Bytes) → K.base64_decode (K.base64_encode b) ≡ some b
  -- keys and signatures are bytes and have their sizes; what a key signs its public key verifies
  pub verifying_key_len : (k : Bytes) → length (K.verifying_key k) ≡ 32
  pub verifying_key_valid : (k : Bytes) → K.is_verifying_key (K.verifying_key k) ≡ true
  pub verifying_key_bytes : (k : Bytes) → All IsByte (K.verifying_key k)
  pub sign_bytes : (k m : Bytes) → All IsByte (K.sign k m)
  pub sign_len : (k m : Bytes) → length (K.sign k m) ≡ 64
  pub verify_sign : (k m : Bytes) → K.verify (K.verifying_key k) m (K.sign k m) ≡ true
  -- what is encrypted under a key and a nonce is decrypted under them
  pub aes_round : (k n p c : Bytes) → K.aes_encrypt k n p ≡ some c → K.aes_decrypt k n c ≡ some p
