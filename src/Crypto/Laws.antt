-- ===== src/Crypto/Laws.antt =====
-- What the keys, the nonces and the encryption of crates/crypto guarantee.
use mathlib.Core.List.{append_assoc}
use verifiable_storage.Prelude.{
  ℕ, zero, suc, ◌≡◌, refl, ap, Option, none, some, [], ◌∷◌, ◌++◌, arith, length, take,
  length-append,
}
use verifiable_storage.Prelude.Result.{ok, >>=-eq-ok}
use verifiable_storage.Prelude.Text.{Bytes, Str, as_bytes-append, trim}
use verifiable_storage.Crates.{Crates, IsLawful}
use verifiable_storage.Merkle.{hash_data}
use verifiable_storage.Crypto.{
  public_key_from_bytes, Keypair, hash_leaf, derive_nonce, derive_encryption_key, encrypt_file,
  decrypt_file, load_or_generate_keypair,
}

take-append : (n : ℕ) (xs ys : Bytes) → length xs ≡ n → take n (xs ++ ys) ≡ xs
take-append zero [] ys h = refl
take-append zero (x ∷ xs) ys h = absurd (omega arith)
take-append (suc n) [] ys h = absurd (omega arith)
take-append (suc n) (x ∷ xs) ys h = ap (◌∷◌ x) (take-append n xs ys (omega arith))

module _ ⦃K : Crates⦄ where
  -- The two crates hash a leaf alike.
  pub hash_leaf-eq-hash_data : (b : Bytes) → hash_leaf b ≡ hash_data b
  unfolding hash_leaf hash_data
  hash_leaf-eq-hash_data b = refl

  pub public_key_from_bytes-same : (k k' : Bytes) → public_key_from_bytes k ≡ ok k' → k' ≡ k
  unfolding public_key_from_bytes
  public_key_from_bytes-same k k' h = ground arith

  derive_nonce-shift : (f g b : Str) → derive_nonce (f ++ g) b ≡ derive_nonce f (g ++ b)
  unfolding derive_nonce
  derive_nonce-shift f g b = simp (as_bytes-append, append_assoc)

  -- The encryption reads the filename and the batch only as one text: where `f ++ g` in batch `b`
  -- and `f` in batch `g ++ b` are two files, they are encrypted under one key and one nonce.
  pub encrypt_file-shift :
      (k p : Bytes) (f g b : Str) → encrypt_file k (f ++ g) b p ≡ encrypt_file k f (g ++ b) p
  unfolding encrypt_file
  encrypt_file-shift k p f g b = rw derive_nonce-shift

  module _ (L : IsLawful K) where
    -- What a client encrypts it decrypts again, under the same filename and batch.
    pub decrypt_file-encrypt_file :
        (k : Bytes) (f b : Str) (p c : Bytes)
        → encrypt_file k f b p ≡ ok c
        → decrypt_file k f b c ≡ ok p
    unfolding encrypt_file decrypt_file
    decrypt_file-encrypt_file k f b p c h =
        let (key, e, rest) = >>=-eq-ok (derive_encryption_key k) _ h in
        rw e (ground (arith, L.aes_round key (derive_nonce f b) p c))

    -- The key file that the first run writes gives the same keys and the same client in every
    -- later run, and stays as it is.
    pub load_or_generate_keypair-reload :
        (random random' : Bytes) (keys : Keypair) (file : Option Str)
        → length random ≡ 32
        → load_or_generate_keypair random none ≡ ok (keys, file)
        → load_or_generate_keypair random' file ≡ ok (keys, file)
    unfolding load_or_generate_keypair
    load_or_generate_keypair-reload random random' keys none len h = absurd (cc)
    load_or_generate_keypair-reload random random' keys (some written) len h =
        let data' = random ++ K.verifying_key random in
        let e : written ≡ K.hex_encode data' = ground arith in
        let read : K.hex_decode (trim written) ≡ some data' =
          rw (e, L.hex_trim data') (L.hex_round data') in
        let size : length data' ≡ 64 =
          omega
            (arith, length-append random (K.verifying_key random), L.verifying_key_len random) in
        rw (read, size, take-append 32 random (K.verifying_key random) len) (ground arith)
