-- ===== src/Tests/Keys.antt =====
-- Keys and encrypted files over the stand-in for the crates.
use verifiable_storage.Prelude.{◌≡◌, refl, Option, none, some, [], ◌∷◌, ◌++◌}
use verifiable_storage.Prelude.Result.{ok}
use verifiable_storage.Prelude.Text.{Bytes, Str, text}
use verifiable_storage.Crypto.{
  Keypair, encrypt_file, decrypt_file, load_or_generate_keypair, compute_client_id,
}
use verifiable_storage.Crypto.Laws.{
  decrypt_file-encrypt_file, encrypt_file-shift, load_or_generate_keypair-reload,
}
use verifiable_storage.Tests.ToyCrates.{toy_crates, toy_crates-IsLawful, digest, to_hex}

abbrev plaintext : Bytes
plaintext = 104 ∷ 105 ∷ []

abbrev signing_key : Bytes
signing_key = digest (9 ∷ [])

encrypted : encrypt_file signing_key (text "a.txt") (text "b1") plaintext ≡ ok plaintext
unfolding encrypt_file digest
encrypted = refl

decrypt_file-encrypt_file_example :
    decrypt_file signing_key (text "a.txt") (text "b1") plaintext ≡ ok plaintext
decrypt_file-encrypt_file_example =
    decrypt_file-encrypt_file toy_crates-IsLawful signing_key (text "a.txt") (text "b1") plaintext
      plaintext encrypted

encrypt_file-shift_example :
    encrypt_file signing_key (text "ab" ++ text "c") (text "d") plaintext
    ≡ encrypt_file signing_key (text "ab") (text "c" ++ text "d") plaintext
encrypt_file-shift_example =
    encrypt_file-shift signing_key plaintext (text "ab") (text "c") (text "d")

abbrev keys : Keypair
keys = record {
  signing_key = signing_key;
  public_key = digest signing_key;
  client_id = compute_client_id (digest signing_key);
}

abbrev key_file : Option Str
key_file = some (to_hex (signing_key ++ digest signing_key))

generated : load_or_generate_keypair signing_key none ≡ ok (keys, key_file)
unfolding load_or_generate_keypair
generated = refl

load_or_generate_keypair-reload_example :
    load_or_generate_keypair (digest []) key_file ≡ ok (keys, key_file)
load_or_generate_keypair-reload_example =
    load_or_generate_keypair-reload toy_crates-IsLawful signing_key (digest []) keys key_file
      (unfold digest in refl) generated
