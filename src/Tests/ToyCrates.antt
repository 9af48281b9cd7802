-- ===== src/Tests/ToyCrates.antt =====
-- A stand-in for the crates that keeps what they document: a checksum of 32 bytes for the digest,
-- hexadecimal texts, signatures by checksums, and an encryption that leaves the text as it is.
use mathlib.Core.List.{reverse, reverse-append, reverse-reverse}
use verifiable_storage.Prelude.{
  ℕ, zero, suc, ◌+◌, ◌-◌, ◌*◌, ◌/◌, ◌%◌, ◌^◌, ◌<◌, ◌≡◌, refl, ap, sym, true, false, Option, none,
  some, [], ◌∷◌, ◌++◌, arith, length, ltb, All, if◌then◌else◌, ◌==◌, ==_iff, length-append,
}
use verifiable_storage.Prelude.Text.{Bytes, Str, is_whitespace, trim_start, trim, utf8, as_bytes}
use verifiable_storage.Prelude.Utf8.{IsScalar}
use verifiable_storage.Crates.{Crates, IsLawful, IsByte}

unfoldable pub checksum : ℕ → Bytes → ℕ
checksum h [] = h
checksum h (x ∷ xs) = checksum ((h * 257 + x + 1) % 2 ^ 32) xs

abbrev pub zeros : ℕ → Bytes
zeros zero = []
zeros (suc n) = 0 ∷ zeros n

unfoldable pub digest : Bytes → Bytes
unfolding checksum
digest b =
    let h = checksum 7 b in
    (h / 2 ^ 24) ∷ (h / 2 ^ 16 % 256) ∷ (h / 2 ^ 8 % 256) ∷ (h % 256) ∷ zeros 28

-- Numbers that are no bytes have digits too, beyond the Unicode characters.
unfoldable pub digit : ℕ → ℕ
digit d = if ltb d 10 then 48 + d else if ltb d 16 then 87 + d else 0x110000 + d

unfoldable pub undigit : ℕ → ℕ
undigit c = if ltb c 58 then c - 48 else if ltb c 0x110000 then c - 87 else c - 0x110000

unfoldable pub to_hex : Bytes → Str
unfolding digit
to_hex [] = []
to_hex (x ∷ xs) = digit (x / 16) ∷ digit (x % 16) ∷ to_hex xs

abbrev cons_byte : ℕ → Option Bytes → Option Bytes
cons_byte x none = none
cons_byte x (some xs) = some (x ∷ xs)

unfoldable pub from_hex : Str → Option Bytes
unfolding undigit
from_hex [] = some []
from_hex (c ∷ []) = none
from_hex (c ∷ d ∷ s) = cons_byte (16 * undigit c + undigit d) (from_hex s)

unfoldable pub signature_of : Bytes → Bytes → Bytes
unfolding digest
signature_of public_key message = digest (public_key ++ message) ++ digest (message ++ public_key)

instance abbrev pub toy_crates : Crates
toy_crates = record {
  sha256 = digest;
  hex_encode = to_hex;
  hex_decode = from_hex;
  base64_encode = to_hex;
  base64_decode = from_hex;
  verifying_key = digest;
  is_verifying_key = λ _. true;
  sign = λ key message. signature_of (digest key) message;
  verify = λ public_key message signature. signature == signature_of public_key message;
  hkdf_expand = λ key info. some (digest (key ++ info));
  aes_encrypt = λ key nonce plaintext. some plaintext;
  aes_decrypt = λ key nonce ciphertext. some ciphertext;
}

undigit-digit : (d : ℕ) → undigit (digit d) ≡ d
unfolding undigit digit
undigit-digit d = ground arith

from_hex-to_hex : (b : Bytes) → from_hex (to_hex b) ≡ some b
unfolding from_hex to_hex
from_hex-to_hex [] = refl
from_hex-to_hex (x ∷ xs) =
    rw (from_hex-to_hex xs) (
      ap (λ (n : ℕ). some (n ∷ xs)) (omega (arith, undigit-digit (x / 16), undigit-digit (x % 16))))

digit-not_whitespace : (d : ℕ) → is_whitespace (digit d) ≡ false
unfolding is_whitespace digit
digit-not_whitespace d = ground arith

abbrev NotWhite : ℕ → Type 0
NotWhite c = is_whitespace c ≡ false

to_hex-NotWhite : (b : Bytes) → All NotWhite (to_hex b)
unfolding to_hex
to_hex-NotWhite [] = tt
to_hex-NotWhite (x ∷ xs) =
    (digit-not_whitespace (x / 16), (digit-not_whitespace (x % 16), to_hex-NotWhite xs))

append-NotWhite : (s t : Str) → All NotWhite s → All NotWhite t → All NotWhite (s ++ t)
append-NotWhite [] t hs ht = ht
append-NotWhite (c ∷ s) t hs ht = (hs.0, append-NotWhite s t hs.1 ht)

reverse-NotWhite : (s : Str) → All NotWhite s → All NotWhite (reverse s)
reverse-NotWhite [] h = tt
reverse-NotWhite (c ∷ s) h =
    rw (reverse-append (c ∷ []) s)
      (append-NotWhite (reverse s) (c ∷ []) (reverse-NotWhite s h.1) (h.0, tt))

trim_start_none : (s : Str) → All NotWhite s → trim_start s ≡ s
unfolding trim_start
trim_start_none [] h = refl
trim_start_none (c ∷ s) h = rw h.0 refl

trim_none : (s : Str) → All NotWhite s → trim s ≡ s
unfolding trim
trim_none s h =
    rw (trim_start_none s h, trim_start_none (reverse s) (reverse-NotWhite s h)) (reverse-reverse s)

digit-ascii : (d : ℕ) → d < 16 → utf8 (digit d) ≡ digit d ∷ []
unfolding utf8 digit
digit-ascii d h = ground arith

length-to_hex : (b : Bytes) → All IsByte b → length (as_bytes (to_hex b)) ≡ 2 * length b
unfolding to_hex as_bytes
length-to_hex [] h = refl
length-to_hex (x ∷ xs) h =
    rw (digit-ascii (x / 16) (omega (arith, h.0)), digit-ascii (x % 16) (omega arith))
      (omega (arith, length-to_hex xs h.1))

digit-IsScalar : (d : ℕ) → d < 16 → IsScalar (digit d)
unfolding digit
digit-IsScalar d h = ground arith

to_hex-IsScalar : (b : Bytes) → All IsByte b → All IsScalar (to_hex b)
unfolding to_hex
to_hex-IsScalar [] h = tt
to_hex-IsScalar (x ∷ xs) h = (
  digit-IsScalar (x / 16) (omega (arith, h.0)),
  (digit-IsScalar (x % 16) (omega arith), to_hex-IsScalar xs h.1),
)

checksum-lt : (h : ℕ) (b : Bytes) → h < 2 ^ 32 → checksum h b < 2 ^ 32
unfolding checksum
checksum-lt h [] lt = lt
checksum-lt h (x ∷ xs) lt = checksum-lt ((h * 257 + x + 1) % 2 ^ 32) xs (omega arith)

zeros-IsByte : (n : ℕ) → All IsByte (zeros n)
zeros-IsByte zero = tt
zeros-IsByte (suc n) = (omega arith, zeros-IsByte n)

digest-IsByte : (b : Bytes) → All IsByte (digest b)
unfolding digest
digest-IsByte b =
    let lt = checksum-lt 7 b (omega arith) in
    (omega (arith, lt), (omega arith, (omega arith, (omega arith, zeros-IsByte 28))))

append-IsByte : (b c : Bytes) → All IsByte b → All IsByte c → All IsByte (b ++ c)
append-IsByte [] c hb hc = hc
append-IsByte (x ∷ b) c hb hc = (hb.0, append-IsByte b c hb.1 hc)

length-digest : (b : Bytes) → length (digest b) ≡ 32
unfolding digest
length-digest b = refl

pub toy_crates-IsLawful : IsLawful toy_crates
toy_crates-IsLawful = record {
  sha256_len = length-digest;
  sha256_bytes = digest-IsByte;
  hex_round = from_hex-to_hex;
  hex_trim = λ b. trim_none (to_hex b) (to_hex-NotWhite b);
  hex_scalar = to_hex-IsScalar;
  hex_len = length-to_hex;
  base64_round = from_hex-to_hex;
  verifying_key_len = length-digest;
  verifying_key_valid = λ _. refl;
  verifying_key_bytes = digest-IsByte;
  sign_bytes = λ k m.
      unfold signature_of in
      append-IsByte (digest (digest k ++ m)) (digest (m ++ digest k))
        (digest-IsByte (digest k ++ m)) (digest-IsByte (m ++ digest k));
  sign_len =
      λ k m. unfold signature_of in length-append (digest (digest k ++ m)) (digest (m ++ digest k));
  verify_sign = λ k m. (==_iff _ _).1 refl;
  aes_round = λ k n p c h. sym h;
}
