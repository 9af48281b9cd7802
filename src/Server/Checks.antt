-- ===== src/Server/Checks.antt =====
-- bin/server/src/auth.rs and constants.rs: the checks that read no storage.
use verifiable_storage.Prelude.{
  ℕ, ◌+◌, ◌-◌, ◌/◌, ◌%◌, ◌^◌, Option, none, some, nat_beq, ltb, length, if◌then◌else◌,
}
use verifiable_storage.Prelude.Result.{Result, ok, err, ◌>>=◌, ◌>>◌, ok_or, guard, map_err}
use verifiable_storage.Prelude.Text.{Bytes, Str, trim}
use verifiable_storage.Crates.{Crates}
use verifiable_storage.Crypto.{CryptoError, public_key_from_bytes}
use verifiable_storage.Storage.{StorageError}

pub data AuthError : Type 0 where
  decode_public_key_failed invalid_public_key_length client_not_found : AuthError
  decode_signature_failed invalid_signature_length : AuthError
  clock_failed timestamp_too_old timestamp_in_future : AuthError
  parse_public_key_failed signature_failed : CryptoError → AuthError
  storage_failed : StorageError → AuthError

abbrev pub max_age_default : ℕ
max_age_default = 300

abbrev pub max_clock_skew_default : ℕ
max_clock_skew_default = 60

abbrev pub u64_mod : ℕ
u64_mod = 2 ^ 64

-- `now` is the system's clock in milliseconds, `none` if it stands before 1970. The cast to `u64`
-- and the sum wrap, the sum for no skew that the server uses; `saturating_sub` is the subtraction
-- of ℕ.
unfoldable pub validate_timestamp : Option ℕ → ℕ → ℕ → ℕ → Result AuthError (Unit {0})
validate_timestamp none request_timestamp_ms max_age_seconds max_clock_skew_seconds =
    err clock_failed
validate_timestamp (some now) request_timestamp_ms max_age_seconds max_clock_skew_seconds =
    let request_timestamp_seconds = request_timestamp_ms / 1000 in
    let now_seconds = now % u64_mod / 1000 in
    let age_seconds = now_seconds - request_timestamp_seconds in
    if ltb max_age_seconds age_seconds
    then err timestamp_too_old
    else if ltb ((now_seconds + max_clock_skew_seconds) % u64_mod) request_timestamp_seconds
    then err timestamp_in_future
    else ok tt

unfoldable pub validate_timestamp_default : Option ℕ → ℕ → Result AuthError (Unit {0})
unfolding validate_timestamp
validate_timestamp_default now request_timestamp_ms =
    validate_timestamp now request_timestamp_ms max_age_default max_clock_skew_default

module _ ⦃K : Crates⦄ where
  -- `Signature::from_bytes` takes any 64 bytes.
  unfoldable pub parse_signature : Str → Result AuthError Bytes
  parse_signature signature_hex = do
    signature_bytes ← ok_or decode_signature_failed (K.hex_decode (trim signature_hex))
    guard (nat_beq (length signature_bytes) 64) invalid_signature_length
    ok signature_bytes

  unfoldable pub validate_public_key : Str → Result AuthError (Unit {0})
  unfolding public_key_from_bytes
  validate_public_key public_key_hex = do
    public_key_bytes ← ok_or decode_public_key_failed (K.hex_decode (trim public_key_hex))
    guard (nat_beq (length public_key_bytes) 32) invalid_public_key_length
    parsed ← map_err parse_public_key_failed (public_key_from_bytes public_key_bytes)
    ok tt
