-- ===== src/Server/Timestamps.antt =====
-- Which timestamps the server accepts.
use verifiable_storage.Prelude.{ℕ, ◌+◌, ◌/◌, ◌<◌, ◌≤◌, ◌≡◌, ◌↔◌, some, arith}
use verifiable_storage.Prelude.Result.{ok}
use verifiable_storage.Server.Checks.{validate_timestamp_default, u64_mod}

-- In whole seconds, the server accepts a timestamp exactly if it is at most five minutes behind its
-- clock and at most one minute ahead of it.
pub validate_timestamp_default_iff :
    (now timestamp : ℕ)
    → now < u64_mod
    → (validate_timestamp_default (some now) timestamp ≡ ok tt)
      ↔ ((now / 1000 ≤ timestamp / 1000 + 300) × (timestamp / 1000 ≤ now / 1000 + 60))
unfolding validate_timestamp_default
validate_timestamp_default_iff now timestamp lt = ground arith
