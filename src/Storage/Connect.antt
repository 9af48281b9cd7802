-- ===== src/Storage/Connect.antt =====
-- crates/storage/src/database.rs: the connection to the database with its retries.
use native.Mathlib.Decide.{dec_lt}
use native.Mathlib.Nat.{pow-suc, mul-le-mul_left}
use verifiable_storage.Prelude.{
  ℕ, zero, suc, ◌+◌, ◌-◌, ◌*◌, ◌^◌, ◌%◌, ◌<◌, ◌≤◌, ◌≡◌, refl, ap, ◌∙◌, Bool, true, false, List, [],
  ◌∷◌, arith, ltb, if◌then◌else◌, inl, inr, ◌⊎◌, ◌↔◌, not, ◌&&◌, ◌||◌,
}

-- What `PgPool::connect` and the query that tests the connection give.
pub data Attempt : Type 0 where
  connected test_failed connect_failed : Attempt

pub record DatabaseRetryConfig : Type 0 where
  pub max_attempts : ℕ
  pub initial_delay_seconds : ℕ

abbrev pub default_config : DatabaseRetryConfig
default_config = record { max_attempts = 5; initial_delay_seconds = 1 }

-- Power and product are those of `u64`: where a build does not check for overflow they wrap, and
-- where it does the code panics instead, if `delay_overflows`.
unfoldable pub calculate_retry_delay : ℕ → ℕ → ℕ
calculate_retry_delay attempt initial = initial * (2 ^ attempt % 2 ^ 64) % 2 ^ 64

unfoldable pub delay_overflows : ℕ → ℕ → Bool
delay_overflows attempt initial =
    not (ltb (2 ^ attempt) (2 ^ 64) && ltb (initial * 2 ^ attempt) (2 ^ 64))

-- Whether there is a connection, and the seconds slept after each attempt.
pub record Connection : Type 0 where
  pub is_connected : Bool
  pub delays : List ℕ

abbrev pub after_sleep : ℕ → Connection → Connection
after_sleep delay c = record c { delays = delay ∷ c.delays }

abbrev failed : Connection
failed = record { is_connected = false; delays = [] }

module _ (tries : ℕ → Attempt) (config : DatabaseRetryConfig) where
  -- What the loop does with an attempt, and with what the rest of the loop gives.
  abbrev pub attempted : ℕ → Attempt → Connection → Connection
  attempted attempt connected rest = record { is_connected = true; delays = [] }
  attempted attempt test_failed rest =
      if ltb attempt (config.max_attempts - 1)
      then after_sleep (calculate_retry_delay attempt config.initial_delay_seconds) rest
      else failed
  attempted attempt connect_failed rest =
      if ltb attempt (config.max_attempts - 1)
      then after_sleep (calculate_retry_delay attempt config.initial_delay_seconds) rest
      else rest

  -- The loop `for attempt in 0..config.max_attempts`, by the number of attempts that are left.
  unfoldable pub attempts_from : ℕ → ℕ → Connection
  attempts_from zero attempt = failed
  attempts_from (suc left) attempt =
      attempted attempt (tries attempt) (attempts_from left (suc attempt))

  unfoldable pub connect_with_retry : Connection
  unfolding attempts_from
  connect_with_retry = attempts_from config.max_attempts 0

module _ (tries : ℕ → Attempt) (config : DatabaseRetryConfig) where
  -- Whether an attempt comes to a delay that overflows, or the rest of the loop does.
  abbrev overflowed : ℕ → Attempt → Bool → Bool
  overflowed attempt connected rest = false
  overflowed attempt test_failed rest =
      ltb attempt (config.max_attempts - 1)
      && (delay_overflows attempt config.initial_delay_seconds || rest)
  overflowed attempt connect_failed rest =
      if ltb attempt (config.max_attempts - 1)
      then delay_overflows attempt config.initial_delay_seconds || rest
      else rest

  unfoldable pub overflows_from : ℕ → ℕ → Bool
  unfolding delay_overflows
  overflows_from zero attempt = false
  overflows_from (suc left) attempt =
      overflowed attempt (tries attempt) (overflows_from left (suc attempt))

  -- Whether the loop of `connect_with_retry` comes to a delay that overflows.
  unfoldable pub retry_overflows : Bool
  unfolding overflows_from
  retry_overflows = overflows_from config.max_attempts 0

abbrev pub total : List ℕ → ℕ
total [] = 0
total (d ∷ ds) = d + total ds

delay-le : (attempt initial : ℕ) → calculate_retry_delay attempt initial ≤ initial * 2 ^ attempt
unfolding calculate_retry_delay
delay-le attempt initial =
    let small : 2 ^ attempt % 2 ^ 64 ≤ 2 ^ attempt = omega arith in
    omega (arith, mul-le-mul_left initial small)

double : (attempt initial : ℕ) → initial * 2 ^ suc attempt ≡ 2 * (initial * 2 ^ attempt)
double attempt initial = ap (λ (p : ℕ). initial * p) (pow-suc 2 attempt) ∙ omega arith

-- Some attempt from `first` on, of those left, connects.
abbrev Connects : (ℕ → Attempt) → ℕ → ℕ → Type 0
Connects tries first left = (i : ℕ) × (first ≤ i) × (i < first + left) × (tries i ≡ connected)

module _ (tries : ℕ → Attempt) (config : DatabaseRetryConfig) where
  attempted-total :
      (attempt : ℕ) (a : Attempt) (rest : Connection)
      → total (attempted tries config attempt a rest).delays
        ≤ calculate_retry_delay attempt config.initial_delay_seconds + total rest.delays
  attempted-total attempt connected rest = omega arith
  attempted-total attempt test_failed rest = ground arith
  attempted-total attempt connect_failed rest = ground arith

  last-total :
      (attempt : ℕ) (a : Attempt)
      → attempt + 1 ≡ config.max_attempts
      → total
          (attempted tries config attempt a (record { is_connected = false; delays = [] })).delays
        ≡ 0
  last-total attempt connected e = refl
  last-total attempt test_failed e = ground arith
  last-total attempt connect_failed e = ground arith

  attempts_from-total :
      (left attempt : ℕ)
      → attempt + suc left ≡ config.max_attempts
      → total (attempts_from tries config (suc left) attempt).delays
          + config.initial_delay_seconds * 2 ^ attempt
        ≤ config.initial_delay_seconds * 2 ^ (config.max_attempts - 1)
  unfolding attempts_from
  attempts_from-total zero attempt e =
      let here : config.max_attempts - 1 ≡ attempt = omega (arith, e) in
      rw (last-total attempt (tries attempt) e, here) (omega arith)
  attempts_from-total (suc left) attempt e = omega (
    arith,
    attempts_from-total left (suc attempt) (omega (arith, e)),
    double attempt config.initial_delay_seconds,
    delay-le attempt config.initial_delay_seconds,
    attempted-total attempt (tries attempt) (attempts_from tries config (suc left) (suc attempt)),
  )

  attempted-connected :
      (attempt : ℕ) (a : Attempt) (rest : Connection)
      → (attempted tries config attempt a rest).is_connected ≡ true
      → (a ≡ connected) ⊎ (rest.is_connected ≡ true)
  attempted-connected attempt connected rest h = inl refl
  attempted-connected attempt test_failed rest h = inr (ground arith)
  attempted-connected attempt connect_failed rest h = inr (ground arith)

  attempted-later :
      (attempt : ℕ) (a : Attempt) (rest : Connection)
      → attempt < config.max_attempts - 1
      → rest.is_connected ≡ true
      → (attempted tries config attempt a rest).is_connected ≡ true
  attempted-later attempt connected rest lt h = refl
  attempted-later attempt test_failed rest lt h = ground arith
  attempted-later attempt connect_failed rest lt h = ground arith

  attempts_from_sound :
      (left attempt : ℕ)
      → (attempts_from tries config left attempt).is_connected ≡ true
      → Connects tries attempt left
  unfolding attempts_from
  attempts_from_sound zero attempt h = absurd (cc)
  attempts_from_sound (suc left) attempt h =
      elim (attempted-connected attempt (tries attempt)
        (attempts_from tries config left (suc attempt)) h) [
          | inl c ↦ (attempt, omega arith, omega arith, c)
          | inr later ↦
              let (i, ge, lt, c) = attempts_from_sound left (suc attempt) later in
              (i, omega (arith, ge), omega (arith, lt), c)
        ]

  attempts_from_complete :
      (left attempt : ℕ)
      → attempt + left ≡ config.max_attempts
      → Connects tries attempt left
      → (attempts_from tries config left attempt).is_connected ≡ true
  unfolding attempts_from
  attempts_from_complete zero attempt e (i, ge, lt, c) = absurd (omega (arith, ge, lt))
  attempts_from_complete (suc left) attempt e (i, ge, lt, c) = elim (dec_lt attempt i) [
    | yes later ↦
        attempted-later attempt (tries attempt) (attempts_from tries config left (suc attempt))
          (omega (arith, e, lt, later))
          (attempts_from_complete left (suc attempt) (omega (arith, e))
            (i, omega (arith, later), omega (arith, lt), c))
    | no here ↦ let same : attempt ≡ i = omega (arith, ge, here) in rw (ap tries same ∙ c) refl
  ]

  waits :
      (max : ℕ)
      → config.max_attempts ≡ max
      → total (connect_with_retry tries config).delays + config.initial_delay_seconds
        ≤ config.initial_delay_seconds * 2 ^ (config.max_attempts - 1)
  unfolding connect_with_retry attempts_from
  waits zero e = rw e (omega arith)
  waits (suc left) e = omega (
    arith,
    attempts_from-total left 0 (omega (arith, e)),
    ap (λ (n : ℕ). total (attempts_from tries config n 0).delays) e,
  )

  -- In a build that does not check for overflow, there is a connection at the end exactly if one of the `max_attempts` attempts gives one. The
  -- seconds slept and the initial delay are together at most the initial delay times two to the
  -- power of the attempts less one, even where the arithmetic of a delay wraps.
  pub connect_with_retry_lem :
      ((connect_with_retry tries config).is_connected ≡ true
        ↔ ((i : ℕ) × (i < config.max_attempts) × (tries i ≡ connected)))
      × (total (connect_with_retry tries config).delays + config.initial_delay_seconds
          ≤ config.initial_delay_seconds * 2 ^ (config.max_attempts - 1))
  unfolding connect_with_retry
  connect_with_retry_lem = (
    (
      λ h.
          let (i, _, lt, c) = attempts_from_sound config.max_attempts 0 h in
          (i, omega (arith, lt), c),
      λ (i, lt, c).
          attempts_from_complete config.max_attempts 0 (omega arith)
            (i, omega arith, omega (arith, lt), c),
    ),
    waits config.max_attempts refl,
  )
