-- ===== src/Policy.antt =====
-- crates/krit-runtime/src/policy.rs: retry and rate policies. A `Duration` is its nanoseconds.
pub mod Rates
pub mod Tracking
pub mod Windows
pub mod Delays
use krit.Base.{ℕ, ◌+◌, ◌-◌, ◌*◌, ◌^◌, Bool, not, ◌||◌, ltb, ◌==◌, min, if◌then◌else◌}

abbrev pub nanos_per_second : ℕ
nanos_per_second = 1_000_000_000

abbrev pub max_retry_attempts : ℕ
max_retry_attempts = 4

abbrev pub max_retry_delay : ℕ
max_retry_delay = 2 * nanos_per_second

abbrev pub max_rate_capacity : ℕ
max_rate_capacity = 10_000

abbrev pub max_rate_window : ℕ
max_rate_window = 60 * 60 * nanos_per_second

-- `Duration::MAX`
abbrev pub max_duration : ℕ
max_duration = (2 ^ 64 - 1) * nanos_per_second + 999_999_999

pub record RetryPolicy : Type 0 where
  pub max_attempts : ℕ
  pub base_delay : ℕ
  pub max_delay : ℕ

-- `RetryPolicy::validate`, without the message
unfoldable pub is_valid_retry : RetryPolicy → Bool
is_valid_retry p = not (
    p.max_attempts == 0
    || ltb max_retry_attempts p.max_attempts
    || ltb p.max_delay p.base_delay
    || ltb max_retry_delay p.max_delay)

-- `u32::saturating_pow`, of 2
unfoldable pub saturating_power : ℕ → ℕ
saturating_power exponent = min (2 ^ exponent) (2 ^ 32 - 1)

-- `RetryPolicy::delay`
unfoldable pub delay : RetryPolicy → ℕ → ℕ
unfolding saturating_power
delay p completed_attempts =
    min (min (p.base_delay * saturating_power (completed_attempts - 1)) max_duration) p.max_delay

pub record RateLimitPolicy : Type 0 where
  pub capacity : ℕ
  pub window : ℕ

-- `RateLimitPolicy::validate`, without the message
unfoldable pub is_valid_rate : RateLimitPolicy → Bool
is_valid_rate p = not (
    p.capacity == 0
    || ltb max_rate_capacity p.capacity
    || ltb p.window 1_000_000
    || ltb max_rate_window p.window)
