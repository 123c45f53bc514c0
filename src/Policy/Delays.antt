-- ===== src/Policy/Delays.antt =====
-- crates/krit-runtime/src/policy.rs: the delays between the attempts of a request.
use krit.Base.{
  ℕ, zero, suc, ◌-◌, ◌*◌, ◌^◌, ◌≡◌, ◌≤◌, ◌<◌, true, min, leb, arith, Bool-cases, inl, inr,
}
use native.Mathlib.Nat.{mul-le-mul}
use krit.Policy.{
  RetryPolicy, is_valid_retry, saturating_power, delay, max_duration, nanos_per_second,
}

-- Neither the factor nor the product reaches its limit before the greatest delay does.
saturation_hidden :
    (base factor greatest : ℕ)
    → base ≤ greatest
    → greatest ≤ 2 * nanos_per_second
    → min (min (base * min factor (2 ^ 32 - 1)) max_duration) greatest
      ≡ min (base * factor) greatest
saturation_hidden zero factor greatest small short = omega arith
saturation_hidden (suc base) factor greatest small short =
    elim (Bool-cases (leb factor (2 ^ 32 - 1))) [
      | inl within ↦
          let few : factor ≤ 2 ^ 32 - 1 = ground arith in
          let exact : min factor (2 ^ 32 - 1) ≡ factor = omega arith in
          let low : suc base ≤ 2_000_000_000 = omega (arith, small, short) in
          let product : suc base * factor ≤ 2_000_000_000 * (2 ^ 32 - 1) = mul-le-mul low few in
          rw exact (omega (arith, product))
      | inr beyond ↦
          let many : 2 ^ 32 - 1 < factor = ground arith in
          let capped : min factor (2 ^ 32 - 1) ≡ 2 ^ 32 - 1 = omega arith in
          let one : 1 ≤ suc base = omega arith in
          let same : factor ≤ factor = omega arith in
          let wide : 1 * factor ≤ suc base * factor = mul-le-mul one same in
          rw capped (omega (arith, wide, many))
    ]

valid-bounds :
    (p : RetryPolicy)
    → is_valid_retry p ≡ true
    → (p.base_delay ≤ p.max_delay) × (p.max_delay ≤ 2 * nanos_per_second)
unfolding is_valid_retry
valid-bounds p h = ground arith

-- After one or more attempts the delay of a valid policy is the base delay, doubled once for each attempt
-- before the last, or the greatest delay where that is less; the saturating arithmetic never shows.
pub delay-doubles :
    (p : RetryPolicy) (completed_attempts : ℕ)
    → is_valid_retry p ≡ true
    → 0 < completed_attempts
    → delay p completed_attempts ≡ min (p.base_delay * 2 ^ (completed_attempts - 1)) p.max_delay
unfolding delay saturating_power
delay-doubles p completed_attempts valid some_attempt =
    saturation_hidden p.base_delay (2 ^ (completed_attempts - 1)) p.max_delay
      (valid-bounds p valid).0 (valid-bounds p valid).1
