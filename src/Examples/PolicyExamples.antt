-- ===== src/Examples/PolicyExamples.antt =====
-- crates/krit-runtime/src/policy.rs at concrete policies and calls.
use krit.Base.{ℕ, ◌+◌, ◌-◌, ◌*◌, ◌^◌, ◌≡◌, ◌≤◌, ◌⊎◌, true, refl, min, some, List, [], ◌∷◌, arith}
use krit.Cache.Map.{lookup, Distinct}
use krit.Cache.Text.{text_eq}
use krit.Policy.{RetryPolicy, RateLimitPolicy, is_valid_retry, delay}
use krit.Policy.Delays.{delay-doubles}
use krit.Policy.Rates.{
  RateResource, resource_key, RateEntry, RateState, allowed, limited, check_rate,
}
use krit.Policy.Tracking.{Tracked, Blocked}
use krit.Policy.Windows.{Call, calls_allowed, Within, check_rate-decides, calls_allowed_bounded}

abbrev retry : RetryPolicy
retry = record { max_attempts = 4; base_delay = 25_000_000; max_delay = 200_000_000 }

valid : is_valid_retry retry ≡ true
unfolding is_valid_retry
valid = refl

delay-doubles_example : delay retry 3 ≡ min (25_000_000 * 2 ^ (3 - 1)) 200_000_000
delay-doubles_example = delay-doubles retry 3 valid (omega arith)

-- Two calls within a window of a second.
abbrev rate : RateLimitPolicy
rate = record { capacity = 2; window = 1_000_000_000 }

abbrev model : RateResource
model = RateResource.ai (0x6D ∷ [])

abbrev used_once : RateEntry
used_once = record { window_started = 10; count = 1; last_used = 1 }

abbrev state : RateState
state = record { entries = (model, used_once) ∷ []; sequence = 1 }

state-Tracked : Tracked 1 state.entries
unfolding lookup
state-Tracked = record { distinct = Distinct.cons refl Distinct.nil; few = omega arith }

check_rate-decides_example :
    Tracked 1 (check_rate 1 model rate 20 20 state).1.entries
    × ((((check_rate 1 model rate 20 20 state).0 ≡ limited) × Blocked model rate 20 state.entries)
        ⊎ (((check_rate 1 model rate 20 20 state).0 ≡ allowed)
            × (Blocked model rate 20 state.entries → ⊥)))
check_rate-decides_example =
    check_rate-decides 1 model rate 20 20 state (omega arith) (omega arith) state-Tracked

abbrev call_at : ℕ → Call
call_at now = record { resource = model; policy = rate; started = now; now = now }

abbrev calls : List Call
calls = call_at 20 ∷ call_at 30 ∷ call_at 40 ∷ []

tracked : lookup model state.entries ≡ some used_once
unfolding lookup text_eq
tracked = refl

calls-Within : Within model rate 10 calls state.entries
unfolding lookup text_eq
calls-Within = (
  λ gone. cc,
  λ is. (refl, omega arith),
  (λ gone. cc, λ is. (refl, omega arith), (λ gone. cc, λ is. (refl, omega arith), tt)),
)

one_passes : calls_allowed 1 model calls state ≡ 1
unfolding calls_allowed text_eq
one_passes = refl

calls_allowed_bounded_example : calls_allowed 1 model calls state + 1 ≤ 2
calls_allowed_bounded_example =
    calls_allowed_bounded 1 model rate calls state used_once tracked (omega arith) calls-Within
