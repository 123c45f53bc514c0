-- ===== src/Policy/Windows.antt =====
-- crates/krit-runtime/src/policy.rs: how many calls `check_rate` lets through.
use krit.Base.{
  ℕ, ◌+◌, ◌-◌, ◌≡◌, ◌≢◌, ◌≤◌, ◌<◌, ◌⊎◌, refl, sym, ap, subst, ◌∙◌, Bool, true, false, ◌&&◌, Option,
  none, some, List, [], ◌∷◌, leb, if◌then◌else◌, arith, Bool-cases, Option-cases, inl, inr, ◌&&◌,
}
use krit.Cache.Map.{lookup, insert, lookup-insert, insert-Distinct, length-remove}
use krit.Cache.Config.{saturating_add}
use krit.Policy.{RateLimitPolicy}
use krit.Policy.Rates.{
  RateResource, resource_key, resource_eq, resource_eq_iff, RateEntry, RateState, RateAnswer,
  allowed, limited, fresh_entry, track, count_call, check_rate,
}
use krit.Policy.Tracking.{
  RateEntries, Tracked, Blocked, entry_or, Tracks, track-Tracks, count_call-decides,
}

module _ (max_tracked : ℕ) (r : RateResource) (p : RateLimitPolicy) (started now : ℕ)
    (s : RateState) where
  abbrev sequence : ℕ
  sequence = saturating_add s.sequence 1

  -- The entry that the call looks at, and what it makes of it.
  abbrev pub entry : RateEntry
  entry = entry_or (fresh_entry started sequence) (lookup r s.entries)

  abbrev pub counted : RateAnswer × RateEntry
  counted = count_call p now sequence entry

  check_rate-counted :
      (t : Tracks max_tracked r started sequence s.entries)
      → check_rate max_tracked r p started now s
        ≡ (counted.0, record { entries = insert r counted.1 t.after; sequence = sequence })
  unfolding check_rate
  check_rate-counted t = rw (check_rate, t.answered, t.found) refl

  after-Tracked :
      (t : Tracks max_tracked r started sequence s.entries)
      → Tracked max_tracked (insert r counted.1 t.after)
  unfolding insert
  after-Tracked t = record {
    distinct = insert-Distinct r counted.1 t.after t.tracked.distinct;
    few = omega (arith, t.tracked.few, length-remove r entry t.after t.tracked.distinct t.found);
  }

counted-decides :
    (r : RateResource) (p : RateLimitPolicy) (started now stamp : ℕ) (entries : RateEntries)
    (found : Option RateEntry)
    → 0 < p.capacity
    → lookup r entries ≡ found
    → (((count_call p now stamp (entry_or (fresh_entry started stamp) found)).0 ≡ limited)
        × Blocked r p now entries)
      ⊎ (((count_call p now stamp (entry_or (fresh_entry started stamp) found)).0 ≡ allowed)
          × (Blocked r p now entries → ⊥))
counted-decides r p started now stamp entries none some_capacity h =
    elim (count_call-decides p now stamp (fresh_entry started stamp) some_capacity) [
      | inl (refused, within, full) ↦ absurd (omega (arith, full, some_capacity))
      | inr (passed, room) ↦ inr (passed, λ blocked. let (e, there, within, full) = blocked in cc)
    ]
counted-decides r p started now stamp entries (some e) some_capacity h =
    elim (count_call-decides p now stamp e some_capacity) [
      | inl (refused, within, full) ↦ inl (refused, (e, h, within, full))
      | inr (passed, room) ↦ inr (
        passed,
        λ blocked.
            let (e', there, within, full) = blocked in
            let same : e' ≡ e = cc in ground (arith, room, within, full),
      )
    ]

-- With a tracking limit above 0, a capacity of at least one call and a state that tracks no more
-- resources than the limit, a call of check_rate is refused exactly when the resource is tracked, the
-- time is within its window and the window has seen as many calls as the capacity; every other call is
-- let through. The number of tracked resources stays within its limit.
pub check_rate-decides :
    (max_tracked : ℕ) (r : RateResource) (p : RateLimitPolicy) (started now : ℕ) (s : RateState)
    → 0 < max_tracked
    → 0 < p.capacity
    → Tracked max_tracked s.entries
    → Tracked max_tracked (check_rate max_tracked r p started now s).1.entries
      × ((((check_rate max_tracked r p started now s).0 ≡ limited) × Blocked r p now s.entries)
          ⊎ (((check_rate max_tracked r p started now s).0 ≡ allowed)
              × (Blocked r p now s.entries → ⊥)))
check_rate-decides max_tracked r p started now s some_tracked some_capacity h =
    let t =
      track-Tracks max_tracked r started (sequence max_tracked r p started now s) s.entries
        some_tracked h in
    rw (check_rate-counted max_tracked r p started now s t) (
      after-Tracked max_tracked r p started now s t,
      counted-decides r p started now (sequence max_tracked r p started now s) s.entries
          (lookup r s.entries) some_capacity refl,
    )

pub record Call : Type 0 where
  pub resource : RateResource
  pub policy : RateLimitPolicy
  pub started : ℕ
  pub now : ℕ

abbrev pub is_allowed : RateAnswer → Bool
is_allowed allowed = true
is_allowed answer = false

abbrev pub after_call : ℕ → Call → RateState → RateAnswer × RateState
after_call max_tracked c s = check_rate max_tracked c.resource c.policy c.started c.now s

-- How many of the calls, one after another, are let through for the resource.
unfoldable pub calls_allowed : ℕ → RateResource → List Call → RateState → ℕ
unfolding check_rate
calls_allowed max_tracked r [] s = 0
calls_allowed max_tracked r (c ∷ calls) s =
    let (answer, s') = after_call max_tracked c s in
    let rest = calls_allowed max_tracked r calls s' in
    if resource_eq c.resource r && is_allowed answer then rest + 1 else rest

-- Each call is on a tracked resource, and each on `r` is under the policy and within the window.
abbrev pub Within : RateResource → RateLimitPolicy → ℕ → List Call → RateEntries → Type 0
Within r p window_started [] entries = Unit
Within r p window_started (c ∷ calls) entries =
    (lookup c.resource entries ≢ none)
    × (c.resource ≡ r → (c.policy ≡ p) × (c.now - window_started < p.window))
    × Within r p window_started calls entries

insert-Within :
    (r q : RateResource) (p : RateLimitPolicy) (window_started : ℕ) (e : RateEntry)
    (calls : List Call) (entries : RateEntries)
    → Within r p window_started calls entries
    → Within r p window_started calls (insert q e entries)
insert-Within r q p window_started e [] entries h = tt
insert-Within r q p window_started e (c ∷ calls) entries (tracked, timely, h) = (
  λ gone. tracked (ground (arith, lookup-insert q c.resource e entries)),
  timely,
  insert-Within r q p window_started e calls entries h,
)

-- A call on a tracked resource replaces its entry.
tracked_call :
    (max_tracked : ℕ) (c : Call) (s : RateState) (e : RateEntry)
    → lookup c.resource s.entries ≡ some e
    → let (answer, e') = count_call c.policy c.now (saturating_add s.sequence 1) e in
      after_call max_tracked c s ≡ (
        answer,
        record { entries = insert c.resource e' s.entries; sequence = saturating_add s.sequence 1 },
      )
unfolding check_rate track
tracked_call max_tracked c s e found = rw (check_rate, track, found) (rw found refl)

-- Within the window a call is counted exactly when it is let through.
count_call-counts :
    (p : RateLimitPolicy) (now stamp : ℕ) (e : RateEntry)
    → now - e.window_started < p.window
    → e.count ≤ p.capacity
    → let (answer, e') = count_call p now stamp e in
      (e'.window_started ≡ e.window_started)
      × (e'.count ≤ p.capacity)
      × (((is_allowed answer ≡ true) × (e'.count ≡ e.count + 1))
          ⊎ ((is_allowed answer ≡ false) × (e'.count ≡ e.count)))
unfolding count_call
count_call-counts p now stamp e within few = elim (Bool-cases (leb p.capacity e.count)) [
  | inl full ↦ (ground arith, ground arith, inr (ground arith, ground arith))
  | inr room ↦ (ground arith, ground arith, inl (ground arith, ground arith))
]

step :
    (max_tracked : ℕ) (r : RateResource) (c : Call) (calls : List Call) (s : RateState)
    (result : RateAnswer × RateState)
    → after_call max_tracked c s ≡ result
    → calls_allowed max_tracked r (c ∷ calls) s ≡ (
        if resource_eq c.resource r && is_allowed result.0
        then calls_allowed max_tracked r calls result.1 + 1
        else calls_allowed max_tracked r calls result.1)
unfolding calls_allowed
step max_tracked r c calls s result h =
    ap
      (λ x.
        if resource_eq c.resource r && is_allowed x.0
        then calls_allowed max_tracked r calls x.1 + 1
        else calls_allowed max_tracked r calls x.1)
      h

-- In any run of calls on tracked resources, by whichever resources they interleave, no more calls are
-- let through for a resource while its window lasts than what its capacity leaves after those that the
-- window has already counted, when these are not more than the capacity.
pub calls_allowed_bounded :
    (max_tracked : ℕ) (r : RateResource) (p : RateLimitPolicy) (calls : List Call) (s : RateState)
    (e : RateEntry)
    → lookup r s.entries ≡ some e
    → e.count ≤ p.capacity
    → Within r p e.window_started calls s.entries
    → calls_allowed max_tracked r calls s + e.count ≤ p.capacity
unfolding calls_allowed
calls_allowed_bounded max_tracked r p [] s e found few h = omega (arith, few)
calls_allowed_bounded max_tracked r p (c ∷ calls) s e found few (tracked, timely, h) =
    elim (Option-cases (lookup c.resource s.entries)) [
      | inl gone ↦ absurd (tracked gone)
      | inr (f, there) ↦
          let stamp = saturating_add s.sequence 1 in
          let made = count_call c.policy c.now stamp f in
          let s' : RateState = record {
            entries = insert c.resource made.1 s.entries;
            sequence = stamp;
          } in
          let next =
            step max_tracked r c calls s (made.0, s') (tracked_call max_tracked c s f there) in
          elim (Bool-cases (resource_eq c.resource r)) [
            | inr other ↦
                let kept : lookup r (insert c.resource made.1 s.entries) ≡ some e =
                  ground (arith, lookup-insert c.resource r made.1 s.entries) in
                let rest =
                  calls_allowed_bounded max_tracked r p calls s' e kept few
                    (insert-Within r c.resource p e.window_started made.1 calls s.entries h) in
                rw (next, other) rest
            | inl same ↦
                let is : c.resource ≡ r = (resource_eq_iff c.resource r).0 same in
                let (governed, within) = timely is in
                let one : f ≡ e = ground (arith, ap (λ q. lookup q s.entries) is) in
                let count_same = ap (λ x. x.count) one in
                let start_same = ap (λ x. x.window_started) one in
                let capacity_same = ap (λ q. q.capacity) governed in
                let window_same = ap (λ q. q.window) governed in
                let (started, small, outcome) =
                  count_call-counts c.policy c.now stamp f
                    (omega (arith, within, start_same, window_same))
                    (omega (arith, few, count_same, capacity_same)) in
                let put : lookup r (insert c.resource made.1 s.entries) ≡ some made.1 =
                  ground (arith, lookup-insert c.resource r made.1 s.entries) in
                let rest =
                  calls_allowed_bounded max_tracked r p calls s' made.1 put
                    (omega (arith, small, capacity_same))
                    (subst (λ w. Within r p w calls (insert c.resource made.1 s.entries))
                      (sym (started ∙ start_same))
                      (insert-Within r c.resource p e.window_started made.1 calls s.entries h)) in
                elim outcome [
                  | inl (passed, more) ↦
                      rw (next, same, passed) (omega (arith, rest, more, count_same))
                  | inr (refused, no_more) ↦
                      rw (next, same, refused) (omega (arith, rest, no_more, count_same))
                ]
          ]
    ]
