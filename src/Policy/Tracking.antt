-- ===== src/Policy/Tracking.antt =====
-- crates/krit-runtime/src/policy.rs: what `check_rate` decides, and how much it tracks.
use krit.Base.{
  ℕ, ◌-◌, ◌≡◌, ◌≢◌, ◌≤◌, ◌<◌, ◌⊎◌, refl, subst, Option, none, some, List, [], ◌∷◌, leb, length,
  arith, Bool-cases, Option-cases, inl, inr,
}
use krit.Cache.Map.{
  lookup, insert, remove, Distinct, lookup-insert, lookup-remove, remove-fresh, remove-Distinct,
  insert-Distinct, length-remove,
}
use krit.Policy.{RateLimitPolicy}
use krit.Policy.Rates.{
  RateResource, resource_key, resource_eq, resource_eq_iff, RateEntry, allowed, limited,
  least_used_from, least_used, used_before, fresh_entry, track, count_call,
}

abbrev pub RateEntries : Type 0
RateEntries = List (RateResource × RateEntry)

-- Within the number of resources that may be tracked.
pub record Tracked (max_tracked : ℕ) (entries : RateEntries) : Type 0 where
  pub distinct : Distinct entries
  pub few : length entries ≤ max_tracked

-- A tracked resource has used up its window.
abbrev pub Blocked : RateResource → RateLimitPolicy → ℕ → RateEntries → Type 0
Blocked r p now entries =
    (e : RateEntry) × (lookup r entries ≡ some e)
    × (now - e.window_started < p.window)
    × (p.capacity ≤ e.count)

cons-found :
    (r q : RateResource) (e : RateEntry) (entries : RateEntries)
    → lookup r entries ≢ none
    → lookup r ((q, e) ∷ entries) ≢ none
unfolding lookup
cons-found r q e entries h gone = elim (Bool-cases (resource_eq q r)) [
  | inl same ↦ cc (rw same at gone)
  | inr apart ↦ h (rw apart at gone)
]

head-found :
    (r q q' : RateResource) (e e' : RateEntry) (entries : RateEntries)
    → lookup r ((q, e) ∷ entries) ≢ none
    → lookup r ((q, e) ∷ (q', e') ∷ entries) ≢ none
unfolding lookup
head-found r q q' e e' entries h gone = elim (Bool-cases (resource_eq q r)) [
  | inl same ↦ cc (rw same at gone)
  | inr apart ↦
      cons-found r q' e' entries (λ none_there. h (rw apart none_there)) (rw apart at gone)
]

least_used_from-found :
    (q : RateResource) (e : RateEntry) (entries : RateEntries)
    → lookup (least_used_from (q, e) entries) ((q, e) ∷ entries) ≢ none
unfolding least_used_from lookup
least_used_from-found q e [] gone = cc (rw ((resource_eq_iff q q).1 refl) at gone)
least_used_from-found q e ((q', e') ∷ entries) gone =
    elim (Bool-cases (used_before (q', e') (q, e))) [
      | inl before ↦
          cons-found (least_used_from (q', e') entries) q e ((q', e') ∷ entries)
            (least_used_from-found q' e' entries)
            (subst (λ x. lookup (least_used_from x entries) ((q, e) ∷ (q', e') ∷ entries) ≡ none)
              (rw before refl) gone)
      | inr after ↦
          head-found (least_used_from (q, e) entries) q q' e e' entries
            (least_used_from-found q e entries)
            (subst (λ x. lookup (least_used_from x entries) ((q, e) ∷ (q', e') ∷ entries) ≡ none)
              (rw after refl) gone)
    ]

-- Something is least used where anything is tracked.
least_used-found :
    (entries : RateEntries)
    → 0 < length entries
    → (q : RateResource) × (e : RateEntry) × (least_used entries ≡ some q)
      × (lookup q entries ≡ some e)
unfolding least_used
least_used-found [] h = absurd (omega (arith, h))
least_used-found ((q, e) ∷ entries) h =
    let found = least_used_from-found q e entries in
    elim (Option-cases (lookup (least_used_from (q, e) entries) ((q, e) ∷ entries))) [
      | inl gone ↦ absurd (found gone)
      | inr (e', there) ↦ (least_used_from (q, e) entries, e', refl, there)
    ]

-- The entry that a call looks at.
abbrev pub entry_or : RateEntry → Option RateEntry → RateEntry
entry_or fresh none = fresh
entry_or fresh (some e) = e

pub record Tracks (max_tracked : ℕ) (r : RateResource) (started sequence : ℕ)
    (entries : RateEntries) : Type 0 where
  pub after : RateEntries
  pub answered : track max_tracked r started sequence entries ≡ some after
  pub tracked : Tracked max_tracked after
  pub found : lookup r after ≡ some (entry_or (fresh_entry started sequence) (lookup r entries))

inserted-Tracks :
    (max_tracked : ℕ) (r : RateResource) (e : RateEntry) (entries : RateEntries)
    → Distinct entries
    → lookup r entries ≡ none
    → length entries < max_tracked
    → Tracked max_tracked (insert r e entries) × (lookup r (insert r e entries) ≡ some e)
unfolding insert
inserted-Tracks max_tracked r e entries distinct fresh room = (
  record {
    distinct = insert-Distinct r e entries distinct;
    few = rw (remove-fresh r entries fresh) (omega (arith, room));
  },
  ground (arith, lookup-insert r r e entries, resource_eq_iff r r),
)

pub track-Tracks :
    (max_tracked : ℕ) (r : RateResource) (started sequence : ℕ) (entries : RateEntries)
    → 0 < max_tracked
    → Tracked max_tracked entries
    → Tracks max_tracked r started sequence entries
unfolding track
track-Tracks max_tracked r started sequence entries some_tracked h =
    let fresh = fresh_entry started sequence in
    elim (Option-cases (lookup r entries)) [
      | inr (e, found) ↦ record {
        after = entries;
        answered = rw (track, found) refl;
        tracked = h;
        found = rw found refl;
      }
      | inl absent ↦ elim (Bool-cases (leb max_tracked (length entries))) [
        | inr room ↦
            let (tracked, found) =
              inserted-Tracks max_tracked r fresh entries h.distinct absent (ground arith) in
            record {
              after = insert r fresh entries;
              answered = rw (track, absent, room) refl;
              tracked = tracked;
              found = rw absent found;
            }
        | inl full ↦
            let long : max_tracked ≤ length entries = ground arith in
            let (q, e, least, there) = least_used-found entries (omega (arith, long)) in
            let shorter = length-remove q e entries h.distinct there in
            let (tracked, found) =
              inserted-Tracks max_tracked r fresh (remove q entries)
                (remove-Distinct q entries h.distinct) (ground (arith, lookup-remove q r entries))
                (omega (arith, shorter, h.few)) in
            record {
              after = insert r fresh (remove q entries);
              answered = rw (track, absent, full, least) refl;
              tracked = tracked;
              found = rw absent found;
            }
      ]
    ]

-- A call that finds the entry in its window, or starts a new one.
pub count_call-decides :
    (p : RateLimitPolicy) (now sequence : ℕ) (e : RateEntry)
    → 0 < p.capacity
    → (((count_call p now sequence e).0 ≡ limited)
        × (now - e.window_started < p.window)
        × (p.capacity ≤ e.count))
      ⊎ (((count_call p now sequence e).0 ≡ allowed)
          × ((now - e.window_started < p.window) → e.count < p.capacity))
unfolding count_call
count_call-decides p now sequence e some_capacity =
    elim (Bool-cases (leb p.window (now - e.window_started))) [
      | inl over ↦ inr (ground arith, λ within. ground arith)
      | inr within ↦ elim (Bool-cases (leb p.capacity e.count)) [
        | inl full ↦ inl (ground arith, ground arith, ground arith)
        | inr room ↦ inr (ground arith, λ there. ground arith)
      ]
    ]
