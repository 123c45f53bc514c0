-- ===== src/Policy/Rates.antt =====
-- crates/krit-runtime/src/policy.rs: `AgentHost::check_rate`. One call holds the lock throughout; the
-- two times that it reads are arguments.
use krit.Base.{
  ℕ, ◌+◌, ◌-◌, ◌≡◌, ◌↔◌, Bool, true, false, ◌&&◌, ◌||◌, Option, none, some, List, [], ◌∷◌, ltb, leb,
  ◌==◌, length, if◌then◌else◌, ap,
}
use krit.Cache.Map.{Key, lookup, insert, remove}
use krit.Cache.Text.{Text, text_eq, text_lt, text_eq_iff}
use krit.Cache.Config.{saturating_add}
use krit.Policy.{RateLimitPolicy}

pub data RateResource : Type 0 where
  ai http : Text → RateResource

abbrev pub resource_eq : RateResource → RateResource → Bool
resource_eq (ai s) (ai t) = text_eq s t
resource_eq (http s) (http t) = text_eq s t
resource_eq r q = false

-- The derived order.
abbrev pub resource_lt : RateResource → RateResource → Bool
resource_lt (ai s) (ai t) = text_lt s t
resource_lt (ai s) (http t) = true
resource_lt (http s) (ai t) = false
resource_lt (http s) (http t) = text_lt s t

pub resource_eq_iff : (r q : RateResource) → (resource_eq r q ≡ true) ↔ (r ≡ q)
resource_eq_iff (ai s) (ai t) = (λ h. ap ai ((text_eq_iff s t).0 h), λ h. (text_eq_iff s t).1 cc)
resource_eq_iff (ai s) (http t) = (λ h. cc, λ h. cc)
resource_eq_iff (http s) (ai t) = (λ h. cc, λ h. cc)
resource_eq_iff (http s) (http t) =
    (λ h. ap http ((text_eq_iff s t).0 h), λ h. (text_eq_iff s t).1 cc)

instance abbrev pub resource_key : Key RateResource
resource_key = record { beq = resource_eq; beq_iff = resource_eq_iff }

pub record RateEntry : Type 0 where
  pub window_started : ℕ
  pub count : ℕ
  pub last_used : ℕ

pub record RateState : Type 0 where
  pub entries : List (RateResource × RateEntry)
  pub sequence : ℕ

-- `Result<(), String>`: the two messages. `missing` is the failed `expect`.
pub data RateAnswer : Type 0 where
  allowed limited tracking_disabled missing : RateAnswer

-- `min_by_key` over a map, which is sorted: the least `last_used`, and the least resource among those.
abbrev pub used_before : RateResource × RateEntry → RateResource × RateEntry → Bool
used_before (r, e) (q, f) =
    ltb e.last_used f.last_used || (e.last_used == f.last_used && resource_lt r q)

unfoldable pub least_used_from :
    RateResource × RateEntry → List (RateResource × RateEntry) → RateResource
least_used_from x [] = x.0
least_used_from x (y ∷ entries) = least_used_from (if used_before y x then y else x) entries

unfoldable pub least_used : List (RateResource × RateEntry) → Option RateResource
unfolding least_used_from
least_used [] = none
least_used (x ∷ entries) = some (least_used_from x entries)

abbrev pub fresh_entry : ℕ → ℕ → RateEntry
fresh_entry started sequence = record { window_started = started; count = 0; last_used = sequence }

-- The entries in which the resource is tracked; `none` when there is none to evict.
unfoldable pub track :
    ℕ
    → RateResource
    → ℕ
    → ℕ
    → List (RateResource × RateEntry)
    → Option (List (RateResource × RateEntry))
unfolding lookup least_used insert remove
track max_tracked r started sequence entries = elim (lookup r entries) [
  | some e ↦ some entries
  | none ↦
      if leb max_tracked (length entries)
      then elim (least_used entries) [
        | none ↦ none
        | some evicted ↦ some (insert r (fresh_entry started sequence) (remove evicted entries))
      ]
      else some (insert r (fresh_entry started sequence) entries)
]

-- The window that a call at a time falls into.
abbrev pub in_window : RateLimitPolicy → ℕ → RateEntry → RateEntry
in_window p now e =
    if leb p.window (now - e.window_started)
    then record e { window_started = now; count = 0 }
    else e

unfoldable pub count_call : RateLimitPolicy → ℕ → ℕ → RateEntry → RateAnswer × RateEntry
count_call p now sequence before =
    let e = record (in_window p now before) { last_used = sequence } in
    if leb p.capacity e.count then (limited, e) else (allowed, record e { count = e.count + 1 })

-- `AgentHost::check_rate`
unfoldable pub check_rate :
    ℕ → RateResource → RateLimitPolicy → ℕ → ℕ → RateState → RateAnswer × RateState
unfolding track lookup insert count_call saturating_add
check_rate max_tracked r p started now s =
    let sequence = saturating_add s.sequence 1 in
    elim (track max_tracked r started sequence s.entries) [
      | none ↦ (tracking_disabled, record s { sequence = sequence })
      | some entries ↦ elim (lookup r entries) [
        | none ↦ (missing, record { entries = entries; sequence = sequence })
        | some e ↦
            let (answer, e') = count_call p now sequence e in
            (answer, record { entries = insert r e' entries; sequence = sequence })
      ]
    ]
