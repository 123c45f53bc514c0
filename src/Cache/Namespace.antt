-- ===== src/Cache/Namespace.antt =====
-- crates/krit-cache/src/store.rs: one namespace, with its indexes by access and by deadline.
use krit.Base.{ℕ, zero, suc, ◌+◌, ◌-◌, Bool, Option, none, some, List, [], ◌∷◌, ltb, if◌then◌else◌}
use krit.Cache.Map.{lookup, remove}
use krit.Cache.Text.{Text, byte_length, text_key, number_key, deadline_key, deadline_lt}
use krit.Cache.Config.{NamespacePolicy, entry_overhead_bytes, saturating_add}

pub record Entry : Type 0 where
  pub value : Text
  pub expires_at_millis : ℕ
  pub stamp : ℕ

pub record Namespace : Type 0 where
  pub policy : NamespacePolicy
  pub entries : List (Text × Entry)
  pub by_access : List (ℕ × Text)
  pub by_expiry : List ((ℕ × Text) × Unit {0})
  pub bytes : ℕ

-- `Namespace::new`
unfoldable pub new_namespace : NamespacePolicy → Namespace
new_namespace p = record { policy = p; entries = []; by_access = []; by_expiry = []; bytes = 0 }

-- `Namespace::charge`
unfoldable pub charge : Text → Text → ℕ
unfolding saturating_add byte_length
charge key value =
    saturating_add (saturating_add (byte_length key) (byte_length value)) entry_overhead_bytes

-- `BTreeMap::iter().next()`: the entry with the least key.
module _ {K V : Type 0} (lt : K → K → Bool) where
  unfoldable pub least_from : K × V → List (K × V) → K × V
  least_from (k, v) [] = (k, v)
  least_from (k, v) ((j, w) ∷ m) = least_from (if lt j k then (j, w) else (k, v)) m

  unfoldable pub least : List (K × V) → Option (K × V)
  unfolding least_from
  least [] = none
  least (e ∷ m) = some (least_from e m)

-- What `Namespace::remove` leaves when the key has the entry.
unfoldable pub without : Text → Entry → Namespace → Namespace
unfolding remove charge
without key e ns = record ns {
  entries = remove key ns.entries;
  by_access = remove e.stamp ns.by_access;
  by_expiry = remove (e.expires_at_millis, key) ns.by_expiry;
  bytes = ns.bytes - charge key e.value;
}

-- `Namespace::remove`: the bytes released, and the namespace after.
unfoldable pub remove_key : Text → Namespace → Option ℕ × Namespace
unfolding lookup without
remove_key key ns = elim (lookup key ns.entries) [
  | none ↦ (none, ns)
  | some e ↦ (some (charge key e.value), without key e ns)
]

-- `Namespace::evict_one`
unfoldable pub evict_one : Namespace → Option ℕ × Namespace
unfolding least remove_key
evict_one ns = elim (least ltb ns.by_access) [
  | none ↦ (none, ns)
  | some (stamp, key) ↦ remove_key key ns
]

abbrev pub unwrap_or_zero : Option ℕ → ℕ
unwrap_or_zero none = 0
unwrap_or_zero (some n) = n

pub record Sweep : Type 0 where
  pub removed : ℕ
  pub released : ℕ
  pub left : Namespace

abbrev pub max_sweep_per_operation : ℕ
max_sweep_per_operation = 8

abbrev pub after_round : Option ℕ × Namespace → ℕ → ℕ → Sweep
after_round (bytes, ns) removed released = record {
  removed = removed + 1;
  released = released + unwrap_or_zero bytes;
  left = ns;
}

-- The loop of `Namespace::sweep_expired`, with the rounds left.
unfoldable pub sweep_rounds : ℕ → ℕ → Sweep → Sweep
unfolding least remove_key
sweep_rounds zero now_millis s = s
sweep_rounds (suc rounds) now_millis s = elim (least deadline_lt s.left.by_expiry) [
  | none ↦ s
  | some ((expires_at, key), _) ↦
      let next =
        sweep_rounds rounds now_millis (after_round (remove_key key s.left) s.removed s.released) in
      if ltb now_millis expires_at then s else next
]

unfoldable pub sweep_expired : ℕ → Namespace → Sweep
unfolding sweep_rounds
sweep_expired now_millis ns =
    sweep_rounds max_sweep_per_operation now_millis
      (record { removed = 0; released = 0; left = ns })
