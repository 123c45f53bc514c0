-- ===== src/Cache/Accepting.antt =====
-- crates/krit-cache/src/store.rs: a write that the policy lets through is stored.
use krit.Base.{ℕ, ◌+◌, ◌≡◌, ◌≤◌, ◌<◌, refl, ap, subst, some, arith, Option-cases, inl, inr}
use krit.Base.Int.{ℤ}
use krit.Cache.Map.{lookup}
use krit.Cache.Text.{Text, byte_length, text_key, number_key, deadline_key}
use krit.Cache.Config.{
  ok, word, NamespacePolicy, validate_policy, largest_entry, checked_add, saturating_add,
}
use krit.Cache.Namespace.{Namespace, charge, remove_key}
use krit.Cache.State.{Cache, Writer, next_stamp, replaced, validate_key, release, with_namespace}
use krit.Cache.Write.{swept, store, admit, write}
use krit.Cache.Sound.{Sound}
use krit.Cache.Sound.Room.{make_room-Outcome}
use krit.Cache.Sound.Fitting.{Affordable, make_room-Done}
use krit.Cache.Sound.Answers.{entry-Room}

-- A policy that passed validation, under the limits of the cache.
pub record Covered (p : NamespacePolicy) (c : Cache) : Type 0 where
  pub valid : validate_policy p ≡ ok tt
  pub entries_within : p.max_entries ≤ c.max_total_entries
  pub bytes_within : p.max_bytes ≤ c.max_total_bytes

-- Every namespace of the cache has such a policy.
abbrev pub Provisioned : Cache → Type 0
Provisioned c =
    (name : Text) (ns : Namespace) → lookup name c.namespaces ≡ some ns → Covered ns.policy c

validate_policy-bounds :
    (p : NamespacePolicy)
    → validate_policy p ≡ ok tt
    → (0 < p.max_entries) × (p.max_key_bytes + p.max_value_bytes + 64 ≤ p.max_bytes)
unfolding validate_policy largest_entry checked_add
validate_policy-bounds p h = ground arith

admit-bounds :
    (p : NamespacePolicy) (key value : Text) (ttl_seconds : ℤ) (now_millis : ℕ) (writer : Writer)
    (deadline : ℕ)
    → admit p key value ttl_seconds now_millis writer ≡ ok deadline
    → (byte_length key ≤ p.max_key_bytes) × (byte_length value ≤ p.max_value_bytes)
unfolding admit validate_key
admit-bounds p key value ttl_seconds now_millis writer deadline h = ground arith

charge-bound : (key value : Text) → charge key value ≤ byte_length key + byte_length value + 64
unfolding charge saturating_add
charge-bound key value = ground arith

replaced-limits :
    (name key : Text) (c : Cache)
    → ((replaced name key c).max_total_entries ≡ c.max_total_entries)
      × ((replaced name key c).max_total_bytes ≡ c.max_total_bytes)
unfolding replaced with_namespace release
replaced-limits name key c = elim (Option-cases (lookup name c.namespaces)) [
  | inl h ↦ rw (replaced, h) (refl, refl)
  | inr (ns, h) ↦ elim (Option-cases (remove_key key ns).0) [
    | inl none_left ↦ rw (replaced, h, none_left) (refl, refl)
    | inr (bytes, taken) ↦ rw (replaced, h, taken) (refl, refl)
  ]
]

store-ok :
    (name key value : Text) (deadline cost : ℕ) (ns : Namespace) (c : Cache)
    → lookup name c.namespaces ≡ some ns
    → (left : Cache) × (store name key value deadline cost c ≡ (ok tt, left))
unfolding store
store-ok name key value deadline cost ns c found =
    ((store name key value deadline cost c).1, rw (store, found) refl)

-- In a state within the invariant whose policies passed validation, with more fuel than entries and a
-- stamp counter below its limit, a write that the checks on its key, its value and its time to live
-- let through is stored: eviction always makes room for it, in the namespace and in the whole cache.
pub write-accepts :
    (name key value : Text) (ttl_seconds : ℤ) (now_millis : ℕ) (writer : Writer) (before : Cache)
    (fuel deadline : ℕ) (ns : Namespace)
    → Sound before
    → Provisioned before
    → before.stamp + 1 < word
    → before.total_entries < fuel
    → lookup name before.namespaces ≡ some ns
    → admit ns.policy key value ttl_seconds now_millis writer ≡ ok deadline
    → (left : Cache) × (write fuel name key value ttl_seconds now_millis writer before
        ≡ some (ok tt, left))
unfolding write next_stamp swept release with_namespace
write-accepts name key value ttl_seconds now_millis writer before fuel deadline ns sound provisioned
      below enough found good =
    let c = next_stamp before in
    let start = replaced name key (swept name now_millis ns c) in
    let (here, fewer) =
      entry-Room name key value ttl_seconds now_millis writer before sound below ns found in
    let covered = provisioned name ns found in
    let limits = replaced-limits name key (swept name now_millis ns c) in
    let affordable : Affordable ns.policy (charge key value) start = record {
      some_entry = (validate_policy-bounds ns.policy covered.valid).0;
      cost_bound = omega (
        arith,
        validate_policy-bounds ns.policy covered.valid,
        admit-bounds ns.policy key value ttl_seconds now_millis writer deadline good,
        charge-bound key value,
      );
      entries_within = rw limits.0 covered.entries_within;
      bytes_within = rw limits.1 covered.bytes_within;
    } in
    let (room_made, done) =
      make_room-Done before.stamp c.stamp ns.policy name key (charge key value) fuel start here
        (omega (arith, fewer)) affordable in
    let loop =
      make_room-Outcome before.stamp c.stamp ns.policy name key fuel (charge key value) start here
        (omega (arith, fewer)) in
    let same : loop.left ≡ room_made = ground (arith, loop.answered, done) in
    let (left, stored) =
      store-ok name key value deadline (charge key value) loop.room.ns room_made
        (subst (λ c. lookup name c.namespaces ≡ some loop.room.ns) same loop.room.found) in
    (left, rw (write, found, good, done) (ap some stored))
