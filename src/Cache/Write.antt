-- ===== src/Cache/Write.antt =====
-- crates/krit-cache/src/store.rs: `Cache::put` and `Cache::seed`, with the eviction loop.
use krit.Base.{
  ℕ, zero, suc, Bool, not, ◌&&◌, ◌||◌, Option, none, some, List, [], ◌∷◌, ltb, leb, if◌then◌else◌,
  length,
}
use krit.Base.Int.{ℤ, pos, negsuc, ltb_ℤ}
use krit.Cache.Map.{lookup, insert}
use krit.Cache.Text.{Text, byte_length, text_key, number_key, deadline_key}
use krit.Cache.Config.{
  CacheError, CacheResult, ok, err, ◌>>=◌, NamespacePolicy, saturating_add, checked_add,
  checked_mul, min_ttl_seconds, not_configured, read_only, value_too_long, ttl_out_of_bounds,
  deadline_overflow, namespace_full, cache_full,
}
use krit.Cache.Namespace.{Namespace, charge, least, evict_one, sweep_expired}
use krit.Cache.State.{
  Cache, validate_key, release, with_namespace, next_stamp, count_eviction, Answer, replaced,
  Writer, guest, host, refuses,
}

-- The oldest first stamp over the namespaces, with the name of its namespace.
unfoldable pub oldest : List (Text × Namespace) → Option (ℕ × Text)
unfolding least
oldest [] = none
oldest ((name, ns) ∷ more) = elim (least ltb ns.by_access) [
  | none ↦ oldest more
  | some (stamp, _) ↦ elim (oldest more) [
    | none ↦ some (stamp, name)
    | some (other, rival) ↦ some (if ltb other stamp then (other, rival) else (stamp, name))
  ]
]

-- `State::evict_globally`
unfoldable pub evict_globally : Cache → Option ℕ × Cache
unfolding oldest lookup evict_one with_namespace
evict_globally c = elim (oldest c.namespaces) [
  | none ↦ (none, c)
  | some (_, name) ↦ elim (lookup name c.namespaces) [
    | none ↦ (none, c)
    | some ns ↦ let (released, left) = evict_one ns in (released, with_namespace name left c)
  ]
]

unfoldable pub namespace_fits : ℕ → Namespace → Bool
unfolding saturating_add
namespace_fits cost ns =
    ltb (length ns.entries) ns.policy.max_entries
    && leb (saturating_add ns.bytes cost) ns.policy.max_bytes

unfoldable pub globally_fits : ℕ → Cache → Bool
unfolding saturating_add
globally_fits cost c =
    ltb c.total_entries c.max_total_entries
    && leb (saturating_add c.total_bytes cost) c.max_total_bytes

-- The eviction loop of `Cache::write`; `none` means that the fuel ran out.
abbrev pub evicted : Option ℕ → CacheError → Cache → (Cache → Option Answer) → Option Answer
evicted none full c continue = some (err full, c)
evicted (some bytes) full c continue = continue (count_eviction (release 1 bytes c))

unfoldable pub make_room : ℕ → Text → ℕ → Cache → Option Answer
unfolding lookup namespace_fits globally_fits evict_one evict_globally release count_eviction
make_room zero name cost c = none
make_room (suc fuel) name cost c = elim (lookup name c.namespaces) [
  | none ↦ some (err not_configured, c)
  | some ns ↦
      let local =
        let (released, left) = evict_one ns in
        evicted released namespace_full (with_namespace name left c) (make_room fuel name cost) in
      let global =
        let (released, c') = evict_globally c in
        evicted released cache_full c' (make_room fuel name cost) in
      if not (namespace_fits cost ns)
      then local
      else if globally_fits cost c
      then some (ok tt, c)
      else global
]

-- The end of `Cache::write`.
unfoldable pub stored : Text → Text → ℕ → ℕ → ℕ → Namespace → Namespace
unfolding insert saturating_add
stored key value deadline stamp cost ns = record ns {
  entries =
      insert key (record { value = value; expires_at_millis = deadline; stamp = stamp }) ns.entries;
  by_access = insert stamp key ns.by_access;
  by_expiry = insert (deadline, key) tt ns.by_expiry;
  bytes = saturating_add ns.bytes cost;
}

unfoldable pub store : Text → Text → Text → ℕ → ℕ → Cache → Answer
unfolding lookup stored with_namespace saturating_add
store name key value deadline cost c = elim (lookup name c.namespaces) [
  | none ↦ (err not_configured, c)
  | some ns ↦
      let c' = with_namespace name (stored key value deadline c.stamp cost ns) c in
      (
        ok tt,
        record c' {
          total_entries = saturating_add c'.total_entries 1;
          total_bytes = saturating_add c'.total_bytes cost;
          puts = saturating_add c'.puts 1;
        },
      )
]

-- The sweep that comes before the eviction loop.
unfoldable pub swept : Text → ℕ → Namespace → Cache → Cache
unfolding sweep_expired with_namespace release saturating_add
swept name now_millis ns c =
    let s = sweep_expired now_millis ns in
    let c' = release s.removed s.released (with_namespace name s.left c) in
    record c' { expirations = saturating_add c'.expirations s.removed }

abbrev pub continue_answer : Option Answer → (Cache → Answer) → Option Answer
continue_answer none f = none
continue_answer (some (err e, c)) f = some (err e, c)
continue_answer (some (ok _, c)) f = some (f c)

-- `u64::try_from(ttl_seconds)` and the checked arithmetic of the deadline.
unfoldable pub deadline_after : ℤ → ℕ → Option ℕ
unfolding checked_mul checked_add
deadline_after (negsuc n) now_millis = none
deadline_after (pos seconds) now_millis = elim (checked_mul seconds 1000) [
  | none ↦ none
  | some millis ↦ checked_add now_millis millis
]

-- The checks of `Cache::write`, up to the deadline.
unfoldable pub admit : NamespacePolicy → Text → Text → ℤ → ℕ → Writer → CacheResult ℕ
unfolding validate_key byte_length deadline_after
admit p key value ttl_seconds now_millis writer =
    if refuses p.mode writer
    then err read_only
    else validate_key key p.max_key_bytes >>= λ _.
        if ltb p.max_value_bytes (byte_length value)
        then err value_too_long
        else if ltb_ℤ ttl_seconds min_ttl_seconds || ltb_ℤ p.max_ttl_seconds ttl_seconds
        then err ttl_out_of_bounds
        else elim (deadline_after ttl_seconds now_millis) [
          | none ↦ err deadline_overflow
          | some deadline ↦ ok deadline
        ]

-- `Cache::write`; `put` is it with `guest`, `seed` with `host`.
unfoldable pub write : ℕ → Text → Text → Text → ℤ → ℕ → Writer → Cache → Option Answer
unfolding next_stamp lookup admit charge swept replaced make_room store
write fuel name key value ttl_seconds now_millis writer before =
    let c = next_stamp before in
    elim (lookup name c.namespaces) [
      | none ↦ some (err not_configured, c)
      | some ns ↦ elim (admit ns.policy key value ttl_seconds now_millis writer) [
        | err e ↦ some (err e, c)
        | ok deadline ↦
            let cost = charge key value in
            continue_answer
              (make_room fuel name cost (replaced name key (swept name now_millis ns c)))
              (store name key value deadline cost)
      ]
    ]

unfoldable pub put : ℕ → Text → Text → Text → ℤ → ℕ → Cache → Option Answer
unfolding write
put fuel name key value ttl_seconds now_millis c =
    write fuel name key value ttl_seconds now_millis guest c

unfoldable pub seed : ℕ → Text → Text → Text → ℤ → ℕ → Cache → Option Answer
unfolding write
seed fuel name key value ttl_seconds now_millis c =
    write fuel name key value ttl_seconds now_millis host c
