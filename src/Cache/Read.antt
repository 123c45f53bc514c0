-- ===== src/Cache/Read.antt =====
-- crates/krit-cache/src/store.rs: `Cache::get` and `Cache::delete`.
use krit.Base.{ℕ, Option, none, some, leb, if◌then◌else◌}
use krit.Cache.Map.{lookup, remove, insert}
use krit.Cache.Text.{Text, text_key, number_key, deadline_key}
use krit.Cache.Config.{
  NamespaceMode, CacheResult, ok, err, saturating_add, not_configured, read_only,
}
use krit.Cache.Namespace.{Entry, Namespace, remove_key, unwrap_or_zero}
use krit.Cache.State.{
  Cache, validate_key, release, with_namespace, next_stamp, count_miss, Answer, replaced, guest,
  refuses,
}

-- The entry is past its deadline: it is removed, and read as absent.
unfoldable pub expire : Text → Text → Namespace → Cache → Cache
unfolding remove_key with_namespace release count_miss
expire name key ns c =
    let (released, left) = remove_key key ns in
    let c' = release 1 (unwrap_or_zero released) (with_namespace name left c) in
    count_miss (record c' { expirations = saturating_add c'.expirations 1 })

-- A hit moves the entry to the newest stamp.
unfoldable pub refreshed : Text → Entry → ℕ → Namespace → Namespace
unfolding insert remove
refreshed key e stamp ns = record ns {
  by_access = insert stamp key (remove e.stamp ns.by_access);
  entries = insert key (record e { stamp = stamp }) ns.entries;
}

unfoldable pub refresh : Text → Text → Entry → Namespace → Cache → Cache
unfolding refreshed with_namespace
refresh name key e ns c =
    let c' = with_namespace name (refreshed key e c.stamp ns) c in
    record c' { hits = saturating_add c'.hits 1 }

unfoldable pub read_entry : Text → Text → ℕ → Namespace → Cache → CacheResult (Option Text) × Cache
unfolding lookup expire refresh count_miss
read_entry name key now_millis ns c = elim (lookup key ns.entries) [
  | none ↦ (ok none, count_miss c)
  | some e ↦
      if leb e.expires_at_millis now_millis
      then (ok none, expire name key ns c)
      else (ok (some e.value), refresh name key e ns c)
]

-- `Cache::get`
unfoldable pub get : Text → Text → ℕ → Cache → CacheResult (Option Text) × Cache
unfolding next_stamp lookup validate_key read_entry
get name key now_millis before =
    let c = next_stamp before in
    elim (lookup name c.namespaces) [
      | none ↦ (err not_configured, c)
      | some ns ↦ elim (validate_key key ns.policy.max_key_bytes) [
        | err e ↦ (err e, c)
        | ok _ ↦ read_entry name key now_millis ns c
      ]
    ]

-- `Cache::delete`
unfoldable pub delete : Text → Text → Cache → Answer
unfolding lookup validate_key replaced saturating_add
delete name key c = elim (lookup name c.namespaces) [
  | none ↦ (err not_configured, c)
  | some ns ↦
      if refuses ns.policy.mode guest
      then (err read_only, c)
      else elim (validate_key key ns.policy.max_key_bytes) [
        | err e ↦ (err e, c)
        | ok _ ↦
            let c' = replaced name key c in
            (ok tt, record c' { deletes = saturating_add c'.deletes 1 })
      ]
]

pub record CacheStats : Type 0 where
  pub hits : ℕ
  pub misses : ℕ
  pub expirations : ℕ
  pub evictions : ℕ
  pub puts : ℕ
  pub deletes : ℕ
  pub entries : ℕ
  pub bytes : ℕ

-- `Cache::stats`
unfoldable pub stats : Cache → CacheStats
stats c = record {
  hits = c.hits;
  misses = c.misses;
  expirations = c.expirations;
  evictions = c.evictions;
  puts = c.puts;
  deletes = c.deletes;
  entries = c.total_entries;
  bytes = c.total_bytes;
}

-- `Cache::mode`
unfoldable pub mode : Text → Cache → Option NamespaceMode
unfolding lookup
mode name c = elim (lookup name c.namespaces) [ none ↦ none | some ns ↦ some ns.policy.mode ]
