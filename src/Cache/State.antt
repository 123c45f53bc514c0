-- ===== src/Cache/State.antt =====
-- crates/krit-cache/src/store.rs: the state of the cache, and what its operations share. The lock is
-- never poisoned here.
use krit.Base.{
  ℕ, ◌+◌, ◌-◌, ◌%◌, Bool, true, false, none, some, List, [], ◌∷◌, ltb, if◌then◌else◌, any, is_empty,
}
use krit.Cache.Map.{lookup, insert}
use krit.Cache.Text.{Text, byte_length, is_control, text_key, number_key, deadline_key}
use krit.Cache.Config.{
  CacheResult, ok, err, ◌>>=◌, NamespacePolicy, NamespaceMode, only_read, CacheConfig,
  validate_config, saturating_add, word, empty_key, key_too_long, control_in_key,
}
use krit.Cache.Namespace.{Namespace, new_namespace, remove_key}

-- `State`, with the stamp counter that stands beside it.
pub record Cache : Type 0 where
  pub namespaces : List (Text × Namespace)
  pub total_entries : ℕ
  pub total_bytes : ℕ
  pub max_total_entries : ℕ
  pub max_total_bytes : ℕ
  pub hits : ℕ
  pub misses : ℕ
  pub expirations : ℕ
  pub evictions : ℕ
  pub puts : ℕ
  pub deletes : ℕ
  pub stamp : ℕ

abbrev pub fresh_namespaces : List (Text × NamespacePolicy) → List (Text × Namespace)
fresh_namespaces [] = []
fresh_namespaces ((name, p) ∷ policies) = (name, new_namespace p) ∷ fresh_namespaces policies

abbrev pub fresh_state : CacheConfig → Cache
fresh_state c = record {
  namespaces = fresh_namespaces c.namespaces;
  total_entries = 0;
  total_bytes = 0;
  max_total_entries = c.max_total_entries;
  max_total_bytes = c.max_total_bytes;
  hits = 0;
  misses = 0;
  expirations = 0;
  evictions = 0;
  puts = 0;
  deletes = 0;
  stamp = 0;
}

-- `Cache::new`
unfoldable pub new : CacheConfig → CacheResult Cache
unfolding validate_config new_namespace
new c = validate_config c >>= λ _. ok (fresh_state c)

-- `validate_key`
unfoldable pub validate_key : Text → ℕ → CacheResult (Unit {0})
unfolding byte_length is_control
validate_key key max_key_bytes =
    if is_empty key
    then err empty_key
    else if ltb max_key_bytes (byte_length key)
    then err key_too_long
    else if any is_control key
    then err control_in_key
    else ok tt

-- `State::release`
unfoldable pub release : ℕ → ℕ → Cache → Cache
release entries bytes c = record c {
  total_entries = c.total_entries - entries;
  total_bytes = c.total_bytes - bytes;
}

-- A write through `namespace_mut`.
unfoldable pub with_namespace : Text → Namespace → Cache → Cache
unfolding insert
with_namespace name ns c = record c { namespaces = insert name ns c.namespaces }

-- `Cache::next_stamp`: the counter after a call, which is also the stamp that the call uses.
unfoldable pub next_stamp : Cache → Cache
next_stamp c = record c { stamp = (c.stamp + 1) % word }

unfoldable pub count_miss : Cache → Cache
unfolding saturating_add
count_miss c = record c { misses = saturating_add c.misses 1 }

unfoldable pub count_eviction : Cache → Cache
unfolding saturating_add
count_eviction c = record c { evictions = saturating_add c.evictions 1 }

-- An operation's answer, beside the state that it leaves.
abbrev pub Answer : Type 0
Answer = CacheResult (Unit {0}) × Cache

unfoldable pub replaced : Text → Text → Cache → Cache
unfolding lookup remove_key with_namespace release
replaced name key c = elim (lookup name c.namespaces) [
  | none ↦ c
  | some ns ↦
      let (released, left) = remove_key key ns in
      let c' = with_namespace name left c in
      elim released [ none ↦ c' | some bytes ↦ release 1 bytes c' ]
]

pub data Writer : Type 0 where
  guest host : Writer

abbrev pub refuses : NamespaceMode → Writer → Bool
refuses only_read guest = true
refuses _ writer = false
