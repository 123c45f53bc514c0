-- ===== src/Examples/CacheExamples.antt =====
-- crates/krit-cache/src/store.rs on a cache of one namespace.
use krit.Cache.Text.{text_eq}
use krit.Cache.Namespace.{Namespace, new_namespace}
use krit.Cache.Reachable.{Reached, Reached-Sound, Reached-write}
use krit.Cache.Read.{get, delete}
use krit.Cache.RoundTrip.{Live, get-Live, get-write}
use krit.Cache.Sound.Reading.{get-Sound, delete-Sound}
use krit.Cache.Write.{deadline_after}
use krit.Base.{◌≡◌, refl, some, [], ◌∷◌, arith}
use krit.Base.Int.{pos}
use krit.Cache.Map.{lookup, Distinct}
use krit.Cache.Text.{Text, text_key}
use krit.Cache.Config.{
  CacheResult, CacheConfig, NamespacePolicy, NamespaceMode, validate_config, ok,
}
use krit.Cache.State.{Cache, new, fresh_state, guest}
use krit.Cache.Write.{write, deadline_after, admit}
use krit.Cache.Sound.{Sound}
use krit.Cache.Sound.Answers.{write-Sound}
use krit.Cache.Start.{new-Sound}

abbrev session : Text
session = 0x73 ∷ []

abbrev key : Text
key = 0x6B ∷ 0x31 ∷ []

abbrev value : Text
value = 0x76 ∷ []

abbrev policy : NamespacePolicy
policy = record {
  mode = NamespaceMode.read_write;
  max_entries = 2;
  max_bytes = 1024;
  max_key_bytes = 16;
  max_value_bytes = 128;
  max_ttl_seconds = pos 60;
}

abbrev config : CacheConfig
config = record {
  namespaces = (session, policy) ∷ [];
  max_total_entries = 4;
  max_total_bytes = 4096;
}

one_namespace : Distinct config.namespaces
unfolding lookup
one_namespace = Distinct.cons refl Distinct.nil

started : new config ≡ ok (fresh_state config)
unfolding new validate_config
started = refl

new-Sound_example : Sound (fresh_state config)
new-Sound_example = new-Sound config (fresh_state config) one_namespace refl started

write-Sound_example :
    (result : CacheResult (Unit {0})) × (left : Cache) × (write 1 session key value
        (pos 60)
        1000
        guest
        (fresh_state config)
      ≡ some (result, left))
    × Sound left
write-Sound_example =
    write-Sound session key value (pos 60) 1000 guest (fresh_state config) 1 new-Sound_example
      (omega arith) (omega arith)

abbrev filled_namespace : Namespace
filled_namespace = record {
  policy = policy;
  entries = (key, record { value = value; expires_at_millis = 61_000; stamp = 1 }) ∷ [];
  by_access = (1, key) ∷ [];
  by_expiry = ((61_000, key), tt) ∷ [];
  bytes = 67;
}

-- The state after one write.
abbrev filled : Cache
filled = record {
  namespaces = (session, filled_namespace) ∷ [];
  total_entries = 1;
  total_bytes = 67;
  max_total_entries = 4;
  max_total_bytes = 4096;
  hits = 0;
  misses = 0;
  expirations = 0;
  evictions = 0;
  puts = 1;
  deletes = 0;
  stamp = 1;
}

fills : write 1 session key value (pos 60) 1000 guest (fresh_state config) ≡ some (ok tt, filled)
unfolding write text_eq new_namespace
fills = refl

get-write_example : (get session key 60_999 filled).0 ≡ ok (some value)
unfolding deadline_after
get-write_example =
    get-write session key value (pos 60) 1000 guest (fresh_state config) filled 1 61_000 60_999
      new-Sound_example (omega arith) (omega arith) fills refl (omega arith)

get-Live_example : Live session key value 60_999 filled
get-Live_example = get-Live session key value 60_999 filled get-write_example

get-Sound_example : Sound (get session key 5 (fresh_state config)).1
get-Sound_example = get-Sound session key 5 (fresh_state config) new-Sound_example (omega arith)

delete-Sound_example : Sound (delete session key (fresh_state config)).1
delete-Sound_example = delete-Sound session key (fresh_state config) new-Sound_example

reads_once : Reached config 1 (get session key 5 (fresh_state config)).1
reads_once = Reached.reads session key 5 (Reached.started started)

Reached-Sound_example : Sound (get session key 5 (fresh_state config)).1
Reached-Sound_example =
    Reached-Sound config 1 (get session key 5 (fresh_state config)).1 one_namespace refl
      (omega arith) reads_once

fills_up : Reached config 1 filled
fills_up = Reached.writes session key value (pos 60) 1000 guest (Reached.started started) fills

-- The namespace has room for two entries, and a third key is written.
Reached-write_example :
    (left : Cache) × (write 2 session (0x6B ∷ 0x32 ∷ []) value (pos 60) 1001 guest filled
      ≡ some (ok tt, left))
unfolding lookup admit text_eq
Reached-write_example =
    Reached-write config 1 filled session (0x6B ∷ 0x32 ∷ []) value (pos 60) 1001 guest 61_001
      filled_namespace one_namespace refl (omega arith) fills_up refl refl
