-- ===== src/Cache/Reachable.antt =====
-- crates/krit-cache/src/store.rs: the states that a cache goes through, and what every one of them
-- keeps.
use krit.Base.{
  ℕ, suc, ◌+◌, ◌≡◌, ◌≤◌, ◌<◌, ap, subst, none, some, List, [], ◌∷◌, false, is_empty, arith,
  Bool-cases, Option-cases, inl, inr,
}
use krit.Base.Int.{ℤ}
use krit.Cache.Map.{lookup, Distinct}
use krit.Cache.Text.{Text, text_key, text_eq}
use krit.Cache.Config.{
  CacheConfig, CacheResult, ok, word, NamespacePolicy, validate_policy, validate_policies,
  validate_config, Result-cases,
}
use krit.Cache.Namespace.{Namespace, new_namespace}
use krit.Cache.State.{Cache, Writer, new, next_stamp, fresh_namespaces, fresh_state}
use krit.Cache.Read.{get, delete}
use krit.Cache.Write.{admit, write}
use krit.Cache.Sound.{Sound}
use krit.Cache.Sound.Reading.{get-Sound, delete-Sound, next_stamp-At}
use krit.Cache.Sound.Answers.{write-Sound}
use krit.Cache.Start.{new-Sound, validate_config-parts}
use krit.Cache.Accepting.{Covered, Provisioned, write-accepts}
use krit.Cache.Settings.{SameSettings, get-SameSettings, delete-SameSettings}
use krit.Cache.Settings.Writing.{write-Leaves}

-- A cache after a number of calls. A write has fuel for every entry.
pub data Reached (config : CacheConfig) : ℕ → Cache → Type 0 where
  started : {c : Cache} → new config ≡ ok c → Reached config 0 c
  reads :
      {n : ℕ} {c : Cache} (name key : Text) (now_millis : ℕ)
      → Reached config n c
      → Reached config (suc n) (get name key now_millis c).1
  deletes :
      {n : ℕ} {c : Cache} (name key : Text)
      → Reached config n c
      → Reached config (suc n) (delete name key c).1
  writes :
      {n : ℕ} {c left : Cache} {result : CacheResult (Unit {0})} (name key value : Text)
      (ttl_seconds : ℤ) (now_millis : ℕ) (writer : Writer)
      → Reached config n c
      → write (suc c.total_entries) name key value ttl_seconds now_millis writer c
        ≡ some (result, left)
      → Reached config (suc n) left

Covered-same :
    (p q : NamespacePolicy) (c d : Cache) → p ≡ q → SameSettings c d → Covered p c → Covered q d
Covered-same p q c d same kept covered = record {
  valid = subst (λ r. validate_policy r ≡ ok tt) same covered.valid;
  entries_within =
      omega (arith, kept.entries, ap (λ r. r.max_entries) same, covered.entries_within);
  bytes_within = omega (arith, kept.bytes, ap (λ r. r.max_bytes) same, covered.bytes_within);
}

Provisioned-same : (c d : Cache) → SameSettings c d → Provisioned c → Provisioned d
Provisioned-same c d kept all name ns found = elim (Option-cases (lookup name c.namespaces)) [
  | inl gone ↦
      let same : some ns.policy ≡ none = rw (found, gone) at (kept.policies name) in absurd cc
  | inr (old, there) ↦
      let same : some ns.policy ≡ some old.policy = rw (found, there) at (kept.policies name) in
      let is : old.policy ≡ ns.policy = cc in
      Covered-same old.policy ns.policy c d is kept (all name old there)
]

validate_policies-Covered :
    (config : CacheConfig) (ps : List (Text × NamespacePolicy)) (name : Text) (ns : Namespace)
    → validate_policies config ps ≡ ok tt
    → lookup name (fresh_namespaces ps) ≡ some ns
    → Covered ns.policy (fresh_state config)
unfolding validate_policies lookup new_namespace
validate_policies-Covered config [] name ns h found = absurd cc
validate_policies-Covered config ((other, p) ∷ ps) name ns h found =
    elim (Result-cases (validate_policy p)) [
      | inl (e, bad) ↦ absurd (ground arith)
      | inr (_, good) ↦
          let bounds : (p.max_entries ≤ config.max_total_entries)
              × (p.max_bytes ≤ config.max_total_bytes) =
            ground arith in
          let rest : validate_policies config ps ≡ ok tt = ground arith in
          elim (Bool-cases (text_eq other name)) [
            | inl same ↦
                let is : new_namespace p ≡ ns = ground arith in
                subst (λ n. Covered n.policy (fresh_state config)) is
                  (record { valid = good; entries_within = bounds.0; bytes_within = bounds.1 })
            | inr apart ↦ validate_policies-Covered config ps name ns rest (ground arith)
          ]
    ]

new-fresh :
    (config : CacheConfig) (c : Cache)
    → new config ≡ ok c
    → (fresh_state config ≡ c) × (validate_config config ≡ ok tt)
unfolding new
new-fresh config c h = elim (Result-cases (validate_config config)) [
  | inl (e, bad) ↦ absurd (ground arith)
  | inr (_, good) ↦ (ground arith, good)
]

new-Provisioned :
    (config : CacheConfig) (c : Cache)
    → is_empty config.namespaces ≡ false
    → new config ≡ ok c
    → Provisioned c
new-Provisioned config c some_namespace h =
    let (is, good) = new-fresh config c h in
    subst Provisioned is (λ name ns found.
      validate_policies-Covered config config.namespaces name ns
        (validate_config-parts config some_namespace good).0 found)

next_stamp-Provisioned : (c : Cache) → Provisioned c → Provisioned (next_stamp c)
unfolding next_stamp
next_stamp-Provisioned c all name ns found =
    let covered = all name ns found in
    record {
      valid = covered.valid;
      entries_within = covered.entries_within;
      bytes_within = covered.bytes_within;
    }

-- What holds of every state that is reached by so many calls.
pub record Upheld (n : ℕ) (c : Cache) : Type 0 where
  pub sound : Sound c
  pub provisioned : Provisioned c
  pub stamped : c.stamp ≤ n

module _ (n : ℕ) (c d : Cache) (below : n + 1 < word) (kept : Upheld n c) (sound : Sound d) where
  -- A call that takes a stamp.
  stamped-Upheld : SameSettings (next_stamp c) d → Upheld (suc n) d
  unfolding next_stamp
  stamped-Upheld same = record {
    sound = sound;
    provisioned =
        Provisioned-same (next_stamp c) d same (next_stamp-Provisioned c kept.provisioned);
    stamped =
        omega (
          arith,
          same.stamp,
          kept.stamped,
          next_stamp-At c kept.sound (omega (arith, kept.stamped)),
        );
  }

  unstamped-Upheld : SameSettings c d → Upheld (suc n) d
  unstamped-Upheld same = record {
    sound = sound;
    provisioned = Provisioned-same c d same kept.provisioned;
    stamped = omega (arith, same.stamp, kept.stamped);
  }

module _ (config : CacheConfig) (distinct : Distinct config.namespaces)
    (some_namespace : is_empty config.namespaces ≡ false) where
  Reached-Upheld : (n : ℕ) (c : Cache) → n < word → Reached config n c → Upheld n c
  Reached-Upheld n c below (started starts) = record {
    sound = new-Sound config c distinct some_namespace starts;
    provisioned = new-Provisioned config c some_namespace starts;
    stamped = subst (λ d. d.stamp ≤ 0) (new-fresh config c starts).0 (omega arith);
  }
  Reached-Upheld n d below (reads {n = m} {c = c} name key now_millis there) =
      let kept = Reached-Upheld m c (omega (arith, below)) there in
      stamped-Upheld m c (get name key now_millis c).1 (omega arith) kept
        (get-Sound name key now_millis c kept.sound (omega (arith, kept.stamped)))
        (get-SameSettings name key now_millis c)
  Reached-Upheld n d below (deletes {n = m} {c = c} name key there) =
      let kept = Reached-Upheld m c (omega (arith, below)) there in
      unstamped-Upheld m c (delete name key c).1 (omega arith) kept
        (delete-Sound name key c kept.sound) (delete-SameSettings name key c)
  Reached-Upheld n d below
        (writes {n = m} {c = c} {left = left} {result = result} name key value ttl_seconds
          now_millis writer there h) =
      let kept = Reached-Upheld m c (omega (arith, below)) there in
      let (result', left', answered, sound) =
        write-Sound name key value ttl_seconds now_millis writer c (suc c.total_entries) kept.sound
          (omega (arith, kept.stamped)) (omega arith) in
      let same : left' ≡ left = ground (arith, answered, h) in
      stamped-Upheld m c left (omega arith) kept (subst Sound same sound) (
        rw h at (write-Leaves (suc c.total_entries) name key value ttl_seconds now_millis writer c))

-- For a configuration with a namespace and with distinct names, every state that the cache is in after
-- fewer than 2^64 calls of get, delete, put and seed, in any order, is within the invariant.
pub Reached-Sound :
    (config : CacheConfig) (n : ℕ) (c : Cache)
    → Distinct config.namespaces
    → is_empty config.namespaces ≡ false
    → n < word
    → Reached config n c
    → Sound c
Reached-Sound config n c distinct some_namespace below there =
    (Reached-Upheld config distinct some_namespace n c below there).sound

-- For a configuration with a namespace and with distinct names, in every state that the cache is in
-- after fewer than 2^64 - 1 calls, a write that the checks on its key, its value and its time to live
-- let through is stored: eviction makes room for it, and it is never answered that the namespace or
-- the cache is full.
pub Reached-write :
    (config : CacheConfig) (n : ℕ) (c : Cache) (name key value : Text) (ttl_seconds : ℤ)
    (now_millis : ℕ) (writer : Writer) (deadline : ℕ) (ns : Namespace)
    → Distinct config.namespaces
    → is_empty config.namespaces ≡ false
    → n + 1 < word
    → Reached config n c
    → lookup name c.namespaces ≡ some ns
    → admit ns.policy key value ttl_seconds now_millis writer ≡ ok deadline
    → (left : Cache) × (write (suc c.total_entries) name key value ttl_seconds now_millis writer c
        ≡ some (ok tt, left))
Reached-write config n c name key value ttl_seconds now_millis writer deadline ns distinct
      some_namespace below there found good =
    let kept = Reached-Upheld config distinct some_namespace n c (omega (arith, below)) there in
    write-accepts name key value ttl_seconds now_millis writer c (suc c.total_entries) deadline ns
      kept.sound kept.provisioned (omega (arith, below, kept.stamped)) (omega arith) found good
