-- ===== src/Cache/Settings.antt =====
-- crates/krit-cache/src/store.rs: no call changes a namespace's policy or the limits of the cache.
pub mod Writing
use krit.Base.{
  ℕ, zero, suc, ◌≡◌, refl, ap, subst, ◌∙◌, none, some, Option, arith, Bool-cases, Option-cases, inl,
  inr, ltb, leb,
}
use krit.Cache.Map.{lookup, insert, lookup-insert}
use krit.Cache.Text.{Text, text_key, number_key, deadline_key, text_eq, text_eq_iff, deadline_lt}
use krit.Cache.Config.{NamespacePolicy, CacheError, Result-cases}
use krit.Cache.Namespace.{
  Namespace, without, remove_key, evict_one, least, sweep_rounds, Sweep, after_round,
  unwrap_or_zero, Entry,
}
use krit.Cache.State.{
  Cache, replaced, release, with_namespace, count_miss, Answer, count_eviction, next_stamp, refuses,
  guest, validate_key,
}
use krit.Cache.Read.{expire, refresh, read_entry, get, delete, refreshed}

abbrev pub policy_at : Option Namespace → Option NamespacePolicy
policy_at none = none
policy_at (some ns) = some ns.policy

-- The second state has the settings and the stamp counter of the first.
pub record SameSettings (c d : Cache) : Type 0 where
  pub entries : d.max_total_entries ≡ c.max_total_entries
  pub bytes : d.max_total_bytes ≡ c.max_total_bytes
  pub policies :
      (name : Text) → policy_at (lookup name d.namespaces) ≡ policy_at (lookup name c.namespaces)
  pub stamp : d.stamp ≡ c.stamp

abbrev pub unchanged : (c : Cache) → SameSettings c c
unchanged c = record { entries = refl; bytes = refl; policies = λ name. refl; stamp = refl }

pub SameSettings-trans : (a b c : Cache) → SameSettings a b → SameSettings b c → SameSettings a c
SameSettings-trans a b c f g = record {
  entries = g.entries ∙ f.entries;
  bytes = g.bytes ∙ f.bytes;
  policies = λ name. g.policies name ∙ f.policies name;
  stamp = g.stamp ∙ f.stamp;
}

-- Only counters and totals differ.
abbrev pub SameBesides : Cache → Cache → Type 0
SameBesides d d' =
    (d'.max_total_entries ≡ d.max_total_entries)
    × (d'.max_total_bytes ≡ d.max_total_bytes)
    × (d'.namespaces ≡ d.namespaces)
    × (d'.stamp ≡ d.stamp)

pub recounted : (c d d' : Cache) → SameSettings c d → SameBesides d d' → SameSettings c d'
recounted c d d' kept (entries, bytes, namespaces, stamp) = record {
  entries = entries ∙ kept.entries;
  bytes = bytes ∙ kept.bytes;
  policies = λ name. ap (λ nss. policy_at (lookup name nss)) namespaces ∙ kept.policies name;
  stamp = stamp ∙ kept.stamp;
}

pub with_namespace-SameSettings :
    (name : Text) (old ns : Namespace) (c : Cache)
    → lookup name c.namespaces ≡ some old
    → ns.policy ≡ old.policy
    → SameSettings c (with_namespace name ns c)
unfolding with_namespace
with_namespace-SameSettings name old ns c found same = record {
  entries = refl;
  bytes = refl;
  policies = λ other. elim (Bool-cases (text_eq name other)) [
    | inl one ↦
        let is : name ≡ other = (text_eq_iff name other).0 one in
        let at : lookup other c.namespaces ≡ some old =
          subst (λ n. lookup n c.namespaces ≡ some old) is found in
        let put : lookup other (insert name ns c.namespaces) ≡ some ns =
          ground (arith, lookup-insert name other ns c.namespaces) in
        rw (put, at) (ap some same)
    | inr apart ↦
        let kept : lookup other (insert name ns c.namespaces) ≡ lookup other c.namespaces =
          ground (arith, lookup-insert name other ns c.namespaces) in
        ap policy_at kept
  ];
  stamp = refl;
}

-- A namespace loses an entry, and the totals follow.
pub released-SameSettings :
    (name : Text) (old ns : Namespace) (n b : ℕ) (c : Cache)
    → lookup name c.namespaces ≡ some old
    → ns.policy ≡ old.policy
    → SameSettings c (release n b (with_namespace name ns c))
unfolding release
released-SameSettings name old ns n b c found same =
    let kept = with_namespace-SameSettings name old ns c found same in
    recounted c (with_namespace name ns c) (release n b (with_namespace name ns c)) kept
      (refl, refl, refl, refl)

remove_key-policy : (key : Text) (ns : Namespace) → (remove_key key ns).1.policy ≡ ns.policy
unfolding remove_key without
remove_key-policy key ns = elim (Option-cases (lookup key ns.entries)) [
  | inl h ↦ rw (remove_key, h) refl
  | inr (e, h) ↦ rw (remove_key, h) refl
]

pub evict_one-policy : (ns : Namespace) → (evict_one ns).1.policy ≡ ns.policy
unfolding evict_one
evict_one-policy ns = elim (Option-cases (least ltb ns.by_access)) [
  | inl h ↦ rw (evict_one, h) refl
  | inr ((stamp, key), h) ↦ rw (evict_one, h) (remove_key-policy key ns)
]

pub sweep_rounds-policy :
    (rounds now_millis : ℕ) (s : Sweep)
    → (sweep_rounds rounds now_millis s).left.policy ≡ s.left.policy
unfolding sweep_rounds
sweep_rounds-policy zero now_millis s = refl
sweep_rounds-policy (suc rounds) now_millis s =
    elim (Option-cases (least deadline_lt s.left.by_expiry)) [
      | inl h ↦ rw (sweep_rounds, h) refl
      | inr (((expires_at, key), _), h) ↦
          let next = after_round (remove_key key s.left) s.removed s.released in
          let later = sweep_rounds-policy rounds now_millis next in
          elim (Bool-cases (ltb now_millis expires_at)) [
            | inl live ↦ rw (sweep_rounds, h, live) refl
            | inr due ↦ rw (sweep_rounds, h, due) (later ∙ remove_key-policy key s.left)
          ]
    ]

pub replaced-SameSettings : (name key : Text) (c : Cache) → SameSettings c (replaced name key c)
unfolding replaced
replaced-SameSettings name key c = elim (Option-cases (lookup name c.namespaces)) [
  | inl h ↦ rw (replaced, h) (unchanged c)
  | inr (ns, h) ↦
      let left = (remove_key key ns).1 in
      elim (Option-cases (remove_key key ns).0) [
        | inl absent ↦
            rw (replaced, h, absent)
              (with_namespace-SameSettings name ns left c h (remove_key-policy key ns))
        | inr (bytes, taken) ↦
            rw (replaced, h, taken)
              (released-SameSettings name ns left 1 bytes c h (remove_key-policy key ns))
      ]
]

-- `get`, from the state that its stamp is taken in.
expire-SameSettings :
    (name key : Text) (ns : Namespace) (c : Cache)
    → lookup name c.namespaces ≡ some ns
    → SameSettings c (expire name key ns c)
unfolding expire count_miss
expire-SameSettings name key ns c found =
    let kept =
      released-SameSettings name ns (remove_key key ns).1 1 (unwrap_or_zero (remove_key key ns).0) c
        found (remove_key-policy key ns) in
    recounted c
      (release 1 (unwrap_or_zero (remove_key key ns).0)
        (with_namespace name (remove_key key ns).1 c))
      (expire name key ns c) kept (refl, refl, refl, refl)

refresh-SameSettings :
    (name key : Text) (e : Entry) (ns : Namespace) (c : Cache)
    → lookup name c.namespaces ≡ some ns
    → SameSettings c (refresh name key e ns c)
unfolding refresh refreshed
refresh-SameSettings name key e ns c found =
    let kept = with_namespace-SameSettings name ns (refreshed key e c.stamp ns) c found refl in
    recounted c (with_namespace name (refreshed key e c.stamp ns) c) (refresh name key e ns c) kept
      (refl, refl, refl, refl)

read_entry-SameSettings :
    (name key : Text) (now_millis : ℕ) (ns : Namespace) (c : Cache)
    → lookup name c.namespaces ≡ some ns
    → SameSettings c (read_entry name key now_millis ns c).1
unfolding read_entry count_miss
read_entry-SameSettings name key now_millis ns c found =
    elim (Option-cases (lookup key ns.entries)) [
      | inl h ↦
          rw (read_entry, h)
            (record { entries = refl; bytes = refl; policies = λ name. refl; stamp = refl })
      | inr (e, h) ↦ elim (Bool-cases (leb e.expires_at_millis now_millis)) [
        | inl due ↦ rw (read_entry, h, due) (expire-SameSettings name key ns c found)
        | inr live ↦ rw (read_entry, h, live) (refresh-SameSettings name key e ns c found)
      ]
    ]

pub get-SameSettings :
    (name key : Text) (now_millis : ℕ) (c : Cache)
    → SameSettings (next_stamp c) (get name key now_millis c).1
unfolding get
get-SameSettings name key now_millis c =
    elim (Option-cases (lookup name (next_stamp c).namespaces)) [
      | inl h ↦ rw (get, h) (unchanged (next_stamp c))
      | inr (ns, h) ↦ elim (Result-cases (validate_key key ns.policy.max_key_bytes)) [
        | inl (e, bad) ↦ rw (get, h, bad) (unchanged (next_stamp c))
        | inr (_, good) ↦
            rw (get, h, good) (read_entry-SameSettings name key now_millis ns (next_stamp c) h)
      ]
    ]

pub delete-SameSettings : (name key : Text) (c : Cache) → SameSettings c (delete name key c).1
unfolding delete
delete-SameSettings name key c = elim (Option-cases (lookup name c.namespaces)) [
  | inl h ↦ rw (delete, h) (unchanged c)
  | inr (ns, h) ↦ elim (Bool-cases (refuses ns.policy.mode guest)) [
    | inl shut ↦ rw (delete, h, shut) (unchanged c)
    | inr writable ↦ elim (Result-cases (validate_key key ns.policy.max_key_bytes)) [
      | inl (e, bad) ↦ rw (delete, h, writable, bad) (unchanged c)
      | inr (_, good) ↦
          let kept = replaced-SameSettings name key c in
          rw (delete, h, writable, good)
            (recounted c (replaced name key c) _ kept (refl, refl, refl, refl))
    ]
  ]
]
