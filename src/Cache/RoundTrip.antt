-- ===== src/Cache/RoundTrip.antt =====
-- crates/krit-cache/src/store.rs: what the operations promise to their callers, over any state that
-- the cache reaches.
use krit.Base.{ℕ, ◌+◌, ◌≡◌, ◌<◌, refl, sym, subst, false, some, leb, arith, Option-cases, inl, inr}
use krit.Base.Int.{ℤ}
use krit.Cache.Map.{lookup}
use krit.Cache.Text.{Text, text_key}
use krit.Cache.Config.{Result-cases, ok, word, NamespacePolicy}
use krit.Cache.Namespace.{Entry, Namespace}
use krit.Cache.State.{Cache, validate_key, next_stamp, Writer, refuses}
use krit.Cache.Read.{get, read_entry}
use krit.Cache.Write.{write, admit, deadline_after}
use krit.Cache.Sound.{Sound}
use krit.Cache.Sound.Writing.{Kept}
use krit.Cache.Sound.Answers.{write-Written}

-- The entry that a read answers with.
pub record Live (name key value : Text) (now_millis : ℕ) (c : Cache) : Type 0 where
  pub ns : Namespace
  pub found : lookup name c.namespaces ≡ some ns
  pub entry : Entry
  pub hit : lookup key ns.entries ≡ some entry
  pub holds : (entry.value ≡ value) × (now_millis < entry.expires_at_millis)

read_entry-Live :
    (name key value : Text) (now_millis : ℕ) (ns : Namespace) (c : Cache)
    → (read_entry name key now_millis ns c).0 ≡ ok (some value)
    → (e : Entry) × (lookup key ns.entries ≡ some e)
      × (e.value ≡ value)
      × (now_millis < e.expires_at_millis)
unfolding read_entry
read_entry-Live name key value now_millis ns c h = elim (Option-cases (lookup key ns.entries)) [
  | inl absent ↦ absurd (ground arith)
  | inr (e, hit) ↦ (e, hit, ground arith, ground arith)
]

-- A value that `get` answers with is the value of an entry of that key whose deadline is later than
-- the time of the call.
pub get-Live :
    (name key value : Text) (now_millis : ℕ) (c : Cache)
    → (get name key now_millis c).0 ≡ ok (some value)
    → Live name key value now_millis c
unfolding get next_stamp
get-Live name key value now_millis c h = elim (Option-cases (lookup name c.namespaces)) [
  | inl absent ↦ absurd (ground arith)
  | inr (ns, found) ↦ elim (Result-cases (validate_key key ns.policy.max_key_bytes)) [
    | inl (e, bad) ↦ absurd (ground arith)
    | inr (_, good) ↦
        let (e, hit, same, live) =
          read_entry-Live name key value now_millis ns (next_stamp c) (ground arith) in
        record { ns = ns; found = found; entry = e; hit = hit; holds = (same, live) }
  ]
]

get-Kept :
    (p : NamespacePolicy) (name key value : Text) (deadline now_millis : ℕ) (c : Cache)
    → Kept p name key value deadline c
    → validate_key key p.max_key_bytes ≡ ok tt
    → now_millis < deadline
    → (get name key now_millis c).0 ≡ ok (some value)
unfolding get read_entry next_stamp
get-Kept p name key value deadline now_millis c kept good early =
    let valid : validate_key key kept.ns.policy.max_key_bytes ≡ ok tt =
      subst (λ q. validate_key key q.max_key_bytes ≡ ok tt) (sym kept.governed) good in
    let live : leb kept.entry.expires_at_millis now_millis ≡ false = ground (arith, kept.kept) in
    rw (get, kept.found, valid, read_entry, kept.hit, live) (rw (kept.kept.0) refl)

admit-ok :
    (p : NamespacePolicy) (key value : Text) (ttl_seconds : ℤ) (now_millis : ℕ) (writer : Writer)
    (deadline : ℕ)
    → admit p key value ttl_seconds now_millis writer ≡ ok deadline
    → (refuses p.mode writer ≡ false)
      × (validate_key key p.max_key_bytes ≡ ok tt)
      × (deadline_after ttl_seconds now_millis ≡ some deadline)
unfolding admit
admit-ok p key value ttl_seconds now_millis writer deadline h = ground arith

-- From a state within the invariant, with fuel above the entries and a stamp counter below its limit,
-- a value that `write` accepts is what `get` answers with at every time before its deadline.
pub get-write :
    (name key value : Text) (ttl_seconds : ℤ) (now_millis : ℕ) (writer : Writer)
    (before left : Cache) (fuel deadline later : ℕ)
    → Sound before
    → before.stamp + 1 < word
    → before.total_entries < fuel
    → write fuel name key value ttl_seconds now_millis writer before ≡ some (ok tt, left)
    → deadline_after ttl_seconds now_millis ≡ some deadline
    → later < deadline
    → (get name key later left).0 ≡ ok (some value)
get-write name key value ttl_seconds now_millis writer before left fuel deadline later sound room
      enough h at early =
    let w =
      write-Written name key value ttl_seconds now_millis writer before fuel sound room enough in
    let done : w.result ≡ ok tt = ground (arith, w.answered) in
    let same : w.left ≡ left = ground (arith, w.answered) in
    let a = w.accepted done in
    let (may, good, when) =
      admit-ok a.ns.policy key value ttl_seconds now_millis writer a.deadline a.admitted in
    subst (λ c. (get name key later c).0 ≡ ok (some value)) same
      (get-Kept a.ns.policy name key value a.deadline later w.left a.kept good
        (ground (arith, when)))
