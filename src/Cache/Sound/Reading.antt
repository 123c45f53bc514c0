-- ===== src/Cache/Sound/Reading.antt =====
-- crates/krit-cache/src/store.rs: `Cache::get` and `Cache::delete` keep the invariant.
use krit.Base.{
  ℕ, ◌+◌, ◌≡◌, ◌≤◌, ◌<◌, refl, sym, ap, subst, none, some, leb, length, arith, Bool-cases,
  Option-cases, inl, inr,
}
use krit.Cache.Map.{lookup, remove, insert, lookup-insert, lookup-remove}
use krit.Cache.Text.{Text, text_key, number_key, deadline_key, text_eq_iff}
use krit.Cache.Config.{Result-cases, word}
use krit.Cache.Namespace.{Entry, Namespace, charge, without}
use krit.Cache.State.{
  Cache, validate_key, release, with_namespace, next_stamp, count_miss, replaced, refuses, guest,
}
use krit.Cache.Read.{expire, refreshed, refresh, read_entry, get, delete}
use krit.Cache.Tidy.Refresh.{refreshed-Tidy, refreshed_sizes}
use krit.Cache.Tidy.{without_sizes}
use krit.Cache.Sound.{Within, At, Sound, Holds-later, release-At, with_namespace-At}
use krit.Cache.Sound.Room.{Room}
use krit.Cache.Sound.Removal.{
  without-Keeps, without-absent, remove_key-found, remove_key-absent, without-Within,
}

-- A stamp above those in use is not in use.
pub fresh_stamp :
    (ns : Namespace) (latest stamp : ℕ)
    → Within ns latest
    → latest < stamp
    → lookup stamp ns.by_access ≡ none
fresh_stamp ns latest stamp w above = elim (Option-cases (lookup stamp ns.by_access)) [
  | inl h ↦ h
  | inr (key, h) ↦ absurd (omega (arith, w.stamped stamp key h))
]

refreshed-Within :
    (key : Text) (e : Entry) (ns : Namespace) (latest stamp : ℕ)
    → Within ns latest
    → latest < stamp
    → lookup key ns.entries ≡ some e
    → Within (refreshed key e stamp ns) stamp
unfolding refreshed
refreshed-Within key e ns latest stamp w above found =
    let fresh = fresh_stamp ns latest stamp w above in
    let sizes = refreshed_sizes key e stamp ns w.tidy found fresh in
    record {
      tidy = refreshed-Tidy key e stamp ns w.tidy found fresh;
      few = omega (arith, w.few, sizes);
      small = omega (arith, w.small, sizes);
      below_word = w.below_word;
      stamped = λ s k h. ground (
        arith,
        lookup-insert stamp s key (remove e.stamp ns.by_access),
        lookup-remove e.stamp s ns.by_access,
        w.stamped s k,
      );
    }

-- The state after `next_stamp`: every stamp in use is older than the counter.
pub Stamped : Cache → Type 0
Stamped c = (latest : ℕ) × (latest < c.stamp) × At latest c

module _ (name key : Text) (ns : Namespace) (c : Cache) (latest : ℕ) (above : latest < c.stamp)
    (holds : At latest c) (found : lookup name c.namespaces ≡ some ns) where
  abbrev later : Sound c
  later = Holds-later c latest c.stamp (omega (arith, above)) holds

  expire-Sound : (e : Entry) → lookup key ns.entries ≡ some e → Sound (expire name key ns c)
  unfolding expire release with_namespace count_miss
  expire-Sound e hit =
      let old = holds.within name ns found in
      let sizes = without_sizes key e ns old.tidy hit in
      let after =
        Holds-later (release 1 (charge key e.value) (with_namespace name (without key e ns) c))
          latest c.stamp (omega (arith, above))
          (release-At c name ns (without key e ns) latest holds found
            (without-Within key e ns latest old hit) 1 (charge key e.value) sizes.0 sizes.1) in
      rw (expire, remove_key-found key e ns hit) after

  refresh-Sound : (e : Entry) → lookup key ns.entries ≡ some e → Sound (refresh name key e ns c)
  unfolding refresh with_namespace
  refresh-Sound e hit =
      let old = holds.within name ns found in
      let fresh = fresh_stamp ns latest c.stamp old above in
      let sizes = refreshed_sizes key e c.stamp ns old.tidy hit fresh in
      with_namespace-At c name ns (refreshed key e c.stamp ns) latest holds found c.stamp
        (omega (arith, above)) (refreshed-Within key e ns latest c.stamp old above hit) sizes.0
        sizes.1

  read_entry-Sound : (now_millis : ℕ) → Sound (read_entry name key now_millis ns c).1
  unfolding read_entry count_miss
  read_entry-Sound now_millis = elim (Option-cases (lookup key ns.entries)) [
    | inl h ↦ rw (read_entry, h) later
    | inr (e, h) ↦ elim (Bool-cases (leb e.expires_at_millis now_millis)) [
      | inl due ↦ rw (read_entry, h, due) (expire-Sound e h)
      | inr live ↦ rw (read_entry, h, live) (refresh-Sound e h)
    ]
  ]

-- `next_stamp` while the counter has not run through the 64-bit words.
pub next_stamp-At :
    (c : Cache)
    → Sound c
    → c.stamp + 1 < word
    → ((next_stamp c).stamp ≡ c.stamp + 1) × At c.stamp (next_stamp c)
unfolding next_stamp
next_stamp-At c sound room = (omega (arith, room), sound)

-- From a state within the invariant, with a stamp counter below its limit, the state that `get`
-- leaves is within the invariant, whatever it answers.
pub get-Sound :
    (name key : Text) (now_millis : ℕ) (c : Cache)
    → Sound c
    → c.stamp + 1 < word
    → Sound (get name key now_millis c).1
unfolding get
get-Sound name key now_millis c sound room =
    let (moved, holds) = next_stamp-At c sound room in
    let after =
      Holds-later (next_stamp c) c.stamp (next_stamp c).stamp (omega (arith, moved)) holds in
    elim (Option-cases (lookup name (next_stamp c).namespaces)) [
      | inl h ↦ rw (get, h) after
      | inr (ns, h) ↦ elim (Result-cases (validate_key key ns.policy.max_key_bytes)) [
        | inl (e, bad) ↦ rw (get, h, bad) after
        | inr (_, good) ↦
            rw (get, h, good)
              (read_entry-Sound name key ns (next_stamp c) c.stamp (omega (arith, moved)) holds h
                now_millis)
      ]
    ]

-- What a write or a deletion leaves when the key's entry is out.
module _ (name key : Text) (ns left : Namespace) (latest : ℕ) (c : Cache) (holds : At latest c)
    (found : lookup name c.namespaces ≡ some ns) (within : Within left latest)
    (absent : lookup key left.entries ≡ none) (governed : left.policy ≡ ns.policy) where
  there : lookup name (insert name left c.namespaces) ≡ some left
  there = ground (arith, lookup-insert name name left c.namespaces, text_eq_iff name name)

  same_sizes : left ≡ ns → Room latest c.stamp ns.policy name key (with_namespace name left c)
  unfolding with_namespace
  same_sizes same = record {
    holds =
        with_namespace-At c name ns left latest holds found latest (omega arith) within
          (ap (λ n. length n.entries) same) (ap (λ n. n.bytes) same);
    ns = left;
    found = there;
    absent = absent;
    governed = governed;
    stamped = refl;
  }

  released_sizes :
      (b : ℕ)
      → length left.entries + 1 ≡ length ns.entries
      → left.bytes + b ≡ ns.bytes
      → Room latest c.stamp ns.policy name key (release 1 b (with_namespace name left c))
  unfolding with_namespace release
  released_sizes b few small = record {
    holds = release-At c name ns left latest holds found within 1 b few small;
    ns = left;
    found = there;
    absent = absent;
    governed = governed;
    stamped = refl;
  }

pub replaced-Room :
    (name key : Text) (ns : Namespace) (latest : ℕ) (c : Cache)
    → At latest c
    → lookup name c.namespaces ≡ some ns
    → Room latest c.stamp ns.policy name key (replaced name key c)
      × ((replaced name key c).total_entries ≤ c.total_entries)
unfolding replaced release with_namespace
replaced-Room name key ns latest c holds found =
    let old = holds.within name ns found in
    elim (Option-cases (lookup key ns.entries)) [
      | inl absent ↦
          let out = remove_key-absent key ns absent in
          rw (replaced, found, out, ap (λ r. r.1) out)
            (same_sizes name key ns ns latest c holds found old absent refl refl, omega arith)
      | inr (e, hit) ↦
          let out = remove_key-found key e ns hit in
          let sizes = without_sizes key e ns old.tidy hit in
          rw (replaced, found, out, ap (λ r. r.1) out)
            (
              released_sizes name key ns (without key e ns) latest c holds found
                  (without-Within key e ns latest old hit) (without-absent key e ns)
                  (without-Keeps key e ns).1 (charge key e.value) sizes.0 sizes.1,
              omega arith,
            )
    ]

-- From a state within the invariant, the state that `delete` leaves is within the invariant, whatever
-- it answers.
pub delete-Sound : (name key : Text) (c : Cache) → Sound c → Sound (delete name key c).1
unfolding delete
delete-Sound name key c sound = elim (Option-cases (lookup name c.namespaces)) [
  | inl h ↦ rw (delete, h) sound
  | inr (ns, h) ↦ elim (Bool-cases (refuses ns.policy.mode guest)) [
    | inl refused ↦ rw (delete, h, refused) sound
    | inr may ↦ elim (Result-cases (validate_key key ns.policy.max_key_bytes)) [
      | inl (e, bad) ↦ rw (delete, h, may, bad) sound
      | inr (_, good) ↦
          let room = (replaced-Room name key ns c.stamp c sound h).0 in
          rw (delete, h, may, good)
            (subst (λ s. At s (replaced name key c)) (sym room.stamped) room.holds)
    ]
  ]
]
