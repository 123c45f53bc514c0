-- ===== src/Cache/Sound/Room.antt =====
-- crates/krit-cache/src/store.rs: the eviction loop of `Cache::write` ends, and makes room.
use krit.Base.{
  ℕ, zero, suc, ◌+◌, ◌-◌, ◌≡◌, ◌<◌, refl, ◌∙◌, subst, true, Option, none, some, arith, Bool-cases,
  Option-cases, inl, inr,
}
use krit.Cache.Map.{lookup, insert, lookup-insert}
use krit.Cache.Text.{Text, text_key, number_key, deadline_key, text_eq, text_eq_iff}
use krit.Cache.Config.{
  NamespacePolicy, CacheError, CacheResult, ok, err, namespace_full, cache_full,
}
use krit.Cache.Namespace.{Namespace, evict_one}
use krit.Cache.State.{Cache, release, with_namespace, count_eviction, Answer}
use krit.Cache.Write.{evict_globally, namespace_fits, globally_fits, make_room, evicted, oldest}
use krit.Cache.Sound.{At, release-At, with_namespace-At, part-of-total}
use krit.Cache.Sound.Removal.{Removed, Keeps, evict_one-Removed}

-- The state in which a write goes on: its namespace is there, and has no entry for its key.
pub record Room (latest stamp : ℕ) (p : NamespacePolicy) (name key : Text) (c : Cache)
    : Type 0 where
  pub holds : At latest c
  pub ns : Namespace
  pub found : lookup name c.namespaces ≡ some ns
  pub absent : lookup key ns.entries ≡ none
  pub governed : ns.policy ≡ p
  pub stamped : c.stamp ≡ stamp

module _ (latest stamp : ℕ) (p : NamespacePolicy) (name key : Text) where
  Keeps-namespace :
      (c : Cache) (other : Text) (old left : Namespace)
      → Room latest stamp p name key c
      → lookup other c.namespaces ≡ some old
      → Keeps old left
      → (ns : Namespace) × (lookup name (insert other left c.namespaces) ≡ some ns)
        × (lookup key ns.entries ≡ none)
        × (ns.policy ≡ p)
  Keeps-namespace c other old left room found keeps = elim (Bool-cases (text_eq other name)) [
    | inl same ↦
        let one : other ≡ name = (text_eq_iff other name).0 same in
        let there : lookup name c.namespaces ≡ some old =
          subst (λ n. lookup n c.namespaces ≡ some old) one found in
        let is : old ≡ room.ns = ground (arith, room.found) in
        (
          left,
          ground (arith, lookup-insert other name left c.namespaces),
          keeps.0 key (rw is room.absent),
          keeps.1 ∙ rw is room.governed,
        )
    | inr apart ↦ (
      room.ns,
      ground (arith, lookup-insert other name left c.namespaces, room.found),
      room.absent,
      room.governed,
    )
  ]

  -- One eviction, counted.
  pub eviction-Room :
      (c : Cache) (other : Text) (old left : Namespace) (bytes : ℕ)
      → Room latest stamp p name key c
      → lookup other c.namespaces ≡ some old
      → Removed old latest (some bytes) left
      → Room latest stamp p name key
          (count_eviction (release 1 bytes (with_namespace other left c)))
        × (c.total_entries - 1 + 1 ≡ c.total_entries)
  unfolding count_eviction release with_namespace
  eviction-Room c other old left bytes room found (within, few, small, keeps) =
      let (ns, found', absent, governed) = Keeps-namespace c other old left room found keeps in
      (
        record {
          holds = release-At c other old left latest room.holds found within 1 bytes few small;
          ns = ns;
          found = found';
          absent = absent;
          governed = governed;
          stamped = room.stamped;
        },
        omega (arith, few, part-of-total c other old latest room.holds found),
      )

  -- A failed eviction leaves the namespace as it was.
  pub no_eviction-Room :
      (c : Cache) (other : Text) (old left : Namespace)
      → Room latest stamp p name key c
      → lookup other c.namespaces ≡ some old
      → left ≡ old
      → Room latest stamp p name key (with_namespace other left c)
  unfolding with_namespace
  no_eviction-Room c other old left room found same =
      let (ns, found', absent, governed) =
        Keeps-namespace c other old left room found (λ k h. rw same h, rw same refl) in
      record {
        holds =
            with_namespace-At c other old left latest room.holds found latest (omega arith)
              (rw same (room.holds.within other old found)) (rw same refl) (rw same refl);
        ns = ns;
        found = found';
        absent = absent;
        governed = governed;
        stamped = room.stamped;
      }

  -- Room for one entry at a cost.
  abbrev pub Fits : ℕ → Cache → Type 0
  Fits cost c =
      (ns : Namespace)
      → lookup name c.namespaces ≡ some ns
      → (namespace_fits cost ns ≡ true) × (globally_fits cost c ≡ true)

  pub record Outcome (cost : ℕ) (answer : Option Answer) : Type 0 where
    pub result : CacheResult (Unit {0})
    pub left : Cache
    pub answered : answer ≡ some (result, left)
    pub room : Room latest stamp p name key left
    pub fits : result ≡ ok tt → Fits cost left

  abbrev Continues : ℕ → Cache → (Cache → Option Answer) → Type 0
  Continues cost c continue =
      (c' : Cache)
      → Room latest stamp p name key c'
      → c'.total_entries + 1 ≡ c.total_entries
      → Outcome cost (continue c')

  -- The loop goes on after an eviction, and answers after a failed one.
  evicted-Outcome :
      (cost : ℕ) (full : CacheError) (c : Cache) (other : Text) (old : Namespace)
      (released : Option ℕ) (left : Namespace) (continue : Cache → Option Answer)
      → Room latest stamp p name key c
      → lookup other c.namespaces ≡ some old
      → Removed old latest released left
      → Continues cost c continue
      → Outcome cost (evicted released full (with_namespace other left c) continue)
  unfolding count_eviction release with_namespace
  evicted-Outcome cost full c other old none left continue room found same go = record {
    result = err full;
    left = with_namespace other left c;
    answered = refl;
    room = no_eviction-Room c other old left room found same;
    fits = λ h. absurd cc;
  }
  evicted-Outcome cost full c other old (some bytes) left continue room found removed go =
      let (room', fewer) = eviction-Room c other old left bytes room found removed in
      go (count_eviction (release 1 bytes (with_namespace other left c))) room' fewer

  full-Outcome :
      (cost : ℕ) (full : CacheError) (c : Cache)
      → Room latest stamp p name key c
      → Outcome cost (some (err full, c))
  full-Outcome cost full c room = record {
    result = err full;
    left = c;
    answered = refl;
    room = room;
    fits = λ h. absurd cc;
  }

  -- The loop after an eviction from any namespace.
  global-Outcome :
      (cost : ℕ) (c : Cache) (continue : Cache → Option Answer)
      → Room latest stamp p name key c
      → Continues cost c continue
      → Outcome cost (evicted (evict_globally c).0 cache_full (evict_globally c).1 continue)
  unfolding evict_globally
  global-Outcome cost c continue room go = elim (Option-cases (oldest c.namespaces)) [
    | inl h ↦ rw (evict_globally, h) (full-Outcome cost cache_full c room)
    | inr ((first, other), h) ↦ elim (Option-cases (lookup other c.namespaces)) [
      | inl gone ↦ rw (evict_globally, h, gone) (full-Outcome cost cache_full c room)
      | inr (old, found) ↦
          rw (evict_globally, h, found)
            (evicted-Outcome cost cache_full c other old (evict_one old).0 (evict_one old).1
              continue room found (evict_one-Removed old latest (room.holds.within other old found))
              go)
    ]
  ]

  -- With more fuel than entries the loop ends: with room, or with the error that nothing is left.
  pub make_room-Outcome :
      (fuel cost : ℕ) (c : Cache)
      → Room latest stamp p name key c
      → c.total_entries < fuel
      → Outcome cost (make_room fuel name cost c)
  unfolding make_room
  make_room-Outcome zero cost c room enough = absurd (omega arith)
  make_room-Outcome (suc fuel) cost c room enough =
      let next : Continues cost c (make_room fuel name cost) =
        λ c' room' fewer. make_room-Outcome fuel cost c' room' (omega (arith, fewer)) in
      elim (Bool-cases (namespace_fits cost room.ns)) [
        | inl fits ↦ elim (Bool-cases (globally_fits cost c)) [
          | inl wide ↦
              rw (make_room, room.found, fits, wide)
                (record {
                  result = ok tt;
                  left = c;
                  answered = refl;
                  room = room;
                  fits = λ h ns found. ground (arith, room.found);
                })
          | inr full ↦
              rw (make_room, room.found, fits, full)
                (global-Outcome cost c (make_room fuel name cost) room next)
        ]
        | inr full ↦
            rw (make_room, room.found, full)
              (evicted-Outcome cost namespace_full c name room.ns (evict_one room.ns).0
                (evict_one room.ns).1 (make_room fuel name cost) room room.found
                (evict_one-Removed room.ns latest (room.holds.within name room.ns room.found)) next)
      ]
