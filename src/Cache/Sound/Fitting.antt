-- ===== src/Cache/Sound/Fitting.antt =====
-- crates/krit-cache/src/store.rs: the eviction loop of `Cache::write` makes room for every entry that
-- the policy of its namespace lets through.
use krit.Base.{
  ℕ, zero, suc, ◌+◌, ◌≡◌, ◌≢◌, ◌≤◌, ◌<◌, refl, ap, subst, ◌∙◌, true, false, Option, none, some,
  arith, Bool-cases, Option-cases, inl, inr, List, [], ◌∷◌, length, ltb,
}
use krit.Cache.Map.{Key, lookup, Distinct, total}
use krit.Cache.Text.{Text, text_key, text_lt, number_key, deadline_key, text_eq_iff}
use krit.Cache.Config.{NamespacePolicy, CacheError, ok, namespace_full, cache_full, saturating_add}
use krit.Cache.Namespace.{Namespace, evict_one, least}
use krit.Cache.State.{Cache, release, with_namespace, count_eviction, Answer}
use krit.Cache.Write.{evict_globally, namespace_fits, globally_fits, make_room, evicted, oldest}
use krit.Cache.Tidy.{cost_of}
use krit.Cache.Sound.{Within, entries_of, bytes_of}
use krit.Cache.Sound.Removal.{
  Removed, evict_one-Removed, eq-nil_of_evict_one, evict_one-absent, lookup-least, skip,
}
use krit.Cache.Sound.Room.{Room, eviction-Room}

absent_in_nil :
    {K V : Type 0} ⦃k : Key K⦄ (key : K) (v : V) (m : List (K × V)) → m ≡ [] → lookup key m ≢ some v
unfolding lookup
absent_in_nil key v m e h = cc

nothing-costs :
    (ns : Namespace) (latest : ℕ)
    → Within ns latest
    → ns.entries ≡ []
    → (length ns.entries ≡ 0) × (ns.bytes ≡ 0)
unfolding total
nothing-costs ns latest w h = (ap length h, w.tidy.accounted ∙ ap cost_of h)

-- A namespace with a first stamp has an entry to evict.
evict_one-takes :
    (ns : Namespace) (latest stamp : ℕ) (key : Text)
    → Within ns latest
    → least ltb ns.by_access ≡ some (stamp, key)
    → (evict_one ns).0 ≢ none
evict_one-takes ns latest stamp key w h stuck =
    let (e, found, at) =
      w.tidy.access_sound stamp key
        (lookup-least ltb ns.by_access stamp key w.tidy.distinct_access h) in
    absent_in_nil key e ns.entries (eq-nil_of_evict_one ns latest w stuck) found

abbrev AllWithin : List (Text × Namespace) → ℕ → Type 0
AllWithin nss latest = (name : Text) (ns : Namespace) → lookup name nss ≡ some ns → Within ns latest

tail-AllWithin :
    (name : Text) (ns : Namespace) (more : List (Text × Namespace)) (latest : ℕ)
    → lookup name more ≡ none
    → AllWithin ((name, ns) ∷ more) latest
    → AllWithin more latest
tail-AllWithin name ns more latest fresh all other old h =
    all other old (skip text_lt name other ns old more fresh h)

oldest-none :
    (nss : List (Text × Namespace)) (latest : ℕ)
    → Distinct nss
    → AllWithin nss latest
    → oldest nss ≡ none
    → (entries_of nss ≡ 0) × (bytes_of nss ≡ 0)
unfolding total lookup oldest
oldest-none [] latest d all h = (refl, refl)
oldest-none ((name, ns) ∷ more) latest (Distinct.cons fresh d) all h =
    let here : Within ns latest = all name ns (ground (arith, text_eq_iff name name)) in
    elim (Option-cases (least ltb ns.by_access)) [
      | inl idle ↦
          let sizes =
            nothing-costs ns latest here
              (eq-nil_of_evict_one ns latest here (ap (λ r. r.0) (evict_one-absent ns idle))) in
          let rest =
            oldest-none more latest d (tail-AllWithin name ns more latest fresh all)
              (rw (oldest, idle) at h) in
          (omega (arith, sizes, rest), omega (arith, sizes, rest))
      | inr (first, busy) ↦ elim (Option-cases (oldest more)) [
        | inl idle ↦ cc (rw (oldest, busy, idle) at h)
        | inr (rival, other) ↦ cc (rw (oldest, busy, other) at h)
      ]
    ]

abbrev Takes : List (Text × Namespace) → Text → Type 0
Takes nss name = (ns : Namespace) × (lookup name nss ≡ some ns) × ((evict_one ns).0 ≢ none)

same_second : (x y : ℕ × Text) → some x ≡ some y → x.1 ≡ y.1
same_second x y h = cc

-- The oldest stamp is that of a namespace with an entry to evict.
oldest-Takes :
    (nss : List (Text × Namespace)) (latest stamp : ℕ) (name : Text)
    → Distinct nss
    → AllWithin nss latest
    → oldest nss ≡ some (stamp, name)
    → Takes nss name
unfolding oldest lookup
oldest-Takes [] latest stamp name d all h = absurd cc
oldest-Takes ((first, ns) ∷ more) latest stamp name (Distinct.cons fresh d) all h =
    let found : lookup first ((first, ns) ∷ more) ≡ some ns =
      ground (arith, text_eq_iff first first) in
    let within : Within ns latest = all first ns found in
    let later = tail-AllWithin first ns more latest fresh all in
    let in_more : oldest more ≡ some (stamp, name) → Takes ((first, ns) ∷ more) name = λ there.
      let (old, at, takes) = oldest-Takes more latest stamp name d later there in
      (old, skip text_lt first name ns old more fresh at, takes) in
    elim (Option-cases (least ltb ns.by_access)) [
      | inl idle ↦ in_more (rw (oldest, idle) at h)
      | inr ((own, key), busy) ↦
          let takes = evict_one-takes ns latest own key within busy in
          elim (Option-cases (oldest more)) [
            | inl idle ↦
                let same = same_second (own, first) (stamp, name) (rw (oldest, busy, idle) at h) in
                subst (Takes ((first, ns) ∷ more)) same (ns, found, takes)
            | inr ((other, rival), there) ↦ elim (Bool-cases (ltb other own)) [
              | inl less ↦ in_more (there ∙ (rw (oldest, busy, there, less) at h))
              | inr more_or_same ↦
                  let same =
                    same_second (own, first) (stamp, name)
                      (rw (oldest, busy, there, more_or_same) at h) in
                  subst (Takes ((first, ns) ∷ more)) same (ns, found, takes)
            ]
          ]
    ]

-- What the policy of the written namespace promises of an entry at a cost, under the limits of the
-- whole cache.
pub record Affordable (p : NamespacePolicy) (cost : ℕ) (c : Cache) : Type 0 where
  pub some_entry : 0 < p.max_entries
  pub cost_bound : cost ≤ p.max_bytes
  pub entries_within : p.max_entries ≤ c.max_total_entries
  pub bytes_within : p.max_bytes ≤ c.max_total_bytes

abbrev pub Done : Option Answer → Type 0
Done answer = (left : Cache) × (answer ≡ some (ok tt, left))

module _ (latest stamp : ℕ) (p : NamespacePolicy) (name key : Text) (cost : ℕ) where
  namespace_fits-nothing :
      (ns : Namespace) (c : Cache)
      → Within ns latest
      → ns.policy ≡ p
      → Affordable p cost c
      → ns.entries ≡ []
      → namespace_fits cost ns ≡ true
  unfolding namespace_fits saturating_add
  namespace_fits-nothing ns c w governed a h =
      let sizes = nothing-costs ns latest w h in
      let few : ns.policy.max_entries ≡ p.max_entries = ap (λ q. q.max_entries) governed in
      let small : ns.policy.max_bytes ≡ p.max_bytes = ap (λ q. q.max_bytes) governed in
      ground (arith, sizes, few, small, a.some_entry, a.cost_bound)

  globally_fits-nothing :
      (c : Cache)
      → Affordable p cost c
      → c.total_entries ≡ 0
      → c.total_bytes ≡ 0
      → globally_fits cost c ≡ true
  unfolding globally_fits saturating_add
  globally_fits-nothing c a entries bytes =
      ground (arith, a.some_entry, a.cost_bound, a.entries_within, a.bytes_within)

  -- The loop goes on after an eviction that took an entry.
  evicted-Done :
      (full : CacheError) (c : Cache) (other : Text) (old : Namespace) (released : Option ℕ)
      (left : Namespace) (continue : Cache → Option Answer)
      → Room latest stamp p name key c
      → lookup other c.namespaces ≡ some old
      → Removed old latest released left
      → released ≢ none
      → Affordable p cost c
      → ((c' : Cache)
          → Room latest stamp p name key c'
          → c'.total_entries + 1 ≡ c.total_entries
          → Affordable p cost c'
          → Done (continue c'))
      → Done (evicted released full (with_namespace other left c) continue)
  unfolding count_eviction release with_namespace
  evicted-Done full c other old none left continue room found same takes a go = absurd (takes refl)
  evicted-Done full c other old (some bytes) left continue room found removed takes a go =
      let (room', fewer) =
        eviction-Room latest stamp p name key c other old left bytes room found removed in
      go (count_eviction (release 1 bytes (with_namespace other left c))) room' fewer (record {
        some_entry = a.some_entry;
        cost_bound = a.cost_bound;
        entries_within = a.entries_within;
        bytes_within = a.bytes_within;
      })

  global-Done :
      (c : Cache) (continue : Cache → Option Answer)
      → Room latest stamp p name key c
      → globally_fits cost c ≡ false
      → Affordable p cost c
      → ((c' : Cache)
          → Room latest stamp p name key c'
          → c'.total_entries + 1 ≡ c.total_entries
          → Affordable p cost c'
          → Done (continue c'))
      → Done (evicted (evict_globally c).0 cache_full (evict_globally c).1 continue)
  unfolding evict_globally
  global-Done c continue room full a go = elim (Option-cases (oldest c.namespaces)) [
    | inl idle ↦
        let sizes = oldest-none c.namespaces latest room.holds.distinct room.holds.within idle in
        let fits =
          globally_fits-nothing c a (room.holds.entries_exact ∙ sizes.0)
            (room.holds.bytes_exact ∙ sizes.1) in
        absurd cc
    | inr ((first, other), h) ↦
        let (old, found, takes) =
          oldest-Takes c.namespaces latest first other room.holds.distinct room.holds.within h in
        rw (evict_globally, h, found)
          (evicted-Done cache_full c other old (evict_one old).0 (evict_one old).1 continue room
            found (evict_one-Removed old latest (room.holds.within other old found)) takes a go)
  ]

  -- With more fuel than entries the loop ends with room for what the policy lets through.
  pub make_room-Done :
      (fuel : ℕ) (c : Cache)
      → Room latest stamp p name key c
      → c.total_entries < fuel
      → Affordable p cost c
      → Done (make_room fuel name cost c)
  unfolding make_room
  make_room-Done zero c room enough a = absurd (omega arith)
  make_room-Done (suc fuel) c room enough a =
      let next =
        λ (c' : Cache) (room' : Room latest stamp p name key c')
            (fewer : c'.total_entries + 1 ≡ c.total_entries) (a' : Affordable p cost c').
          make_room-Done fuel c' room' (omega (arith, fewer)) a' in
      let within = room.holds.within name room.ns room.found in
      elim (Bool-cases (namespace_fits cost room.ns)) [
        | inl fits ↦ elim (Bool-cases (globally_fits cost c)) [
          | inl wide ↦ (c, rw (make_room, room.found, fits, wide) refl)
          | inr full ↦
              rw (make_room, room.found, fits, full)
                (global-Done c (make_room fuel name cost) room full a next)
        ]
        | inr full ↦
            rw (make_room, room.found, full)
              (evicted-Done namespace_full c name room.ns (evict_one room.ns).0
                (evict_one room.ns).1 (make_room fuel name cost) room room.found
                (evict_one-Removed room.ns latest within)
                (λ stuck.
                  let fits =
                    namespace_fits-nothing room.ns c within room.governed a
                      (eq-nil_of_evict_one room.ns latest within stuck) in
                  cc)
                a next)
      ]
