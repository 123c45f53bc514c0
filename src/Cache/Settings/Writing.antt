-- ===== src/Cache/Settings/Writing.antt =====
-- crates/krit-cache/src/store.rs: `Cache::write` changes no policy and no limit.
use krit.Base.{ℕ, zero, suc, ◌≡◌, refl, none, some, Option, Bool-cases, Option-cases, inl, inr}
use krit.Base.Int.{ℤ}
use krit.Cache.Map.{lookup}
use krit.Cache.Text.{Text, text_key, number_key, deadline_key}
use krit.Cache.Config.{CacheError, ok, err, Result-cases, namespace_full, cache_full}
use krit.Cache.Namespace.{Namespace, charge, evict_one, sweep_expired}
use krit.Cache.State.{
  Cache, Answer, Writer, next_stamp, replaced, release, with_namespace, count_eviction,
}
use krit.Cache.Write.{
  swept, store, stored, admit, continue_answer, make_room, write, evict_globally, evicted, oldest,
  namespace_fits, globally_fits,
}
use krit.Cache.Settings.{
  SameSettings, unchanged, recounted, SameSettings-trans, with_namespace-SameSettings,
  released-SameSettings, evict_one-policy, sweep_rounds-policy, replaced-SameSettings,
}

-- What a loop or a write leaves, when it answers.
abbrev pub Leaves : Cache → Option Answer → Type 0
Leaves c none = Unit
Leaves c (some (result, d)) = SameSettings c d

Leaves-trans :
    (a b : Cache) (answer : Option Answer) → SameSettings a b → Leaves b answer → Leaves a answer
Leaves-trans a b none f g = tt
Leaves-trans a b (some (result, d)) f g = SameSettings-trans a b d f g

evicted-Leaves :
    (full : CacheError) (c : Cache) (other : Text) (old left : Namespace) (released : Option ℕ)
    (continue : Cache → Option Answer)
    → lookup other c.namespaces ≡ some old
    → left.policy ≡ old.policy
    → ((d : Cache) → Leaves d (continue d))
    → Leaves c (evicted released full (with_namespace other left c) continue)
unfolding count_eviction
evicted-Leaves full c other old left none continue found same go =
    with_namespace-SameSettings other old left c found same
evicted-Leaves full c other old left (some bytes) continue found same go =
    let kept = released-SameSettings other old left 1 bytes c found same in
    let next = count_eviction (release 1 bytes (with_namespace other left c)) in
    Leaves-trans c next (continue next)
      (recounted c (release 1 bytes (with_namespace other left c)) next kept
        (refl, refl, refl, refl))
      (go next)

global-Leaves :
    (c : Cache) (continue : Cache → Option Answer)
    → ((d : Cache) → Leaves d (continue d))
    → Leaves c (evicted (evict_globally c).0 cache_full (evict_globally c).1 continue)
unfolding evict_globally
global-Leaves c continue go = elim (Option-cases (oldest c.namespaces)) [
  | inl h ↦ rw (evict_globally, h) (unchanged c)
  | inr ((first, other), h) ↦ elim (Option-cases (lookup other c.namespaces)) [
    | inl gone ↦ rw (evict_globally, h, gone) (unchanged c)
    | inr (old, found) ↦
        rw (evict_globally, h, found)
          (evicted-Leaves cache_full c other old (evict_one old).1 (evict_one old).0 continue found
            (evict_one-policy old) go)
  ]
]

make_room-Leaves :
    (fuel : ℕ) (name : Text) (cost : ℕ) (c : Cache) → Leaves c (make_room fuel name cost c)
unfolding make_room
make_room-Leaves zero name cost c = tt
make_room-Leaves (suc fuel) name cost c = elim (Option-cases (lookup name c.namespaces)) [
  | inl gone ↦ rw (make_room, gone) (unchanged c)
  | inr (ns, found) ↦
      let next = λ (d : Cache). make_room-Leaves fuel name cost d in
      elim (Bool-cases (namespace_fits cost ns)) [
        | inl fits ↦ elim (Bool-cases (globally_fits cost c)) [
          | inl wide ↦ rw (make_room, found, fits, wide) (unchanged c)
          | inr full ↦
              rw (make_room, found, fits, full) (global-Leaves c (make_room fuel name cost) next)
        ]
        | inr full ↦
            rw (make_room, found, full)
              (evicted-Leaves namespace_full c name ns (evict_one ns).1 (evict_one ns).0
                (make_room fuel name cost) found (evict_one-policy ns) next)
      ]
]

store-SameSettings :
    (name key value : Text) (deadline cost : ℕ) (c : Cache)
    → SameSettings c (store name key value deadline cost c).1
unfolding store stored
store-SameSettings name key value deadline cost c = elim (Option-cases (lookup name c.namespaces)) [
  | inl gone ↦ rw (store, gone) (unchanged c)
  | inr (ns, found) ↦
      let kept =
        with_namespace-SameSettings name ns (stored key value deadline c.stamp cost ns) c found
          refl in
      rw (store, found)
        (recounted c (with_namespace name (stored key value deadline c.stamp cost ns) c) _ kept
          (refl, refl, refl, refl))
]

continue_answer-Leaves :
    (c : Cache) (answer : Option Answer) (f : Cache → Answer)
    → Leaves c answer
    → ((d : Cache) → SameSettings d (f d).1)
    → Leaves c (continue_answer answer f)
continue_answer-Leaves c none f h next = tt
continue_answer-Leaves c (some (err e, d)) f h next = h
continue_answer-Leaves c (some (ok _, d)) f h next = SameSettings-trans c d (f d).1 h (next d)

swept-SameSettings :
    (name : Text) (now_millis : ℕ) (ns : Namespace) (c : Cache)
    → lookup name c.namespaces ≡ some ns
    → SameSettings c (swept name now_millis ns c)
unfolding swept sweep_expired
swept-SameSettings name now_millis ns c found =
    let s = sweep_expired now_millis ns in
    let kept =
      released-SameSettings name ns s.left s.removed s.released c found
        (sweep_rounds-policy 8 now_millis (record { removed = 0; released = 0; left = ns })) in
    recounted c (release s.removed s.released (with_namespace name s.left c))
      (swept name now_millis ns c) kept (refl, refl, refl, refl)

pub write-Leaves :
    (fuel : ℕ) (name key value : Text) (ttl_seconds : ℤ) (now_millis : ℕ) (writer : Writer)
    (c : Cache)
    → Leaves (next_stamp c) (write fuel name key value ttl_seconds now_millis writer c)
unfolding write
write-Leaves fuel name key value ttl_seconds now_millis writer before =
    let c = next_stamp before in
    elim (Option-cases (lookup name c.namespaces)) [
      | inl gone ↦ rw (write, gone) (unchanged c)
      | inr (ns, found) ↦
          elim (Result-cases (admit ns.policy key value ttl_seconds now_millis writer)) [
            | inl (e, bad) ↦ rw (write, found, bad) (unchanged c)
            | inr (deadline, good) ↦
                let cost = charge key value in
                let start = replaced name key (swept name now_millis ns c) in
                let before_loop =
                  SameSettings-trans c (swept name now_millis ns c) start
                    (swept-SameSettings name now_millis ns c found)
                    (replaced-SameSettings name key (swept name now_millis ns c)) in
                rw (write, found, good)
                  (continue_answer-Leaves c (make_room fuel name cost start)
                    (store name key value deadline cost)
                    (Leaves-trans c start (make_room fuel name cost start) before_loop
                      (make_room-Leaves fuel name cost start))
                    (store-SameSettings name key value deadline cost))
          ]
    ]
