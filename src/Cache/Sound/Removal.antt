-- ===== src/Cache/Sound/Removal.antt =====
-- crates/krit-cache/src/store.rs: what `Namespace::remove` and `evict_one` take out, to the byte.
use krit.Base.{
  ℕ, ◌+◌, ◌≡◌, refl, sym, subst, Bool, Option, none, some, List, [], ◌∷◌, ltb, length, arith,
  Bool-cases, Option-cases, inl, inr,
}
use krit.Cache.Map.{Key, lookup, Distinct, lookup-remove, eq-nil_of_lookup}
use krit.Cache.Text.{Text, text_eq_iff, text_key, number_key, deadline_key}
use krit.Cache.Namespace.{
  Entry, Namespace, charge, without, remove_key, least, least_from, evict_one,
}
use krit.Cache.Tidy.{without-Tidy, without_sizes}
use krit.Cache.Sound.{Within}

module _ {K V : Type 0} ⦃key : Key K⦄ (lt : K → K → Bool) where
  pub skip :
      (k r : K) (v u : V) (m : List (K × V))
      → lookup k m ≡ none
      → lookup r m ≡ some u
      → lookup r ((k, v) ∷ m) ≡ some u
  unfolding lookup
  skip k r v u m fresh h = ground (arith, key.beq_iff k r)

  pass :
      (k j r : K) (v w u : V) (m : List (K × V))
      → lookup k ((j, w) ∷ m) ≡ none
      → lookup j m ≡ none
      → lookup r ((k, v) ∷ m) ≡ some u
      → lookup r ((k, v) ∷ (j, w) ∷ m) ≡ some u
  unfolding lookup
  pass k j r v w u m fresh fresh' h =
      ground (arith, key.beq_iff k r, key.beq_iff j r, key.beq_iff j k)

  later_fresh :
      (k j : K) (w : V) (m : List (K × V)) → lookup k ((j, w) ∷ m) ≡ none → lookup k m ≡ none
  unfolding lookup
  later_fresh k j w m h = ground (arith, key.beq_iff j k)

  lookup-least_from :
      (k : K) (v : V) (m : List (K × V))
      → Distinct ((k, v) ∷ m)
      → lookup (least_from lt (k, v) m).0 ((k, v) ∷ m) ≡ some (least_from lt (k, v) m).1
  unfolding least_from lookup
  lookup-least_from k v [] d = ground (arith, key.beq_iff k k)
  lookup-least_from k v ((j, w) ∷ m) (Distinct.cons fresh (Distinct.cons fresh' d)) =
      elim (Bool-cases (lt j k)) [
        | inl less ↦
            let rest = lookup-least_from j w m (Distinct.cons fresh' d) in
            subst
              (λ e. lookup (least_from lt e m).0 ((k, v) ∷ (j, w) ∷ m) ≡ some (least_from lt e m).1)
              (rw less refl)
              (skip k (least_from lt (j, w) m).0 v (least_from lt (j, w) m).1 ((j, w) ∷ m) fresh
                rest)
        | inr more ↦
            let rest = lookup-least_from k v m (Distinct.cons (later_fresh k j w m fresh) d) in
            subst
              (λ e. lookup (least_from lt e m).0 ((k, v) ∷ (j, w) ∷ m) ≡ some (least_from lt e m).1)
              (rw more refl)
              (pass k j (least_from lt (k, v) m).0 v w (least_from lt (k, v) m).1 m fresh fresh'
                rest)
      ]

  pub lookup-least :
      (m : List (K × V)) (k : K) (v : V)
      → Distinct m
      → least lt m ≡ some (k, v)
      → lookup k m ≡ some v
  unfolding least
  lookup-least [] k v d h = absurd cc
  lookup-least ((j, w) ∷ m) k v d h =
      let same : least_from lt (j, w) m ≡ (k, v) = cc in
      let found = lookup-least_from j w m d in (rw same at found)

  pub eq-nil_of_least : (m : List (K × V)) → least lt m ≡ none → m ≡ []
  unfolding least
  eq-nil_of_least [] h = refl
  eq-nil_of_least (e ∷ m) h = absurd cc

-- What was absent stays absent, under the same policy.
abbrev pub Keeps : Namespace → Namespace → Type 0
Keeps ns left =
    ((k : Text) → lookup k ns.entries ≡ none → lookup k left.entries ≡ none)
    × (left.policy ≡ ns.policy)

pub without-Keeps : (key : Text) (e : Entry) (ns : Namespace) → Keeps ns (without key e ns)
unfolding without
without-Keeps key e ns = (λ k absent. ground (arith, lookup-remove key k ns.entries), refl)

pub without-absent :
    (key : Text) (e : Entry) (ns : Namespace) → lookup key (without key e ns).entries ≡ none
unfolding without
without-absent key e ns = ground (arith, lookup-remove key key ns.entries, text_eq_iff key key)

-- What a removal answers, beside what it leaves.
abbrev pub Removed : Namespace → ℕ → Option ℕ → Namespace → Type 0
Removed ns latest none left = left ≡ ns
Removed ns latest (some bytes) left =
    Within left latest
    × (length left.entries + 1 ≡ length ns.entries)
    × (left.bytes + bytes ≡ ns.bytes)
    × Keeps ns left

pub without-Within :
    (key : Text) (e : Entry) (ns : Namespace) (latest : ℕ)
    → Within ns latest
    → lookup key ns.entries ≡ some e
    → Within (without key e ns) latest
unfolding without
without-Within key e ns latest w found =
    let sizes = without_sizes key e ns w.tidy found in
    record {
      tidy = without-Tidy key e ns w.tidy found;
      few = omega (arith, w.few, sizes);
      small = omega (arith, w.small, sizes);
      below_word = w.below_word;
      stamped = λ s k h. w.stamped s k (ground (arith, lookup-remove e.stamp s ns.by_access));
    }

pub remove_key-found :
    (key : Text) (e : Entry) (ns : Namespace)
    → lookup key ns.entries ≡ some e
    → remove_key key ns ≡ (some (charge key e.value), without key e ns)
unfolding remove_key
remove_key-found key e ns h = rw (remove_key, h) refl

pub remove_key-absent :
    (key : Text) (ns : Namespace) → lookup key ns.entries ≡ none → remove_key key ns ≡ (none, ns)
unfolding remove_key
remove_key-absent key ns h = rw (remove_key, h) refl

pub remove_key-Removed :
    (key : Text) (ns : Namespace) (latest : ℕ)
    → Within ns latest
    → Removed ns latest (remove_key key ns).0 (remove_key key ns).1
remove_key-Removed key ns latest w = elim (Option-cases (lookup key ns.entries)) [
  | inl h ↦ subst (λ r. Removed ns latest r.0 r.1) (sym (remove_key-absent key ns h)) refl
  | inr (e, h) ↦
      subst (λ r. Removed ns latest r.0 r.1) (sym (remove_key-found key e ns h))
        (
          without-Within key e ns latest w h,
          (without_sizes key e ns w.tidy h).0,
          (without_sizes key e ns w.tidy h).1,
          without-Keeps key e ns,
        )
]

pub evict_one-first :
    (ns : Namespace) (stamp : ℕ) (key : Text)
    → least ltb ns.by_access ≡ some (stamp, key)
    → evict_one ns ≡ remove_key key ns
unfolding evict_one
evict_one-first ns stamp key h = rw (evict_one, h) refl

pub evict_one-absent : (ns : Namespace) → least ltb ns.by_access ≡ none → evict_one ns ≡ (none, ns)
unfolding evict_one
evict_one-absent ns h = rw (evict_one, h) refl

-- `evict_one` takes out one entry, unless there is none.
pub evict_one-Removed :
    (ns : Namespace) (latest : ℕ)
    → Within ns latest
    → Removed ns latest (evict_one ns).0 (evict_one ns).1
evict_one-Removed ns latest w = elim (Option-cases (least ltb ns.by_access)) [
  | inl h ↦ subst (λ r. Removed ns latest r.0 r.1) (sym (evict_one-absent ns h)) refl
  | inr ((stamp, key), h) ↦
      subst (λ r. Removed ns latest r.0 r.1) (sym (evict_one-first ns stamp key h))
        (remove_key-Removed key ns latest w)
]

not_found_in_nil : (k : ℕ) (key : Text) (m : List (ℕ × Text)) → m ≡ [] → lookup k m ≡ some key → ⊥
unfolding lookup
not_found_in_nil k key m h at = cc

pub eq-nil_of_evict_one :
    (ns : Namespace) (latest : ℕ) → Within ns latest → (evict_one ns).0 ≡ none → ns.entries ≡ []
eq-nil_of_evict_one ns latest w none_left = elim (Option-cases (least ltb ns.by_access)) [
  | inl h ↦ eq-nil_of_lookup ns.entries λ key. elim (Option-cases (lookup key ns.entries)) [
    | inl absent ↦ absent
    | inr (e, found) ↦ absurd (
        not_found_in_nil e.stamp key ns.by_access (eq-nil_of_least ltb ns.by_access h)
          (w.tidy.access_complete key e found))
  ]
  | inr ((stamp, key), h) ↦
      let (e, found, at) =
        w.tidy.access_sound stamp key
          (lookup-least ltb ns.by_access stamp key w.tidy.distinct_access h) in
      let first = evict_one-first ns stamp key h in
      let taken = remove_key-found key e ns found in absurd cc
]
