-- ===== src/Cache/Tidy/Refresh.antt =====
-- crates/krit-cache/src/store.rs: a hit keeps the structures of a namespace in agreement.
use krit.Base.{
  ℕ, ◌≡◌, ◌⊎◌, refl, subst, false, none, some, List, ◌==◌, if◌then◌else◌, length, arith, Bool-cases,
  inl, inr, ==_iff,
}
use krit.Cache.Map.{
  lookup, remove, insert, lookup-remove, lookup-insert, remove-Distinct, insert-Distinct,
  total-remove, total-insert, length-remove,
}
use krit.Cache.Text.{Text, text_key, number_key, deadline_key, text_eq, text_eq_iff}
use krit.Cache.Namespace.{Entry, Namespace, charge}
use krit.Cache.Tidy.{Tidy, Found}
use krit.Cache.Read.{refreshed}

module _ (key : Text) (e : Entry) (stamp : ℕ) (ns : Namespace) (tidy : Tidy ns)
    (hit : lookup key ns.entries ≡ some e) (fresh : lookup stamp ns.by_access ≡ none) where
  abbrev moved : Entry
  moved = record e { stamp = stamp }

  abbrev access : List (ℕ × Text)
  access = insert stamp key (remove e.stamp ns.by_access)

  finds_moved : lookup key (insert key moved ns.entries) ≡ some moved
  finds_moved = ground (arith, lookup-insert key key moved ns.entries, text_eq_iff key key)

  keeps_entry :
      (k : Text) (e' : Entry)
      → lookup k ns.entries ≡ some e'
      → text_eq key k ≡ false
      → lookup k (insert key moved ns.entries) ≡ some e'
  keeps_entry k e' h apart = ground (arith, lookup-insert key k moved ns.entries)

  old_of :
      (k : Text) (e' : Entry)
      → lookup k (insert key moved ns.entries) ≡ some e'
      → ((key ≡ k) × (moved ≡ e')) ⊎ ((text_eq key k ≡ false) × (lookup k ns.entries ≡ some e'))
  old_of k e' h = elim (Bool-cases (text_eq key k)) [
    | inl one ↦
        inl ((text_eq_iff key k).0 one, ground (arith, lookup-insert key k moved ns.entries))
    | inr apart ↦ inr (apart, ground (arith, lookup-insert key k moved ns.entries))
  ]

  lookup-access :
      (s : ℕ)
      → lookup s access
        ≡ (if stamp == s then some key else if e.stamp == s then none else lookup s ns.by_access)
  lookup-access s = ground (
    arith,
    lookup-insert stamp s key (remove e.stamp ns.by_access),
    lookup-remove e.stamp s ns.by_access,
  )

  access_sound_moved :
      (s : ℕ) (k : Text)
      → lookup s access ≡ some k
      → Found (insert key moved ns.entries) k (λ e'. e'.stamp ≡ s)
  access_sound_moved s k h = elim (Bool-cases (stamp == s)) [
    | inl one ↦
        let same : key ≡ k = ground (arith, lookup-access s) in
        (moved, rw (← same) finds_moved, (==_iff stamp s).0 one)
    | inr apart ↦
        let (e', found, at) = tidy.access_sound s k (ground (arith, lookup-access s)) in
        (
          e',
          keeps_entry k e' found (elim (Bool-cases (text_eq key k)) [
            | inl one ↦ absurd (ground (arith, lookup-access s, text_eq_iff key k))
            | inr other ↦ other
          ]),
          at,
        )
  ]

  access_complete_moved :
      (k : Text) (e' : Entry)
      → lookup k (insert key moved ns.entries) ≡ some e'
      → lookup e'.stamp access ≡ some k
  access_complete_moved k e' h = elim (old_of k e' h) [
    | inl (same_key, same) ↦ ground (arith, lookup-access e'.stamp)
    | inr (apart, found) ↦ ground (
      arith,
      lookup-access e'.stamp,
      tidy.access_complete k e' found,
      tidy.access_complete key e hit,
      text_eq_iff key k,
    )
  ]

  expiry_sound_moved :
      (d : ℕ) (k : Text)
      → lookup (d, k) ns.by_expiry ≡ some tt
      → Found (insert key moved ns.entries) k (λ e'. e'.expires_at_millis ≡ d)
  expiry_sound_moved d k h =
      let (e', found, at) = tidy.expiry_sound d k h in
      elim (Bool-cases (text_eq key k)) [
        | inl one ↦
            let same : key ≡ k = (text_eq_iff key k).0 one in
            (moved, rw (← same) finds_moved, ground arith)
        | inr apart ↦ (e', keeps_entry k e' found apart, at)
      ]

  expiry_complete_moved :
      (k : Text) (e' : Entry)
      → lookup k (insert key moved ns.entries) ≡ some e'
      → lookup (e'.expires_at_millis, k) ns.by_expiry ≡ some tt
  expiry_complete_moved k e' h = elim (old_of k e' h) [
    | inl (same_key, same) ↦
        subst (λ x. lookup (x.expires_at_millis, k) ns.by_expiry ≡ some tt) same
          (subst (λ j. lookup (e.expires_at_millis, j) ns.by_expiry ≡ some tt) same_key
            (tidy.expiry_complete key e hit))
    | inr (apart, found) ↦ tidy.expiry_complete k e' found
  ]

  pub refreshed-Tidy : Tidy (refreshed key e stamp ns)
  unfolding refreshed
  refreshed-Tidy = record {
    distinct = insert-Distinct key moved ns.entries tidy.distinct;
    distinct_access =
        insert-Distinct stamp key (remove e.stamp ns.by_access)
          (remove-Distinct e.stamp ns.by_access tidy.distinct_access);
    distinct_expiry = tidy.distinct_expiry;
    accounted = omega (
      arith,
      tidy.accounted,
      total-insert (λ k e'. charge k e'.value) key moved ns.entries,
      total-remove (λ k e'. charge k e'.value) key e ns.entries tidy.distinct hit,
    );
    access_sound = access_sound_moved;
    access_complete = access_complete_moved;
    expiry_sound = expiry_sound_moved;
    expiry_complete = expiry_complete_moved;
  }

  pub refreshed_sizes :
      (length (refreshed key e stamp ns).entries ≡ length ns.entries)
      × ((refreshed key e stamp ns).bytes ≡ ns.bytes)
  unfolding refreshed insert
  refreshed_sizes = (omega (arith, length-remove key e ns.entries tidy.distinct hit), refl)
