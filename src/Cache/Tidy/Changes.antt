-- ===== src/Cache/Tidy/Changes.antt =====
-- crates/krit-cache/src/store.rs: a hit and a write keep the structures of a namespace in agreement.
use krit.Base.{
  ℕ, ◌+◌, ◌≡◌, ◌⊎◌, ap, ◌∙◌, false, none, some, ◌==◌, length, arith, Bool-cases, inl, inr, ==_iff,
}
use krit.Cache.Map.{lookup, insert, lookup-insert, insert-Distinct, total-insert, remove-fresh}
use krit.Cache.Text.{Text, text_key, number_key, deadline_key, text_eq, text_eq_iff, deadline_eq}
use krit.Cache.Namespace.{Entry, Namespace, charge}
use krit.Cache.Tidy.{Tidy, Found, cost_of}
use krit.Cache.Write.{stored}
use krit.Cache.Config.{saturating_add}

-- An entry for a key that has none, at a stamp that is not in use.
module _ (key value : Text) (deadline stamp cost : ℕ) (ns : Namespace) (tidy : Tidy ns)
    (absent : lookup key ns.entries ≡ none) (fresh : lookup stamp ns.by_access ≡ none)
    (exact : cost ≡ charge key value) (fits : saturating_add ns.bytes cost ≡ ns.bytes + cost) where
  abbrev new_entry : Entry
  new_entry = record { value = value; expires_at_millis = deadline; stamp = stamp }

  old_of :
      (k : Text) (e : Entry)
      → lookup k (insert key new_entry ns.entries) ≡ some e
      → ((key ≡ k) × (new_entry ≡ e)) ⊎ ((text_eq key k ≡ false) × (lookup k ns.entries ≡ some e))
  old_of k e h = elim (Bool-cases (text_eq key k)) [
    | inl one ↦
        inl ((text_eq_iff key k).0 one, ground (arith, lookup-insert key k new_entry ns.entries))
    | inr apart ↦ inr (apart, ground (arith, lookup-insert key k new_entry ns.entries))
  ]

  -- A key that has an entry is another one, and keeps it.
  keeps_entry :
      (k : Text) (e : Entry)
      → lookup k ns.entries ≡ some e
      → lookup k (insert key new_entry ns.entries) ≡ some e
  keeps_entry k e h = ground (arith, lookup-insert key k new_entry ns.entries, text_eq_iff key k)

  finds_new : lookup key (insert key new_entry ns.entries) ≡ some new_entry
  finds_new = ground (arith, lookup-insert key key new_entry ns.entries, text_eq_iff key key)

  access_sound_stored :
      (s : ℕ) (k : Text)
      → lookup s (insert stamp key ns.by_access) ≡ some k
      → Found (insert key new_entry ns.entries) k (λ e. e.stamp ≡ s)
  access_sound_stored s k h = elim (Bool-cases (stamp == s)) [
    | inl one ↦
        let same : key ≡ k = ground (arith, lookup-insert stamp s key ns.by_access) in
        (new_entry, rw (← same) finds_new, (==_iff stamp s).0 one)
    | inr apart ↦
        let (e, found, at) =
          tidy.access_sound s k (ground (arith, lookup-insert stamp s key ns.by_access)) in
        (e, keeps_entry k e found, at)
  ]

  access_complete_stored :
      (k : Text) (e : Entry)
      → lookup k (insert key new_entry ns.entries) ≡ some e
      → lookup e.stamp (insert stamp key ns.by_access) ≡ some k
  access_complete_stored k e h = elim (old_of k e h) [
    | inl (same_key, same) ↦ ground (arith, lookup-insert stamp e.stamp key ns.by_access)
    | inr (apart, found) ↦
        ground (arith, lookup-insert stamp e.stamp key ns.by_access, tidy.access_complete k e found)
  ]

  expiry_sound_stored :
      (d : ℕ) (k : Text)
      → lookup (d, k) (insert (deadline, key) tt ns.by_expiry) ≡ some tt
      → Found (insert key new_entry ns.entries) k (λ e. e.expires_at_millis ≡ d)
  expiry_sound_stored d k h = elim (Bool-cases (deadline_eq (deadline, key) (d, k))) [
    | inl one ↦
        let same : (deadline ≡ d) × (key ≡ k) = ground (arith, text_eq_iff key k) in
        (new_entry, rw (← same.1) finds_new, same.0)
    | inr apart ↦
        let (e, found, at) =
          tidy.expiry_sound d k
            (ground (arith, lookup-insert (deadline, key) (d, k) tt ns.by_expiry)) in
        (e, keeps_entry k e found, at)
  ]

  expiry_complete_stored :
      (k : Text) (e : Entry)
      → lookup k (insert key new_entry ns.entries) ≡ some e
      → lookup (e.expires_at_millis, k) (insert (deadline, key) tt ns.by_expiry) ≡ some tt
  expiry_complete_stored k e h = elim (old_of k e h) [
    | inl (same_key, same) ↦ ground (
      arith,
      lookup-insert (deadline, key) (e.expires_at_millis, k) tt ns.by_expiry,
      text_eq_iff key k,
    )
    | inr (apart, found) ↦ ground (
      arith,
      lookup-insert (deadline, key) (e.expires_at_millis, k) tt ns.by_expiry,
      tidy.expiry_complete k e found,
    )
  ]

  pub stored-Tidy : Tidy (stored key value deadline stamp cost ns)
  unfolding stored
  stored-Tidy = record {
    distinct = insert-Distinct key new_entry ns.entries tidy.distinct;
    distinct_access = insert-Distinct stamp key ns.by_access tidy.distinct_access;
    distinct_expiry = insert-Distinct (deadline, key) tt ns.by_expiry tidy.distinct_expiry;
    accounted =
        fits
        ∙ omega (
          arith,
          tidy.accounted,
          exact,
          total-insert (λ k e. charge k e.value) key new_entry ns.entries,
          ap cost_of (remove-fresh key ns.entries absent),
        );
    access_sound = access_sound_stored;
    access_complete = access_complete_stored;
    expiry_sound = expiry_sound_stored;
    expiry_complete = expiry_complete_stored;
  }

  pub length-stored :
      length (stored key value deadline stamp cost ns).entries ≡ length ns.entries + 1
  unfolding stored insert
  length-stored = omega (arith, ap (λ m. length m) (remove-fresh key ns.entries absent))
