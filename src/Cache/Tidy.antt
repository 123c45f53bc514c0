-- ===== src/Cache/Tidy.antt =====
-- crates/krit-cache/src/store.rs: the three structures of a namespace agree, and its bytes are the
-- sum of what its entries cost.
pub mod Changes
pub mod Refresh
use krit.Base.{ℕ, ◌≡◌, ◌≢◌, refl, false, none, some, List, arith, Bool-cases, inl, inr, length, ◌+◌}
use krit.Cache.Map.{
  lookup, remove, Distinct, total, lookup-remove, remove-Distinct, total-remove, length-remove,
}
use krit.Cache.Text.{Text, text_key, number_key, deadline_key, text_eq, text_eq_iff}
use krit.Cache.Namespace.{Entry, Namespace, charge, new_namespace, without}
use krit.Cache.Config.{NamespacePolicy}

-- What the entries cost together.
abbrev pub cost_of : List (Text × Entry) → ℕ
cost_of = total (λ key e. charge key e.value)

-- An entry that is found with a given field.
abbrev pub Found : List (Text × Entry) → Text → (Entry → Type 0) → Type 0
Found entries key P = (e : Entry) × (lookup key entries ≡ some e) × P e

pub record Tidy (ns : Namespace) : Type 0 where
  pub distinct : Distinct ns.entries
  pub distinct_access : Distinct ns.by_access
  pub distinct_expiry : Distinct ns.by_expiry
  pub accounted : ns.bytes ≡ cost_of ns.entries
  pub access_sound :
      (stamp : ℕ) (key : Text)
      → lookup stamp ns.by_access ≡ some key
      → Found ns.entries key (λ e. e.stamp ≡ stamp)
  pub access_complete :
      (key : Text) (e : Entry)
      → lookup key ns.entries ≡ some e
      → lookup e.stamp ns.by_access ≡ some key
  pub expiry_sound :
      (deadline : ℕ) (key : Text)
      → lookup (deadline, key) ns.by_expiry ≡ some tt
      → Found ns.entries key (λ e. e.expires_at_millis ≡ deadline)
  pub expiry_complete :
      (key : Text) (e : Entry)
      → lookup key ns.entries ≡ some e
      → lookup (e.expires_at_millis, key) ns.by_expiry ≡ some tt

none_some {ℓ} : {A : Type ℓ} {a : A} → none ≢ some a
none_some h = cc

pub new_namespace-Tidy : (p : NamespacePolicy) → Tidy (new_namespace p)
unfolding new_namespace lookup total
new_namespace-Tidy p = record {
  distinct = Distinct.nil;
  distinct_access = Distinct.nil;
  distinct_expiry = Distinct.nil;
  accounted = refl;
  access_sound = λ stamp key h. absurd (none_some h);
  access_complete = λ key e h. absurd (none_some h);
  expiry_sound = λ deadline key h. absurd (none_some h);
  expiry_complete = λ key e h. absurd (none_some h);
}

module _ (key : Text) (e : Entry) (ns : Namespace) (tidy : Tidy ns)
    (hit : lookup key ns.entries ≡ some e) where
  -- Another key keeps its entry.
  other_entry :
      (k : Text) (e' : Entry)
      → lookup k ns.entries ≡ some e'
      → text_eq key k ≡ false
      → lookup k (remove key ns.entries) ≡ some e'
  other_entry k e' found apart = ground (arith, lookup-remove key k ns.entries)

  kept_entry :
      (k : Text) (e' : Entry)
      → lookup k (remove key ns.entries) ≡ some e'
      → (text_eq key k ≡ false) × (lookup k ns.entries ≡ some e')
  kept_entry k e' h = ground (arith, lookup-remove key k ns.entries)

  access_sound_without :
      (stamp : ℕ) (k : Text)
      → lookup stamp (remove e.stamp ns.by_access) ≡ some k
      → Found (remove key ns.entries) k (λ e'. e'.stamp ≡ stamp)
  access_sound_without stamp k h =
      let old : lookup stamp ns.by_access ≡ some k =
        ground (arith, lookup-remove e.stamp stamp ns.by_access) in
      let (e', found, same) = tidy.access_sound stamp k old in
      (
        e',
        other_entry k e' found (elim (Bool-cases (text_eq key k)) [
          | inl one ↦
              absurd (ground (arith, lookup-remove e.stamp stamp ns.by_access, text_eq_iff key k))
          | inr apart ↦ apart
        ]),
        same,
      )

  access_complete_without :
      (k : Text) (e' : Entry)
      → lookup k (remove key ns.entries) ≡ some e'
      → lookup e'.stamp (remove e.stamp ns.by_access) ≡ some k
  access_complete_without k e' h =
      let (apart, found) = kept_entry k e' h in
      ground (
        arith,
        lookup-remove e.stamp e'.stamp ns.by_access,
        tidy.access_complete k e' found,
        tidy.access_complete key e hit,
        text_eq_iff key k,
      )

  expiry_sound_without :
      (deadline : ℕ) (k : Text)
      → lookup (deadline, k) (remove (e.expires_at_millis, key) ns.by_expiry) ≡ some tt
      → Found (remove key ns.entries) k (λ e'. e'.expires_at_millis ≡ deadline)
  expiry_sound_without deadline k h =
      let removed = lookup-remove (e.expires_at_millis, key) (deadline, k) ns.by_expiry in
      let old : lookup (deadline, k) ns.by_expiry ≡ some tt = ground (arith, removed) in
      let (e', found, same) = tidy.expiry_sound deadline k old in
      (
        e',
        other_entry k e' found (elim (Bool-cases (text_eq key k)) [
          | inl one ↦ absurd (ground (arith, removed, text_eq_iff key k))
          | inr apart ↦ apart
        ]),
        same,
      )

  expiry_complete_without :
      (k : Text) (e' : Entry)
      → lookup k (remove key ns.entries) ≡ some e'
      → lookup (e'.expires_at_millis, k) (remove (e.expires_at_millis, key) ns.by_expiry) ≡ some tt
  expiry_complete_without k e' h =
      let (apart, found) = kept_entry k e' h in
      ground (
        arith,
        lookup-remove (e.expires_at_millis, key) (e'.expires_at_millis, k) ns.by_expiry,
        tidy.expiry_complete k e' found,
      )

  pub without-Tidy : Tidy (without key e ns)
  unfolding without
  without-Tidy = record {
    distinct = remove-Distinct key ns.entries tidy.distinct;
    distinct_access = remove-Distinct e.stamp ns.by_access tidy.distinct_access;
    distinct_expiry = remove-Distinct (e.expires_at_millis, key) ns.by_expiry tidy.distinct_expiry;
    accounted = omega (
      arith,
      tidy.accounted,
      total-remove (λ k e'. charge k e'.value) key e ns.entries tidy.distinct hit,
    );
    access_sound = access_sound_without;
    access_complete = access_complete_without;
    expiry_sound = expiry_sound_without;
    expiry_complete = expiry_complete_without;
  }

  -- What removing the entry releases.
  pub without_sizes :
      (length (without key e ns).entries + 1 ≡ length ns.entries)
      × ((without key e ns).bytes + charge key e.value ≡ ns.bytes)
  unfolding without
  without_sizes = (
    length-remove key e ns.entries tidy.distinct hit,
    omega (
      arith,
      tidy.accounted,
      total-remove (λ k e'. charge k e'.value) key e ns.entries tidy.distinct hit,
    ),
  )
