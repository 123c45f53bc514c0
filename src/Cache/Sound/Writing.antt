-- ===== src/Cache/Sound/Writing.antt =====
-- crates/krit-cache/src/store.rs: the end of `Cache::write` keeps the invariant and the entry.
use krit.Base.{ℕ, ◌+◌, ◌≡◌, ◌≤◌, ◌<◌, refl, some, length, arith}
use krit.Cache.Map.{lookup, lookup-insert}
use krit.Cache.Text.{Text, text_key, number_key, deadline_key, text_eq_iff}
use krit.Cache.Config.{ok, word, saturating_add, NamespacePolicy}
use krit.Cache.Namespace.{Entry, Namespace, charge, sweep_expired}
use krit.Cache.State.{Cache, release, with_namespace}
use krit.Cache.Write.{swept, store, stored, namespace_fits, globally_fits}
use krit.Cache.Tidy.Changes.{stored-Tidy, length-stored}
use krit.Cache.Sound.{Within, At, Sound, release-At, insert-Holds}
use krit.Cache.Sound.Sweeping.{sweep_expired-Swept}
use krit.Cache.Sound.Room.{Room, Fits}
use krit.Cache.Sound.Reading.{fresh_stamp}

-- The key's entry has the value and the deadline, under the policy.
pub record Kept (p : NamespacePolicy) (name key value : Text) (deadline : ℕ) (c : Cache)
    : Type 0 where
  pub ns : Namespace
  pub found : lookup name c.namespaces ≡ some ns
  pub governed : ns.policy ≡ p
  pub entry : Entry
  pub hit : lookup key ns.entries ≡ some entry
  pub kept : (entry.value ≡ value) × (entry.expires_at_millis ≡ deadline)

saturating_exact :
    (a b bound : ℕ) → saturating_add a b ≤ bound → bound + 1 < word → saturating_add a b ≡ a + b
unfolding saturating_add
saturating_exact a b bound h below = ground arith

pub swept-At :
    (name : Text) (now_millis : ℕ) (ns : Namespace) (c : Cache) (latest : ℕ)
    → At latest c
    → lookup name c.namespaces ≡ some ns
    → At latest (swept name now_millis ns c)
      × ((swept name now_millis ns c).total_entries ≤ c.total_entries)
      × (lookup name (swept name now_millis ns c).namespaces
          ≡ some (sweep_expired now_millis ns).left)
      × ((swept name now_millis ns c).stamp ≡ c.stamp)
      × ((sweep_expired now_millis ns).left.policy ≡ ns.policy)
unfolding swept release with_namespace
swept-At name now_millis ns c latest holds found =
    let s = sweep_expired now_millis ns in
    let out = sweep_expired-Swept now_millis ns latest (holds.within name ns found) in
    (
      release-At c name ns s.left latest holds found out.within s.removed s.released out.counted
          out.accounted,
      omega arith,
      ground (arith, lookup-insert name name s.left c.namespaces, text_eq_iff name name),
      refl,
      out.governed,
    )

module _ (p : NamespacePolicy) (name key value : Text) (deadline latest : ℕ) (c : Cache)
    (above : latest < c.stamp) (room : Room latest c.stamp p name key c)
    (fits : Fits latest c.stamp p name key (charge key value) c) where
  abbrev cost : ℕ
  cost = charge key value

  fit_parts :
      (length room.ns.entries < room.ns.policy.max_entries)
      × (saturating_add room.ns.bytes cost ≤ room.ns.policy.max_bytes)
      × (c.total_entries < c.max_total_entries)
      × (saturating_add c.total_bytes cost ≤ c.max_total_bytes)
  unfolding namespace_fits globally_fits
  fit_parts = let both = fits room.ns room.found in ground arith

  stored-Within : Within (stored key value deadline c.stamp cost room.ns) c.stamp
  unfolding stored
  stored-Within =
      let old = room.holds.within name room.ns room.found in
      let fresh = fresh_stamp room.ns latest c.stamp old above in
      let exact =
        saturating_exact room.ns.bytes cost room.ns.policy.max_bytes fit_parts.1 old.below_word in
      record {
        tidy =
            stored-Tidy key value deadline c.stamp cost room.ns old.tidy room.absent fresh refl
              exact;
        few = omega (
          arith,
          fit_parts.0,
          length-stored key value deadline c.stamp cost room.ns old.tidy room.absent fresh refl
              exact,
        );
        small = fit_parts.1;
        below_word = old.below_word;
        stamped =
            λ s k h. ground (arith, lookup-insert c.stamp s key room.ns.by_access, old.stamped s k);
      }

  abbrev after : Namespace
  after = stored key value deadline c.stamp cost room.ns

  after_sizes :
      (length after.entries ≡ length room.ns.entries + 1)
      × (after.bytes ≡ room.ns.bytes + cost)
      × (saturating_add c.total_entries 1 ≡ c.total_entries + 1)
      × (saturating_add c.total_bytes cost ≡ c.total_bytes + cost)
  unfolding stored saturating_add
  after_sizes =
      let old = room.holds.within name room.ns room.found in
      let fresh = fresh_stamp room.ns latest c.stamp old above in
      let exact =
        saturating_exact room.ns.bytes cost room.ns.policy.max_bytes fit_parts.1 old.below_word in
      (
        length-stored key value deadline c.stamp cost room.ns old.tidy room.absent fresh refl exact,
        exact,
        omega (arith, fit_parts.2, room.holds.below_word.0),
        saturating_exact c.total_bytes cost c.max_total_bytes fit_parts.3 room.holds.below_word.1,
      )

  pub store-Sound : Sound (store name key value deadline cost c).1
  unfolding store with_namespace
  store-Sound =
      rw (store, room.found)
        (insert-Holds c.namespaces c.total_entries c.total_bytes c.max_total_entries
          c.max_total_bytes latest room.holds name room.ns after room.found
          (saturating_add c.total_entries 1) (saturating_add c.total_bytes cost) c.stamp
          (omega (arith, above)) stored-Within (omega (arith, after_sizes))
          (omega (arith, after_sizes)) (omega (arith, after_sizes, fit_parts.2)) fit_parts.3)

  pub store-Kept : Kept p name key value deadline (store name key value deadline cost c).1
  unfolding store with_namespace stored
  store-Kept =
      rw (store, room.found)
        (record {
          ns = after;
          found = ground (arith, lookup-insert name name after c.namespaces, text_eq_iff name name);
          governed = room.governed;
          entry = record { value = value; expires_at_millis = deadline; stamp = c.stamp };
          hit = ground (
            arith,
            lookup-insert key key
                (record { value = value; expires_at_millis = deadline; stamp = c.stamp })
                room.ns.entries,
            text_eq_iff key key,
          );
          kept = (refl, refl);
        })

  pub store-ok : (store name key value deadline cost c).0 ≡ ok tt
  unfolding store
  store-ok = rw (store, room.found) refl
