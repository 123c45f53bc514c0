-- ===== src/Cache/Sound/Sweeping.antt =====
-- crates/krit-cache/src/store.rs: what `Namespace::sweep_expired` takes out, to the byte.
use krit.Base.{
  ℕ, zero, suc, ◌+◌, ◌≡◌, refl, ◌∙◌, sym, subst, some, ltb, length, arith, Bool-cases, Option-cases,
  inl, inr,
}
use krit.Cache.Map.{lookup}
use krit.Cache.Text.{Text, text_key, number_key, deadline_key, deadline_lt}
use krit.Cache.Namespace.{
  Entry, Namespace, remove_key, least, Sweep, after_round, sweep_rounds, sweep_expired,
  max_sweep_per_operation,
}
use krit.Cache.Tidy.{without_sizes}
use krit.Cache.Sound.{Within}
use krit.Cache.Sound.Removal.{lookup-least, remove_key-found, without-Within, without-Keeps}

-- What a sweep has taken out, with each entry counted.
pub record Swept (ns : Namespace) (latest : ℕ) (s : Sweep) : Type 0 where
  pub within : Within s.left latest
  pub counted : length s.left.entries + s.removed ≡ length ns.entries
  pub accounted : s.left.bytes + s.released ≡ ns.bytes
  pub governed : s.left.policy ≡ ns.policy

after_round-Swept :
    (ns : Namespace) (latest : ℕ) (s : Sweep) (key : Text) (e : Entry)
    → Swept ns latest s
    → lookup key s.left.entries ≡ some e
    → Swept ns latest (after_round (remove_key key s.left) s.removed s.released)
after_round-Swept ns latest s key e swept found =
    let sizes = without_sizes key e s.left swept.within.tidy found in
    subst (λ r. Swept ns latest (after_round r s.removed s.released))
      (sym (remove_key-found key e s.left found))
      (record {
        within = without-Within key e s.left latest swept.within found;
        counted = omega (arith, swept.counted, sizes);
        accounted = omega (arith, swept.accounted, sizes);
        governed = (without-Keeps key e s.left).1 ∙ swept.governed;
      })

sweep_rounds-Swept :
    (rounds now_millis : ℕ) (ns : Namespace) (latest : ℕ) (s : Sweep)
    → Swept ns latest s
    → Swept ns latest (sweep_rounds rounds now_millis s)
unfolding sweep_rounds
sweep_rounds-Swept zero now_millis ns latest s swept = swept
sweep_rounds-Swept (suc rounds) now_millis ns latest s swept =
    elim (Option-cases (least deadline_lt s.left.by_expiry)) [
      | inl h ↦ rw (sweep_rounds, h) swept
      | inr (((expires_at, key), _), h) ↦
          let (e, found, at) = swept.within.tidy.expiry_sound expires_at key (
            lookup-least deadline_lt s.left.by_expiry (expires_at, key) tt
              swept.within.tidy.distinct_expiry h) in
          let rest =
            sweep_rounds-Swept rounds now_millis ns latest
              (after_round (remove_key key s.left) s.removed s.released)
              (after_round-Swept ns latest s key e swept found) in
          (elim (Bool-cases (ltb now_millis expires_at)) [
            | inl early ↦ rw (sweep_rounds, h, early) swept
            | inr due ↦ rw (sweep_rounds, h, due) rest
          ])
    ]

pub sweep_expired-Swept :
    (now_millis : ℕ) (ns : Namespace) (latest : ℕ)
    → Within ns latest
    → Swept ns latest (sweep_expired now_millis ns)
unfolding sweep_expired
sweep_expired-Swept now_millis ns latest w =
    sweep_rounds-Swept max_sweep_per_operation now_millis ns latest
      (record { removed = 0; released = 0; left = ns })
      (record { within = w; counted = omega arith; accounted = omega arith; governed = refl })
