-- ===== src/Cache/Sound.antt =====
-- crates/krit-cache/src/store.rs: the invariant of the whole state.
pub mod Removal
pub mod Sweeping
pub mod Room
pub mod Fitting
pub mod Reading
pub mod Writing
pub mod Answers
use krit.Base.{
  ℕ, ◌+◌, ◌≡◌, ◌≤◌, ◌<◌, none, some, List, length, Option, if◌then◌else◌, arith, Bool-cases, inl,
  inr, refl, ◌-◌,
}
use krit.Cache.Map.{
  lookup, remove, insert, Distinct, total, lookup-insert, insert-Distinct, total-remove,
  total-insert,
}
use krit.Cache.Text.{Text, text_key, number_key, deadline_key, text_eq, text_eq_iff}
use krit.Cache.Config.{word}
use krit.Cache.Namespace.{Entry, Namespace}
use krit.Cache.State.{Cache, release, with_namespace}
use krit.Cache.Tidy.{Tidy}

-- A namespace within its policy, whose stamps are at most the given one.
pub record Within (ns : Namespace) (latest : ℕ) : Type 0 where
  pub tidy : Tidy ns
  pub few : length ns.entries ≤ ns.policy.max_entries
  pub small : ns.bytes ≤ ns.policy.max_bytes
  pub below_word : ns.policy.max_bytes + 1 < word
  pub stamped : (s : ℕ) (key : Text) → lookup s ns.by_access ≡ some key → s ≤ latest

abbrev pub entries_of : List (Text × Namespace) → ℕ
entries_of = total (λ name ns. length ns.entries)

abbrev pub bytes_of : List (Text × Namespace) → ℕ
bytes_of = total (λ name ns. ns.bytes)

-- Every namespace is within its policy, and the totals are the sums and within their limits.
pub record Holds (namespaces : List (Text × Namespace))
    (entries bytes max_entries max_bytes latest : ℕ) : Type 0 where
  pub distinct : Distinct namespaces
  pub within : (name : Text) (ns : Namespace) → lookup name namespaces ≡ some ns → Within ns latest
  pub entries_exact : entries ≡ entries_of namespaces
  pub bytes_exact : bytes ≡ bytes_of namespaces
  pub entries_bound : entries ≤ max_entries
  pub bytes_bound : bytes ≤ max_bytes
  pub below_word : (max_entries + 1 < word) × (max_bytes + 1 < word)

abbrev pub At : ℕ → Cache → Type 0
At latest c =
    Holds c.namespaces c.total_entries c.total_bytes c.max_total_entries c.max_total_bytes latest

abbrev pub Sound : Cache → Type 0
Sound c = At c.stamp c

pub Within-later : (ns : Namespace) (s t : ℕ) → s ≤ t → Within ns s → Within ns t
Within-later ns s t later w = record {
  tidy = w.tidy;
  few = w.few;
  small = w.small;
  below_word = w.below_word;
  stamped = λ k key h. omega (arith, w.stamped k key h);
}

-- One namespace takes the place of another, and the totals follow.
module _ (nss : List (Text × Namespace)) (entries bytes max_entries max_bytes latest : ℕ)
    (holds : Holds nss entries bytes max_entries max_bytes latest) (name : Text)
    (old ns : Namespace) (found : lookup name nss ≡ some old) where
  pub insert-Holds :
      (entries' bytes' latest' : ℕ)
      → latest ≤ latest'
      → Within ns latest'
      → entries' + length old.entries ≡ entries + length ns.entries
      → bytes' + old.bytes ≡ bytes + ns.bytes
      → entries' ≤ max_entries
      → bytes' ≤ max_bytes
      → Holds (insert name ns nss) entries' bytes' max_entries max_bytes latest'
  insert-Holds entries' bytes' latest' later within e b eb bb = record {
    distinct = insert-Distinct name ns nss holds.distinct;
    within = λ other ns' h. elim (Bool-cases (text_eq name other)) [
      | inl same ↦
          let one : ns ≡ ns' = ground (arith, lookup-insert name other ns nss) in rw (← one) within
      | inr apart ↦
          Within-later ns' latest latest' later
            (holds.within other ns' (ground (arith, lookup-insert name other ns nss)))
    ];
    entries_exact = omega (
      arith,
      holds.entries_exact,
      total-insert (λ k m. length m.entries) name ns nss,
      total-remove (λ k m. length m.entries) name old nss holds.distinct found,
    );
    bytes_exact = omega (
      arith,
      holds.bytes_exact,
      total-insert (λ k m. m.bytes) name ns nss,
      total-remove (λ k m. m.bytes) name old nss holds.distinct found,
    );
    entries_bound = eb;
    bytes_bound = bb;
    below_word = holds.below_word;
  }

-- A namespace has at most what there is in all.
pub part-of-total :
    (c : Cache) (name : Text) (ns : Namespace) (latest : ℕ)
    → At latest c
    → lookup name c.namespaces ≡ some ns
    → (length ns.entries ≤ c.total_entries) × (ns.bytes ≤ c.total_bytes)
part-of-total c name ns latest holds found = (
  omega (
    arith,
    holds.entries_exact,
    total-remove (λ k m. length m.entries) name ns c.namespaces holds.distinct found,
  ),
  omega (
    arith,
    holds.bytes_exact,
    total-remove (λ k m. m.bytes) name ns c.namespaces holds.distinct found,
  ),
)

module _ (c : Cache) (name : Text) (old ns : Namespace) (latest : ℕ) (holds : At latest c)
    (found : lookup name c.namespaces ≡ some old) where
  pub release-At :
      (within : Within ns latest) (n b : ℕ)
      → length ns.entries + n ≡ length old.entries
      → ns.bytes + b ≡ old.bytes
      → At latest (release n b (with_namespace name ns c))
  unfolding release with_namespace
  release-At within n b few small =
      let part = part-of-total c name old latest holds found in
      insert-Holds c.namespaces c.total_entries c.total_bytes c.max_total_entries c.max_total_bytes
        latest holds name old ns found (c.total_entries - n) (c.total_bytes - b) latest
        (omega arith) within (omega (arith, part)) (omega (arith, part))
        (omega (arith, holds.entries_bound)) (omega (arith, holds.bytes_bound))

  -- A namespace of the same sizes.
  pub with_namespace-At :
      (latest' : ℕ)
      → latest ≤ latest'
      → Within ns latest'
      → length ns.entries ≡ length old.entries
      → ns.bytes ≡ old.bytes
      → At latest' (with_namespace name ns c)
  unfolding with_namespace
  with_namespace-At latest' later within' few small =
      insert-Holds c.namespaces c.total_entries c.total_bytes c.max_total_entries c.max_total_bytes
        latest holds name old ns found c.total_entries c.total_bytes latest' later within'
        (omega arith) (omega arith) holds.entries_bound holds.bytes_bound

-- A call of `next_stamp`.
pub Holds-later : (c : Cache) (latest latest' : ℕ) → latest ≤ latest' → At latest c → At latest' c
Holds-later c latest latest' later holds = record {
  distinct = holds.distinct;
  within = λ name ns found. Within-later ns latest latest' later (holds.within name ns found);
  entries_exact = holds.entries_exact;
  bytes_exact = holds.bytes_exact;
  entries_bound = holds.entries_bound;
  bytes_bound = holds.bytes_bound;
  below_word = holds.below_word;
}
