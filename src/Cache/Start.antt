-- ===== src/Cache/Start.antt =====
-- crates/krit-cache/src/store.rs: `Cache::new` starts within the invariant.
use krit.Base.{
  ◌+◌, ◌≡◌, ◌<◌, refl, sym, subst, false, none, some, arith, Bool-cases, inl, inr, is_empty, List,
  [], ◌∷◌,
}
use krit.Cache.Map.{lookup, Distinct, total}
use krit.Cache.Text.{Text, text_key, text_eq}
use krit.Cache.Config.{
  Result-cases, ok, word, NamespacePolicy, CacheConfig, validate_policy, validate_policies,
  validate_config,
}
use krit.Cache.Namespace.{Namespace, new_namespace}
use krit.Cache.State.{Cache, new, fresh_state, fresh_namespaces}
use krit.Cache.Tidy.{new_namespace-Tidy}
use krit.Cache.Sound.{Sound, Within, entries_of, bytes_of}

validate_policy-bound : (p : NamespacePolicy) → validate_policy p ≡ ok tt → p.max_bytes + 1 < word
unfolding validate_policy
validate_policy-bound p h = ground arith

validate_policies-parts :
    (c : CacheConfig) (name : Text) (p : NamespacePolicy) (ps : List (Text × NamespacePolicy))
    → validate_policies c ((name, p) ∷ ps) ≡ ok tt
    → (validate_policy p ≡ ok tt) × (validate_policies c ps ≡ ok tt)
unfolding validate_policies
validate_policies-parts c name p ps h = elim (Result-cases (validate_policy p)) [
  | inl (e, bad) ↦ absurd (ground arith)
  | inr (_, good) ↦ (good, ground arith)
]

new_namespace-Within :
    (p : NamespacePolicy) → validate_policy p ≡ ok tt → Within (new_namespace p) 0
unfolding new_namespace lookup
new_namespace-Within p valid = record {
  tidy = new_namespace-Tidy p;
  few = omega arith;
  small = omega arith;
  below_word = validate_policy-bound p valid;
  stamped = λ s key h. absurd cc;
}

fresh-absent :
    (name : Text) (ps : List (Text × NamespacePolicy))
    → lookup name ps ≡ none
    → lookup name (fresh_namespaces ps) ≡ none
unfolding lookup
fresh-absent name [] h = refl
fresh-absent name ((other, p) ∷ ps) h = ground (arith, fresh-absent name ps)

fresh-Distinct : (ps : List (Text × NamespacePolicy)) → Distinct ps → Distinct (fresh_namespaces ps)
fresh-Distinct [] d = Distinct.nil
fresh-Distinct ((name, p) ∷ ps) (Distinct.cons fresh d) =
    Distinct.cons (fresh-absent name ps fresh) (fresh-Distinct ps d)

fresh-Within :
    (c : CacheConfig) (ps : List (Text × NamespacePolicy)) (name : Text) (ns : Namespace)
    → validate_policies c ps ≡ ok tt
    → lookup name (fresh_namespaces ps) ≡ some ns
    → Within ns 0
unfolding lookup
fresh-Within c [] name ns h found = absurd cc
fresh-Within c ((other, p) ∷ ps) name ns h found =
    let (valid, rest) = validate_policies-parts c other p ps h in
    elim (Bool-cases (text_eq other name)) [
      | inl same ↦
          let is : new_namespace p ≡ ns = ground arith in
          subst (λ n. Within n 0) is (new_namespace-Within p valid)
      | inr apart ↦ fresh-Within c ps name ns rest (ground arith)
    ]

fresh-total :
    (ps : List (Text × NamespacePolicy))
    → (entries_of (fresh_namespaces ps) ≡ 0) × (bytes_of (fresh_namespaces ps) ≡ 0)
unfolding total new_namespace
fresh-total [] = (refl, refl)
fresh-total ((name, p) ∷ ps) = (omega (arith, fresh-total ps), omega (arith, fresh-total ps))

pub validate_config-parts :
    (c : CacheConfig)
    → is_empty c.namespaces ≡ false
    → validate_config c ≡ ok tt
    → (validate_policies c c.namespaces ≡ ok tt)
      × (c.max_total_entries + 1 < word)
      × (c.max_total_bytes + 1 < word)
unfolding validate_config
validate_config-parts c some_namespace h = ground arith

fresh_state-Sound :
    (c : CacheConfig)
    → Distinct c.namespaces
    → (validate_policies c c.namespaces ≡ ok tt)
      × (c.max_total_entries + 1 < word)
      × (c.max_total_bytes + 1 < word)
    → Sound (fresh_state c)
fresh_state-Sound c d (valid, few, small) = record {
  distinct = fresh-Distinct c.namespaces d;
  within = λ name ns found. fresh-Within c c.namespaces name ns valid found;
  entries_exact = sym (fresh-total c.namespaces).0;
  bytes_exact = sym (fresh-total c.namespaces).1;
  entries_bound = omega arith;
  bytes_bound = omega arith;
  below_word = (few, small);
}

-- For a configuration with a namespace and with distinct names, the state that `Cache::new` answers
-- with is within the invariant.
pub new-Sound :
    (c : CacheConfig) (cache : Cache)
    → Distinct c.namespaces
    → is_empty c.namespaces ≡ false
    → new c ≡ ok cache
    → Sound cache
unfolding new
new-Sound c cache d some_namespace h = elim (Result-cases (validate_config c)) [
  | inl (e, bad) ↦ absurd (ground arith)
  | inr (_, good) ↦
      let is : fresh_state c ≡ cache = ground arith in
      subst Sound is (fresh_state-Sound c d (validate_config-parts c some_namespace good))
]
