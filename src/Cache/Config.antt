-- ===== src/Cache/Config.antt =====
-- crates/krit-cache/src/config.rs and error.rs: the bounds, the policy of a namespace, and the
-- validation of a configuration.
use krit.Base.{
  ◌≡◌, ◌⊎◌, refl, inl, inr, ℕ, ◌+◌, ◌*◌, ◌^◌, Bool, ◌||◌, Option, none, some, List, [], ◌∷◌, ltb,
  ◌==◌, if◌then◌else◌, length, ◌-◌, min, is_empty,
}
use krit.Base.Int.{ℤ, pos, ltb_ℤ}
use krit.Cache.Text.{Text}

-- The kinds of a cache error, with a constructor for each message.
pub data CacheError : Type 0 where
  not_configured read_only : CacheError
  empty_key key_too_long control_in_key value_too_long ttl_out_of_bounds deadline_overflow :
      CacheError
  namespace_full cache_full : CacheError
  limits_out_of_bounds limits_overflow budget_below_one_entry : CacheError
  too_many_namespaces totals_out_of_bounds namespace_above_total : CacheError

pub data CacheErrorKind : Type 0 where
  namespace limit unavailable : CacheErrorKind

unfoldable pub kind : CacheError → CacheErrorKind
kind not_configured = namespace
kind read_only = namespace
kind _ = limit

pub data CacheResult (A : Type 0) : Type 0 where
  ok : A → CacheResult A
  err : CacheError → CacheResult A

pub Result-cases :
    {A : Type 0} (r : CacheResult A) → ((e : CacheError) × (r ≡ err e)) ⊎ ((a : A) × (r ≡ ok a))
Result-cases (ok a) = inr (a, refl)
Result-cases (err e) = inl (e, refl)

infixl 5 ◌>>=◌ ◌>>◌
abbrev pub ◌>>=◌ : {A B : Type 0} → CacheResult A → (A → CacheResult B) → CacheResult B
ok a >>= f = f a
err e >>= f = err e

abbrev pub ◌>>◌ : {B : Type 0} → CacheResult (Unit {0}) → CacheResult B → CacheResult B
m >> k = m >>= λ _. k

abbrev pub max_namespaces : ℕ
max_namespaces = 16

abbrev pub max_entries_per_namespace : ℕ
max_entries_per_namespace = 4096

abbrev pub max_total_entries_bound : ℕ
max_total_entries_bound = 16_384

abbrev pub max_key_bytes_bound : ℕ
max_key_bytes_bound = 512

abbrev pub max_value_bytes_bound : ℕ
max_value_bytes_bound = 64 * 1024

abbrev pub max_namespace_bytes : ℕ
max_namespace_bytes = 8 * 1024 * 1024

abbrev pub max_total_bytes_bound : ℕ
max_total_bytes_bound = 64 * 1024 * 1024

abbrev pub entry_overhead_bytes : ℕ
entry_overhead_bytes = 64

abbrev pub word : ℕ
word = 2 ^ 64

abbrev pub min_ttl_seconds : ℤ
min_ttl_seconds = pos 1

abbrev pub max_ttl_seconds_bound : ℤ
max_ttl_seconds_bound = pos (7 * 24 * 60 * 60)

pub data NamespaceMode : Type 0 where
  only_read read_write : NamespaceMode

pub record NamespacePolicy : Type 0 where
  pub mode : NamespaceMode
  pub max_entries : ℕ
  pub max_bytes : ℕ
  pub max_key_bytes : ℕ
  pub max_value_bytes : ℕ
  pub max_ttl_seconds : ℤ

-- `usize::checked_add` and `u64::checked_mul`
unfoldable pub checked_add : ℕ → ℕ → Option ℕ
checked_add a b = if ltb (a + b) word then some (a + b) else none

unfoldable pub checked_mul : ℕ → ℕ → Option ℕ
checked_mul a b = if ltb (a * b) word then some (a * b) else none

-- `saturating_add`
unfoldable pub saturating_add : ℕ → ℕ → ℕ
saturating_add a b = min (a + b) (word - 1)

abbrev and_then : Option ℕ → (ℕ → Option ℕ) → Option ℕ
and_then none f = none
and_then (some a) f = f a

unfoldable pub largest_entry : NamespacePolicy → Option ℕ
unfolding checked_add
largest_entry p =
    and_then (checked_add p.max_key_bytes p.max_value_bytes)
      λ bytes. checked_add bytes entry_overhead_bytes

abbrev outside : ℕ → ℕ → Bool
outside n bound = n == 0 || ltb bound n

abbrev limits_are_out : NamespacePolicy → Bool
limits_are_out p =
    outside p.max_entries max_entries_per_namespace
    || outside p.max_bytes max_namespace_bytes
    || outside p.max_key_bytes max_key_bytes_bound
    || outside p.max_value_bytes max_value_bytes_bound
    || ltb_ℤ p.max_ttl_seconds min_ttl_seconds
    || ltb_ℤ max_ttl_seconds_bound p.max_ttl_seconds

-- `NamespacePolicy::validate`
unfoldable pub validate_policy : NamespacePolicy → CacheResult (Unit {0})
unfolding largest_entry
validate_policy p = if limits_are_out p then err limits_out_of_bounds else elim (largest_entry p) [
  | none ↦ err limits_overflow
  | some largest ↦ if ltb p.max_bytes largest then err budget_below_one_entry else ok tt
]

pub record CacheConfig : Type 0 where
  pub namespaces : List (Text × NamespacePolicy)
  pub max_total_entries : ℕ
  pub max_total_bytes : ℕ

-- The loop over the policies in `CacheConfig::validate`.
unfoldable pub validate_policies :
    CacheConfig → List (Text × NamespacePolicy) → CacheResult (Unit {0})
unfolding validate_policy
validate_policies c [] = ok tt
validate_policies c ((name, p) ∷ policies) =
    let rest = validate_policies c policies in
    validate_policy p >>= λ _.
    if ltb c.max_total_entries p.max_entries || ltb c.max_total_bytes p.max_bytes
    then err namespace_above_total
    else rest

abbrev totals_are_out : CacheConfig → Bool
totals_are_out c =
    outside c.max_total_entries max_total_entries_bound
    || outside c.max_total_bytes max_total_bytes_bound

-- `CacheConfig::validate`
unfoldable pub validate_config : CacheConfig → CacheResult (Unit {0})
unfolding validate_policies
validate_config c =
    if ltb max_namespaces (length c.namespaces)
    then err too_many_namespaces
    else if is_empty c.namespaces
    then ok tt
    else if totals_are_out c
    then err totals_out_of_bounds
    else validate_policies c c.namespaces
