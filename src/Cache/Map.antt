-- ===== src/Cache/Map.antt =====
-- The maps of crates/krit-cache/src/store.rs, as lists of entries in which no key stands twice.
use krit.Base.{
  ℕ, ◌+◌, ◌≡◌, ◌↔◌, refl, Bool, true, Option, none, some, List, [], ◌∷◌, if◌then◌else◌, arith,
  Bool-cases, inl, inr, length,
}

-- Keys with a test for equality.
pub record Key {ℓ} (K : Type ℓ) : Type ℓ where
  pub beq : K → K → Bool
  pub beq_iff : (a b : K) → (beq a b ≡ true) ↔ (a ≡ b)

module _ {ℓ κ} {K : Type ℓ} {V : Type κ} ⦃key : Key K⦄ where
  unfoldable pub lookup : K → List (K × V) → Option V
  lookup k [] = none
  lookup k ((j, v) ∷ m) = if key.beq j k then some v else lookup k m

  unfoldable pub remove : K → List (K × V) → List (K × V)
  remove k [] = []
  remove k ((j, v) ∷ m) = let rest = remove k m in if key.beq j k then rest else (j, v) ∷ rest

  unfoldable pub insert : K → V → List (K × V) → List (K × V)
  unfolding remove
  insert k v m = (k, v) ∷ remove k m

  abbrev pub IsFresh : K → List (K × V) → Type κ
  IsFresh k m = lookup k m ≡ none

  pub lookup-remove :
      (k j : K) (m : List (K × V))
      → lookup j (remove k m) ≡ (if key.beq k j then none else lookup j m)
  unfolding lookup remove
  lookup-remove k j [] = ground arith
  lookup-remove k j ((i, v) ∷ m) =
      ground (arith, key.beq_iff i k, key.beq_iff i j, key.beq_iff k j, lookup-remove k j m)

  pub lookup-insert :
      (k j : K) (v : V) (m : List (K × V))
      → lookup j (insert k v m) ≡ (if key.beq k j then some v else lookup j m)
  unfolding lookup insert
  lookup-insert k j v m = ground (arith, lookup-remove k j m)

-- No key stands twice.
pub data Distinct {ℓ κ} {K : Type ℓ} {V : Type κ} ⦃key : Key K⦄ : List (K × V) → Type (ℓ ⊔ κ) where
  nil : Distinct []
  cons : {k : K} {v : V} {m : List (K × V)} → lookup k m ≡ none → Distinct m → Distinct ((k, v) ∷ m)

module _ {ℓ κ} {K : Type ℓ} {V : Type κ} ⦃key : Key K⦄ where
  pub remove-fresh : (k : K) (m : List (K × V)) → lookup k m ≡ none → remove k m ≡ m
  unfolding lookup remove
  remove-fresh k [] h = refl
  remove-fresh k ((j, v) ∷ m) h = ground (arith, remove-fresh k m)

  pub remove-Distinct : (k : K) (m : List (K × V)) → Distinct m → Distinct (remove k m)
  unfolding remove
  remove-Distinct k [] d = d
  remove-Distinct k ((j, v) ∷ m) (Distinct.cons fresh d) = elim (Bool-cases (key.beq j k)) [
    | inl same ↦ rw same (remove-Distinct k m d)
    | inr apart ↦
        rw apart (Distinct.cons (ground (arith, lookup-remove k j m)) (remove-Distinct k m d))
  ]

  pub insert-Distinct : (k : K) (v : V) (m : List (K × V)) → Distinct m → Distinct (insert k v m)
  unfolding insert
  insert-Distinct k v m d =
      Distinct.cons (ground (arith, lookup-remove k k m, key.beq_iff k k)) (remove-Distinct k m d)

  -- A sum over the entries.
  unfoldable pub total : (K → V → ℕ) → List (K × V) → ℕ
  total f [] = 0
  total f ((k, v) ∷ m) = f k v + total f m

  pub total-remove :
      (f : K → V → ℕ) (k : K) (v : V) (m : List (K × V))
      → Distinct m
      → lookup k m ≡ some v
      → total f (remove k m) + f k v ≡ total f m
  unfolding total remove lookup
  total-remove f k v [] d h = cc
  total-remove f k v ((j, w) ∷ m) (Distinct.cons fresh d) h = elim (Bool-cases (key.beq j k)) [
    | inl same ↦ ground (arith, key.beq_iff j k, remove-fresh k m)
    | inr apart ↦ rw apart (omega (arith, total-remove f k v m d (rw apart at h)))
  ]

  pub total-insert :
      (f : K → V → ℕ) (k : K) (v : V) (m : List (K × V))
      → total f (insert k v m) ≡ f k v + total f (remove k m)
  unfolding total insert
  total-insert f k v m = refl

  pub length-total : (m : List (K × V)) → length m ≡ total (λ k v. 1) m
  unfolding total
  length-total [] = refl
  length-total (e ∷ m) = omega (arith, length-total m)

  pub length-remove :
      (k : K) (v : V) (m : List (K × V))
      → Distinct m
      → lookup k m ≡ some v
      → length (remove k m) + 1 ≡ length m
  length-remove k v m d h =
      omega (arith, length-total m, length-total (remove k m), total-remove (λ j w. 1) k v m d h)

  -- A map in which nothing is found is empty.
  pub eq-nil_of_lookup : (m : List (K × V)) → ((k : K) → lookup k m ≡ none) → m ≡ []
  unfolding lookup
  eq-nil_of_lookup [] h = refl
  eq-nil_of_lookup ((k, v) ∷ m) h = absurd (ground (arith, h k, key.beq_iff k k))
