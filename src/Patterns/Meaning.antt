-- ===== src/Patterns/Meaning.antt =====
-- What the paths of crates/krit/src/patterns.rs mean: the values that a path matches, the types of
-- subjects, and when a set of paths leaves no value out.
use krit.Base.{◌≡◌, refl, Bool, true, false, ◌&&◌, ◌||◌, [], ◌∷◌, ◌++◌, ◌==◌, is_empty, arith}
use krit.Diagnostic.{Constructor, Family}
use krit.Patterns.{VariantName, ConstructorPath, from_variant, family, rank, is_prefix}
use krit.Value.{Value, bare, variant, nil, cons}

-- A path matches the values whose own constructors start with it.
unfoldable pub matches : ConstructorPath → Value → Bool
unfolding rank from_variant
matches [] v = true
matches (c ∷ p) (variant name payload d) = rank (from_variant name) == rank c && matches p payload
matches (c ∷ p) (bare name) = rank (from_variant name) == rank c && is_empty p
matches (c ∷ p) (Value.list nil d) = rank Constructor.empty == rank c && is_empty p
matches (c ∷ p) (Value.list (cons v vs) d) = rank Constructor.cons == rank c && is_empty p
matches (c ∷ p) _ = false

-- The part of a type that patterns can see.
pub data Ty : Type 0 where
  option : Ty → Ty
  result : Ty → Ty → Ty
  list : Ty → Ty
  other : Ty

abbrev pub Fits : Ty → Value → Type 0
Fits (Ty.option t) (variant VariantName.some payload d) = Fits t payload
Fits (Ty.option t) (bare VariantName.none) = Unit
Fits (Ty.result t e) (variant VariantName.ok payload d) = Fits t payload
Fits (Ty.result t e) (variant VariantName.err payload d) = Fits e payload
Fits (Ty.list t) (Value.list vs d) = Unit
Fits Ty.other v = Unit
Fits _ _ = ⊥

-- The paths that patterns over a subject of the type can have.
abbrev pub Typed : Ty → ConstructorPath → Type 0
Typed t [] = Unit
Typed (Ty.option t) (Constructor.some ∷ p) = Typed t p
Typed (Ty.option t) (Constructor.none ∷ []) = Unit
Typed (Ty.result t e) (Constructor.ok ∷ p) = Typed t p
Typed (Ty.result t e) (Constructor.err ∷ p) = Typed e p
Typed (Ty.list t) (Constructor.empty ∷ []) = Unit
Typed (Ty.list t) (Constructor.cons ∷ []) = Unit
Typed _ _ = ⊥

-- Two paths that match one value: one of them is a prefix of the other.
pub comparable :
    (v : Value) (p q : ConstructorPath)
    → matches p v ≡ true
    → matches q v ≡ true
    → (is_prefix p q || is_prefix q p) ≡ true
unfolding matches is_prefix
comparable v [] q h k = refl
comparable v (c ∷ p) [] h k = refl
comparable (variant name payload d) (c ∷ p) (e ∷ q) h k = ground (arith, comparable payload p q)
comparable (bare name) (c ∷ []) (e ∷ []) h k = ground arith
comparable (bare name) (c ∷ x ∷ p) (e ∷ q) h k = ground arith
comparable (bare name) (c ∷ []) (e ∷ y ∷ q) h k = ground arith
comparable (Value.list nil d) (c ∷ []) (e ∷ []) h k = ground arith
comparable (Value.list nil d) (c ∷ x ∷ p) (e ∷ q) h k = ground arith
comparable (Value.list nil d) (c ∷ []) (e ∷ y ∷ q) h k = ground arith
comparable (Value.list (cons v vs) d) (c ∷ []) (e ∷ []) h k = ground arith
comparable (Value.list (cons v vs) d) (c ∷ x ∷ p) (e ∷ q) h k = ground arith
comparable (Value.list (cons v vs) d) (c ∷ []) (e ∷ y ∷ q) h k = ground arith
comparable _ (c ∷ p) (e ∷ q) h k = cc

-- A set of paths is complete when, wherever some path goes on, each constructor of one family that
-- goes on there does so on some path.
abbrev pub GoesOn : (ConstructorPath → Type 0) → ConstructorPath → Constructor → Type 0
GoesOn S q c = (r : ConstructorPath) × S (q ++ c ∷ r)

pub record Covers (S : ConstructorPath → Type 0) (q : ConstructorPath) : Type 0 where
  pub shared : Family
  pub sample : Constructor
  pub sample_family : family sample ≡ shared
  pub sample_goes : GoesOn S q sample
  pub each : (d : Constructor) → family d ≡ shared → GoesOn S q d

abbrev pub Complete : (ConstructorPath → Type 0) → Type 0
Complete S = (q : ConstructorPath) (c : Constructor) → GoesOn S q c → Covers S q

pub below :
    (S : ConstructorPath → Type 0) (d : Constructor) → Complete S → Complete (λ p. S (d ∷ p))
below S d complete q c goes =
    let k = complete (d ∷ q) c goes in
    record {
      shared = k.shared;
      sample = k.sample;
      sample_family = k.sample_family;
      sample_goes = k.sample_goes;
      each = k.each;
    }
