-- ===== src/Patterns/Cover.antt =====
-- A complete set of typed paths matches every value of the type: the idea behind `missing` in
-- crates/krit/src/patterns.rs.
use krit.Base.{◌≡◌, refl, sym, ◌∙◌, true, [], ◌∷◌}
use krit.Diagnostic.{Constructor, Family}
use krit.Patterns.{VariantName, ConstructorPath, family, rank, from_variant}
use krit.Patterns.Meaning.{matches, Ty, Fits, Typed, GoesOn, Complete, below}
use krit.Value.{Value, list, bare, variant, nil, cons}

-- A path that matches the value, from the set.
abbrev pub Matched : (ConstructorPath → Type 0) → Value → Type 0
Matched S v = (p : ConstructorPath) × S p × (matches p v ≡ true)

Typed-option :
    (t : Ty) (c : Constructor) (r : ConstructorPath)
    → Typed (Ty.option t) (c ∷ r)
    → family c ≡ Family.option
unfolding family
Typed-option t Constructor.some r h = refl
Typed-option t Constructor.none r h = refl
Typed-option t Constructor.ok r h = absurd h
Typed-option t Constructor.err r h = absurd h
Typed-option t Constructor.empty r h = absurd h
Typed-option t Constructor.cons r h = absurd h

Typed-result :
    (t e : Ty) (c : Constructor) (r : ConstructorPath)
    → Typed (Ty.result t e) (c ∷ r)
    → family c ≡ Family.result
unfolding family
Typed-result t e Constructor.some r h = absurd h
Typed-result t e Constructor.none r h = absurd h
Typed-result t e Constructor.ok r h = refl
Typed-result t e Constructor.err r h = refl
Typed-result t e Constructor.empty r h = absurd h
Typed-result t e Constructor.cons r h = absurd h

Typed-list :
    (t : Ty) (c : Constructor) (r : ConstructorPath)
    → Typed (Ty.list t) (c ∷ r)
    → family c ≡ Family.list
unfolding family
Typed-list t Constructor.some r h = absurd h
Typed-list t Constructor.none r h = absurd h
Typed-list t Constructor.ok r h = absurd h
Typed-list t Constructor.err r h = absurd h
Typed-list t Constructor.empty r h = refl
Typed-list t Constructor.cons r h = refl

-- The family that goes on at the front, and so each of its constructors.
front :
    (S : ConstructorPath → Type 0) (f : Family)
    → Complete S
    → ((c : Constructor) (r : ConstructorPath) → S (c ∷ r) → family c ≡ f)
    → (c : Constructor) (r : ConstructorPath) → S (c ∷ r)
    → (d : Constructor) → family d ≡ f
    → GoesOn S [] d
front S f complete same c r s d e =
    let k = complete [] c (r, s) in
    k.each d (e ∙ sym (same k.sample k.sample_goes.0 k.sample_goes.1) ∙ k.sample_family)

ends_none : (t : Ty) (r : ConstructorPath) → Typed (Ty.option t) (Constructor.none ∷ r) → r ≡ []
ends_none t [] h = refl
ends_none t (c ∷ r) h = absurd h

ends_empty : (t : Ty) (r : ConstructorPath) → Typed (Ty.list t) (Constructor.empty ∷ r) → r ≡ []
ends_empty t [] h = refl
ends_empty t (c ∷ r) h = absurd h

ends_cons : (t : Ty) (r : ConstructorPath) → Typed (Ty.list t) (Constructor.cons ∷ r) → r ≡ []
ends_cons t [] h = refl
ends_cons t (c ∷ r) h = absurd h

-- Every value of the type is matched by a path of a complete set that is not empty.
pub cover :
    (t : Ty) (v : Value) (S : ConstructorPath → Type 0)
    → Complete S
    → ((p : ConstructorPath) → S p → Typed t p)
    → Fits t v
    → (p : ConstructorPath) → S p
    → Matched S v
unfolding matches rank from_variant family
cover t v S complete typed fits [] s = ([], s, refl)
cover (Ty.option t) (variant VariantName.some payload d) S complete typed fits (c ∷ r) s =
    let next =
      front S Family.option complete (λ x y z. Typed-option t x y (typed (x ∷ y) z)) c r s
        Constructor.some refl in
    let (p, sp, m) =
      cover t payload (λ p. S (Constructor.some ∷ p)) (below S Constructor.some complete)
        (λ p z. typed (Constructor.some ∷ p) z) fits next.0 next.1 in
    (Constructor.some ∷ p, sp, m)
cover (Ty.option t) (bare VariantName.none) S complete typed fits (c ∷ r) s =
    let next =
      front S Family.option complete (λ x y z. Typed-option t x y (typed (x ∷ y) z)) c r s
        Constructor.none refl in
    (
      Constructor.none ∷ next.0,
      next.1,
      rw (ends_none t next.0 (typed (Constructor.none ∷ next.0) next.1)),
    )
cover (Ty.result t e) (variant VariantName.ok payload d) S complete typed fits (c ∷ r) s =
    let next =
      front S Family.result complete (λ x y z. Typed-result t e x y (typed (x ∷ y) z)) c r s
        Constructor.ok refl in
    let (p, sp, m) =
      cover t payload (λ p. S (Constructor.ok ∷ p)) (below S Constructor.ok complete)
        (λ p z. typed (Constructor.ok ∷ p) z) fits next.0 next.1 in
    (Constructor.ok ∷ p, sp, m)
cover (Ty.result t e) (variant VariantName.err payload d) S complete typed fits (c ∷ r) s =
    let next =
      front S Family.result complete (λ x y z. Typed-result t e x y (typed (x ∷ y) z)) c r s
        Constructor.err refl in
    let (p, sp, m) =
      cover e payload (λ p. S (Constructor.err ∷ p)) (below S Constructor.err complete)
        (λ p z. typed (Constructor.err ∷ p) z) fits next.0 next.1 in
    (Constructor.err ∷ p, sp, m)
cover (Ty.list t) (list nil d) S complete typed fits (c ∷ r) s =
    let next =
      front S Family.list complete (λ x y z. Typed-list t x y (typed (x ∷ y) z)) c r s
        Constructor.empty refl in
    (
      Constructor.empty ∷ next.0,
      next.1,
      rw (ends_empty t next.0 (typed (Constructor.empty ∷ next.0) next.1)),
    )
cover (Ty.list t) (list (cons w ws) d) S complete typed fits (c ∷ r) s =
    let next =
      front S Family.list complete (λ x y z. Typed-list t x y (typed (x ∷ y) z)) c r s
        Constructor.cons refl in
    (
      Constructor.cons ∷ next.0,
      next.1,
      rw (ends_cons t next.0 (typed (Constructor.cons ∷ next.0) next.1)),
    )
cover Ty.other v S complete typed fits (c ∷ r) s = absurd (typed (c ∷ r) s)
cover _ v S complete typed fits (c ∷ r) s = absurd fits
