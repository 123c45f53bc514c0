-- ===== src/Evaluator/Arms.antt =====
-- crates/krit/src/patterns.rs: the paths of the arms that analysis accepts.
use krit.Base.{
  ◌≡◌, ◌≢◌, ◌⊎◌, if◌then◌else◌, refl, ap, subst, ◌∙◌, sym, true, false, List, [], ◌∷◌, map, All,
  arith, Bool-cases, inl, inr, is_empty,
}
use krit.Diagnostic.{non_exhaustive, Result, >>=-eq-ok, ok_injective}
use krit.Patterns.{Pattern, ConstructorPath, path, path_eq, contains}
use krit.Patterns.Check.{check_exhaustive, paths_of, missing}
use krit.Patterns.Meaning.{matches, comparable, Ty, Typed}
use krit.Patterns.Missing.{Among, path_eq-eq, path_eq_self}
use krit.Patterns.Apart.{AreApart}
use krit.Value.{Value}

abbrev pub patterns : {E : Type 0} → List (Pattern × E) → List Pattern
patterns = map (λ arm. arm.0)

-- The patterns of the type: what typing the arms against the subject establishes.
abbrev pub TypedPattern : Ty → Pattern → Type 0
TypedPattern t p = (q : ConstructorPath) → path p ≡ Result.ok q → Typed t q

pub apart_silent :
    (v : Value) (r : ConstructorPath) (ps : List ConstructorPath)
    → matches r v ≡ true
    → All (AreApart r) ps
    → All (λ p. matches p v ≡ false) ps
apart_silent v r [] h a = tt
apart_silent v r (p ∷ ps) h (a, as_rest) = (
  elim (Bool-cases (matches p v)) [
    | inl both ↦ absurd (ground (arith, comparable v r p h both, a.0, a.1))
    | inr silent ↦ silent
  ],
  apart_silent v r ps h as_rest,
)

pub paths_of-cons :
    (p : Pattern) (arms : List Pattern) (ps : List ConstructorPath)
    → paths_of (p ∷ arms) ≡ Result.ok ps
    → (q : ConstructorPath) × (qs : List ConstructorPath) × (path p ≡ Result.ok q)
      × (paths_of arms ≡ Result.ok qs)
      × (q ∷ qs ≡ ps)
unfolding paths_of
paths_of-cons p arms ps h =
    let (q, e, h1) = >>=-eq-ok (path p) _ h in
    let (qs, f, h2) = >>=-eq-ok (paths_of arms) _ h1 in (q, qs, e, f, ok_injective h2)

pub no_arm :
    (ps : List ConstructorPath) (q : ConstructorPath) → paths_of [] ≡ Result.ok ps → ¬ Among ps q
unfolding paths_of contains
no_arm [] q h among = cc
no_arm (p ∷ ps) q h among = cc

pub later :
    (v : Value) (q r : ConstructorPath) (rs : List ConstructorPath)
    → Among (r ∷ rs) q
    → matches r v ≡ false
    → matches q v ≡ true
    → Among rs q
unfolding contains
later v q r rs h silent m = ground (arith, path_eq-eq q r)

pub Among-cases :
    (q r : ConstructorPath) (rs : List ConstructorPath) → Among (r ∷ rs) q → (q ≡ r) ⊎ Among rs q
unfolding contains
Among-cases q r rs h = elim (Bool-cases (path_eq q r)) [
  | inl here ↦ inl (path_eq-eq q r here)
  | inr there ↦ inr (ground arith)
]

pub empty_of_ok :
    (found : List ConstructorPath)
    → (if is_empty found then Result.ok (tt {0}) else Result.err (non_exhaustive found))
      ≡ Result.ok tt
    → found ≡ []
empty_of_ok [] h = refl
empty_of_ok (p ∷ found) h = cc

-- What an exhaustive set of arms has found missing: nothing.
pub none_missing :
    (arms : List Pattern) (ps : List ConstructorPath)
    → paths_of arms ≡ Result.ok ps
    → check_exhaustive arms ≡ Result.ok tt
    → missing ps ≡ []
unfolding check_exhaustive
none_missing arms ps e h =
    let (qs, f, g) = >>=-eq-ok (paths_of arms) _ h in
    ap missing (ok_injective (sym e ∙ f)) ∙ empty_of_ok (missing qs) g

pub Typed-Among :
    (t : Ty) (arms : List Pattern) (ps : List ConstructorPath)
    → paths_of arms ≡ Result.ok ps
    → All (TypedPattern t) arms
    → (q : ConstructorPath) → Among ps q
    → Typed t q
Typed-Among t [] ps e ty q among = absurd (no_arm ps q e among)
Typed-Among t (p ∷ arms) ps e (ty, tys) q among =
    let (r, rs, f, g, same) = paths_of-cons p arms ps e in
    elim (Among-cases q r rs (rw (← same) at among)) [
      | inl here ↦ rw here (ty r f)
      | inr there ↦ Typed-Among t arms rs g tys q there
    ]

pub All-patterns :
    {E : Type 0} (t : Ty) (arms : List (Pattern × E))
    → All (λ arm. TypedPattern t arm.0) arms
    → All (TypedPattern t) (patterns arms)
All-patterns t [] h = tt
All-patterns t (arm ∷ arms) (h, hs) = (h, All-patterns t arms hs)

pub first-Among :
    {E : Type 0} (arms : List (Pattern × E)) (ps : List ConstructorPath)
    → arms ≢ []
    → paths_of (patterns arms) ≡ Result.ok ps
    → (q : ConstructorPath) × Among ps q
unfolding contains
first-Among [] ps h e = absurd (h refl)
first-Among ((p, x) ∷ arms) ps h e =
    let (r, rs, f, g, same) = paths_of-cons p (patterns arms) ps e in
    subst (λ l. (q : ConstructorPath) × Among l q) same (r, ground (arith, path_eq_self r))
