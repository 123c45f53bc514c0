-- ===== src/Evaluator/Selection.antt =====
-- crates/krit/src/evaluator.rs and patterns.rs: what analysis accepts, evaluation selects.
use krit.Base.{
  ◌≡◌, ◌≢◌, refl, ap, ◌∙◌, true, false, Option, List, [], ◌∷◌, ◌++◌, All, Bool-cases, inl, inr,
}
use krit.Diagnostic.{Family, Result}
use krit.Patterns.{Pattern, ConstructorPath, path}
use krit.Patterns.Check.{check_arms, check_exhaustive, paths_of}
use krit.Patterns.Meaning.{matches, Ty, Fits, Typed}
use krit.Patterns.Cover.{cover}
use krit.Patterns.Missing.{Among}
use krit.Patterns.Complete.{Complete_of_missing}
use krit.Patterns.Apart.{Pairwise, check_arms-apart}
use krit.Value.{Value}
use krit.Value.Depth.{IsSound}
use krit.Value.{Environment}
use krit.Evaluator.{match_pattern, select_match_arm}
use krit.Evaluator.Arms.{
  apart_silent, paths_of-cons, no_arm, later, none_missing, Typed-Among, All-patterns, first-Among,
  TypedPattern, patterns,
}
use krit.Evaluator.Trying.{Decides, match_pattern-Decides}

misses_of : (m : Result (Option Environment)) → Decides m false → m ≡ Result.ok Option.none
misses_of (Result.ok Option.none) h = refl
misses_of (Result.ok (Option.some bound)) h = cc
misses_of (Result.err e) h = absurd h

hits_of :
    (m : Result (Option Environment))
    → Decides m true
    → (bound : Environment) × (m ≡ Result.ok (Option.some bound))
hits_of (Result.ok Option.none) h = cc
hits_of (Result.ok (Option.some bound)) h = (bound, refl)
hits_of (Result.err e) h = absurd h

module _ {E : Type 0} where
  abbrev pub Misses : Value → Environment → Pattern × E → Type 0
  Misses v env arm = match_pattern arm.0 v env ≡ Result.ok Option.none

  -- Exactly one arm's pattern matches the value, and it is the arm that is selected.
  pub record Selects (v : Value) (env : Environment) (arms : List (Pattern × E)) : Type 0 where
    pub before : List (Pattern × E)
    pub pattern_of_arm : Pattern
    pub expression : E
    pub after : List (Pattern × E)
    pub bound : Environment
    pub arranged : arms ≡ before ++ (pattern_of_arm, expression) ∷ after
    pub hits : match_pattern pattern_of_arm v env ≡ Result.ok (Option.some bound)
    pub misses_before : All (Misses v env) before
    pub misses_after : All (Misses v env) after
    pub selected : select_match_arm v arms env ≡ Result.ok (expression, bound)

  select-hit :
      (v : Value) (env bound : Environment) (p : Pattern) (e : E) (arms : List (Pattern × E))
      → match_pattern p v env ≡ Result.ok (Option.some bound)
      → select_match_arm v ((p, e) ∷ arms) env ≡ Result.ok (e, bound)
  unfolding select_match_arm
  select-hit v env bound p e arms h = rw h refl

  select-miss :
      (v : Value) (env : Environment) (p : Pattern) (e : E) (arms : List (Pattern × E))
      → match_pattern p v env ≡ Result.ok Option.none
      → select_match_arm v ((p, e) ∷ arms) env ≡ select_match_arm v arms env
  unfolding select_match_arm
  select-miss v env p e arms h = rw h refl

module _ (t : Ty) (v : Value) (env : Environment) (fits : Fits t v) (sound : IsSound v) where
  miss :
      (p : Pattern) (q : ConstructorPath)
      → path p ≡ Result.ok q
      → Typed t q
      → matches q v ≡ false
      → match_pattern p v env ≡ Result.ok Option.none
  miss p q e ty silent =
      misses_of _ (rw silent at (match_pattern-Decides p q t env e ty v fits sound))

  hit :
      (p : Pattern) (q : ConstructorPath)
      → path p ≡ Result.ok q
      → Typed t q
      → matches q v ≡ true
      → (bound : Environment) × (match_pattern p v env ≡ Result.ok (Option.some bound))
  hit p q e ty both = hits_of _ (rw both at (match_pattern-Decides p q t env e ty v fits sound))

  All-miss :
      {E : Type 0} (arms : List (Pattern × E)) (ps : List ConstructorPath)
      → paths_of (patterns arms) ≡ Result.ok ps
      → All (λ arm. TypedPattern t arm.0) arms
      → All (λ p. matches p v ≡ false) ps
      → All (Misses v env) arms
  All-miss [] ps h ty silent = tt
  All-miss ((p, e) ∷ arms) ps h (ty, tys) silent =
      let (q, qs, f, g, same) = paths_of-cons p (patterns arms) ps h in
      let (here, rest) = rw (← same) at silent in
      (miss p q f (ty q f) here, All-miss arms qs g tys rest)

  selects :
      {E : Type 0} (arms : List (Pattern × E)) (ps : List ConstructorPath) (q : ConstructorPath)
      → paths_of (patterns arms) ≡ Result.ok ps
      → All (λ arm. TypedPattern t arm.0) arms
      → Pairwise ps
      → Among ps q
      → matches q v ≡ true
      → Selects v env arms
  selects [] ps q h ty apart among m = absurd (no_arm ps q h among)
  selects ((p, e) ∷ arms) ps q h (ty, tys) apart among m =
      let (r, rs, f, g, same) = paths_of-cons p (patterns arms) ps h in
      let (apart_here, apart_rest) = rw (← same) at apart in
      elim (Bool-cases (matches r v)) [
        | inl here ↦
            let (bound, hits) = hit p r f (ty r f) here in
            record {
              before = [];
              pattern_of_arm = p;
              expression = e;
              after = arms;
              bound = bound;
              arranged = refl;
              hits = hits;
              misses_before = tt;
              misses_after = All-miss arms rs g tys (apart_silent v r rs here apart_here);
              selected = select-hit v env bound p e arms hits;
            }
        | inr silent ↦
            let missed = miss p r f (ty r f) silent in
            let rest =
              selects arms rs q g tys apart_rest (later v q r rs (rw (← same) at among) silent m)
                m in
            record {
              before = (p, e) ∷ rest.before;
              pattern_of_arm = rest.pattern_of_arm;
              expression = rest.expression;
              after = rest.after;
              bound = rest.bound;
              arranged = ap (λ l. (p, e) ∷ l) rest.arranged;
              hits = rest.hits;
              misses_before = (missed, rest.misses_before);
              misses_after = rest.misses_after;
              selected = select-miss v env p e arms missed ∙ rest.selected;
            }
      ]

-- If analysis accepts the arms of a `match`, of which there is one at least (the arms stand together,
-- and name every outcome), and types their patterns against the subject, then on each sound value of
-- the subject's type exactly one arm's pattern matches, and the evaluator selects that arm with the
-- pattern's bindings.
pub select_match_arm-Selects :
    {E : Type 0} (arms : List (Pattern × E)) (subject : Option Family) (t : Ty) (v : Value)
    (env : Environment)
    → check_arms (patterns arms) subject ≡ Result.ok tt
    → check_exhaustive (patterns arms) ≡ Result.ok tt
    → arms ≢ []
    → All (λ arm. TypedPattern t arm.0) arms
    → Fits t v
    → IsSound v
    → Selects v env arms
select_match_arm-Selects arms subject t v env accepted exhaustive some_arm ty fits sound =
    let (ps, e, apart) = check_arms-apart (patterns arms) subject accepted in
    let (p, among) = first-Among arms ps some_arm e in
    let (q, q_among, m) =
      cover t v (Among ps) (Complete_of_missing ps (none_missing (patterns arms) ps e exhaustive))
        (Typed-Among t (patterns arms) ps e (All-patterns t arms ty)) fits p among in
    selects t v env fits sound arms ps q e ty apart q_among m
