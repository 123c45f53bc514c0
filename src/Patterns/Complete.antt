-- ===== src/Patterns/Complete.antt =====
-- crates/krit/src/patterns.rs: if `missing` answers with no path, the paths leave no value out.
use krit.Base.{◌≡◌, refl, ◌≢◌, Option, List, [], ◌∷◌, ◌++◌, inl, inr, arith, Bool-cases}
use krit.Diagnostic.{Constructor, Family}
use krit.Patterns.{ConstructorPath, constructors_of, family, path_eq, contains, get}
use krit.Patterns.Check.{continued, prefixes, absent, candidates, insert_sorted, sort, missing}
use krit.Patterns.Meaning.{Complete}
use krit.Patterns.Missing.{
  Among, Justified, path_eq-eq, path_eq_self, continued-goes, get-prefixes, add_families-Justified,
}

prefixes-Justified :
    (all paths : List ConstructorPath) (m : List (ConstructorPath × Family))
    → ((p : ConstructorPath) → Among paths p → Among all p)
    → Justified all m
    → Justified all (prefixes paths m)
unfolding prefixes contains
prefixes-Justified all [] m sub j = j
prefixes-Justified all (p ∷ paths) m sub j =
    prefixes-Justified all paths _ (λ q h. sub q (ground arith))
      (add_families-Justified all [] p m (sub p (ground (arith, path_eq_self p))) j)

insert_sorted-ne : (p : ConstructorPath) (qs : List ConstructorPath) → insert_sorted p qs ≢ []
unfolding insert_sorted
insert_sorted-ne p [] = cc
insert_sorted-ne p (q ∷ qs) = ground arith

sort-eq-nil : (ps : List ConstructorPath) → sort ps ≡ [] → ps ≡ []
unfolding sort
sort-eq-nil [] h = refl
sort-eq-nil (p ∷ ps) h = absurd (insert_sorted-ne p (sort ps) h)

append-eq-nil : (xs ys : List ConstructorPath) → xs ++ ys ≡ [] → (xs ≡ []) × (ys ≡ [])
append-eq-nil [] ys h = (refl, h)
append-eq-nil (x ∷ xs) ys h = cc

-- Where a family has no absent constructor, each of its constructors is continued.
absent-eq-nil :
    (seen : List ConstructorPath) (q : ConstructorPath) (f : Family) (d : Constructor)
    → family d ≡ f
    → absent seen q (constructors_of f) ≡ []
    → Among seen (q ++ d ∷ [])
unfolding absent constructors_of family
absent-eq-nil seen q Family.option Constructor.some e h = ground arith
absent-eq-nil seen q Family.option Constructor.none e h = ground arith
absent-eq-nil seen q Family.result Constructor.ok e h = ground arith
absent-eq-nil seen q Family.result Constructor.err e h = ground arith
absent-eq-nil seen q Family.list Constructor.empty e h = ground arith
absent-eq-nil seen q Family.list Constructor.cons e h = ground arith
absent-eq-nil seen q _ d e h = absurd (ground arith)

candidates-eq-nil :
    (seen : List ConstructorPath) (m : List (ConstructorPath × Family)) (q : ConstructorPath)
    (f : Family) (d : Constructor)
    → candidates seen m ≡ []
    → get q m ≡ Option.some f
    → family d ≡ f
    → Among seen (q ++ d ∷ [])
unfolding candidates get
candidates-eq-nil seen [] q f d h g e = cc
candidates-eq-nil seen ((x, y) ∷ m) q f d h g e =
    let (none_here, none_later) = append-eq-nil (absent seen x (constructors_of y)) _ h in
    elim (Bool-cases (path_eq q x)) [
      | inl same ↦ rw (path_eq-eq q x same) (absent-eq-nil seen x y d (ground arith) none_here)
      | inr apart ↦ candidates-eq-nil seen m q f d none_later (ground arith) e
    ]

get_nil : (q : ConstructorPath) (f : Family) → get q [] ≢ Option.some f
unfolding get
get_nil q f e = cc

-- If `missing` answers with no path, then wherever a path goes on, every constructor of the family
-- at that place goes on too.
pub Complete_of_missing :
    (paths : List ConstructorPath) → missing paths ≡ [] → Complete (Among paths)
unfolding missing
Complete_of_missing paths h q c (r, s) =
    let none_absent : candidates (continued paths) (prefixes paths []) ≡ [] = sort-eq-nil _ h in
    let (f, entry) = get-prefixes paths [] q r c s in
    let (sample, its_family, goes) =
      prefixes-Justified paths paths [] (λ p k. k) (λ x y e. absurd (get_nil x y e)) q f entry in
    record {
      shared = f;
      sample = sample;
      sample_family = its_family;
      sample_goes = goes;
      each = λ d e.
          continued-goes paths q d
            (candidates-eq-nil (continued paths) (prefixes paths []) q f d none_absent entry e);
    }
