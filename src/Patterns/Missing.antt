-- ===== src/Patterns/Missing.antt =====
-- crates/krit/src/patterns.rs: when `missing` finds nothing, the paths are complete.
use krit.Base.{
  ◌≡◌, refl, ap, sym, ◌∙◌, true, ◌||◌, Option, List, [], ◌∷◌, ◌++◌, inl, inr, if◌then◌else◌, arith,
  Bool-cases, Option-cases,
}
use mathlib.Core.List.{append-nil, append_assoc}
use krit.Diagnostic.{Constructor, Family}
use krit.Patterns.{ConstructorPath, family, rank, path_eq, contains, get, or_insert}
use krit.Patterns.Check.{continue_with, continued, add_families, prefixes}
use krit.Patterns.Meaning.{GoesOn}

pub rank_injective : (c d : Constructor) → rank c ≡ rank d → c ≡ d
unfolding rank
rank_injective c d h = ground arith

pub path_eq-eq : (p q : ConstructorPath) → path_eq p q ≡ true → p ≡ q
unfolding path_eq
path_eq-eq [] [] h = refl
path_eq-eq [] (d ∷ q) h = cc
path_eq-eq (c ∷ p) [] h = cc
path_eq-eq (c ∷ p) (d ∷ q) h = ground (arith, rank_injective c d, path_eq-eq p q)

pub path_eq_self : (p : ConstructorPath) → path_eq p p ≡ true
unfolding path_eq
path_eq_self [] = refl
path_eq_self (c ∷ p) = ground (arith, path_eq_self p)

-- Membership, as the set of paths that a list stands for.
abbrev pub Among : List ConstructorPath → ConstructorPath → Type 0
Among paths p = contains p paths ≡ true

pub contains-append :
    (p : ConstructorPath) (xs ys : List ConstructorPath)
    → contains p (xs ++ ys) ≡ (contains p xs || contains p ys)
unfolding contains
contains-append p [] ys = refl
contains-append p (x ∷ xs) ys = ground (arith, contains-append p xs ys)

-- What `continue_with` lists are the prefixes of the path that go beyond `before`.
continue_with-prefix :
    (before p x : ConstructorPath)
    → Among (continue_with before p) x
    → (r : ConstructorPath) × (before ++ p ≡ x ++ r)
unfolding continue_with contains
continue_with-prefix before [] x h = cc
continue_with-prefix before (c ∷ rest) x h = elim (Bool-cases (path_eq x (before ++ c ∷ []))) [
  | inl here ↦ (
    rest,
    sym (append_assoc before (c ∷ []) rest) ∙ ap (λ y. y ++ rest) (sym (path_eq-eq x _ here)),
  )
  | inr later ↦
      let (r, e) = continue_with-prefix (before ++ c ∷ []) rest x (ground arith) in
      (r, sym (append_assoc before (c ∷ []) rest) ∙ e)
]

pub continued-goes :
    (paths : List ConstructorPath) (q : ConstructorPath) (d : Constructor)
    → Among (continued paths) (q ++ d ∷ [])
    → GoesOn (Among paths) q d
unfolding continued contains
continued-goes [] q d h = cc
continued-goes (p ∷ paths) q d h = elim (Bool-cases (contains (q ++ d ∷ []) (continue_with [] p))) [
  | inl here ↦
      let (r, e) = continue_with-prefix [] p (q ++ d ∷ []) here in
      let same : q ++ d ∷ r ≡ p = sym (append_assoc q (d ∷ []) r) ∙ sym e in
      (r, rw (same, path_eq_self p))
  | inr later ↦
      let (r, e) =
        continued-goes paths q d
          (ground (arith, contains-append (q ++ d ∷ []) (continue_with [] p) (continued paths))) in
      (r, ground arith)
]

-- The map of prefixes keeps its first entries.
get-or_insert :
    (q p : ConstructorPath) (f : Family) (m : List (ConstructorPath × Family))
    → get q (or_insert p f m) ≡ elim (get q m) [
      | Option.none ↦ if path_eq q p then Option.some f else Option.none
      | Option.some g ↦ Option.some g
    ]
unfolding get or_insert
get-or_insert q p f [] = ground arith
get-or_insert q p f ((x, g) ∷ m) = ground (arith, get-or_insert q p f m, path_eq-eq p x)

get-or_insert_keep :
    (q p : ConstructorPath) (f : Family) (m : List (ConstructorPath × Family)) {g : Family}
    → get q m ≡ Option.some g
    → get q (or_insert p f m) ≡ Option.some g
get-or_insert_keep q p f m h = ground (arith, get-or_insert q p f m)

get-or_insert_self :
    (p : ConstructorPath) (f : Family) (m : List (ConstructorPath × Family))
    → (g : Family) × (get p (or_insert p f m) ≡ Option.some g)
get-or_insert_self p f m = elim (Option-cases (get p m)) [
  | inl new ↦ (f, ground (arith, get-or_insert p p f m, path_eq_self p))
  | inr (g, old) ↦ (g, ground (arith, get-or_insert p p f m))
]

get-add_families_keep :
    (q before p : ConstructorPath) (m : List (ConstructorPath × Family)) {g : Family}
    → get q m ≡ Option.some g
    → get q (add_families before p m) ≡ Option.some g
unfolding add_families
get-add_families_keep q before [] m h = h
get-add_families_keep q before (c ∷ rest) m h =
    get-add_families_keep q (before ++ c ∷ []) rest (or_insert before (family c) m)
      (get-or_insert_keep q before (family c) m h)

get-prefixes_keep :
    (q : ConstructorPath) (paths : List ConstructorPath) (m : List (ConstructorPath × Family))
    {g : Family}
    → get q m ≡ Option.some g
    → get q (prefixes paths m) ≡ Option.some g
unfolding prefixes
get-prefixes_keep q [] m h = h
get-prefixes_keep q (p ∷ paths) m h =
    get-prefixes_keep q paths (add_families [] p m) (get-add_families_keep q [] p m h)

-- Every proper prefix of a path gets an entry.
get-add_families :
    (before l r : ConstructorPath) (c : Constructor) (m : List (ConstructorPath × Family))
    → (g : Family) × (get (before ++ l) (add_families before (l ++ c ∷ r) m) ≡ Option.some g)
unfolding add_families
get-add_families before [] r c m =
    let (g, e) = get-or_insert_self before (family c) m in
    (
      g,
      rw (append-nil before)
          (get-add_families_keep before (before ++ c ∷ []) r (or_insert before (family c) m) e),
    )
get-add_families before (d ∷ l) r c m =
    let (g, e) = get-add_families (before ++ d ∷ []) l r c (or_insert before (family d) m) in
    (g, rw (append_assoc before (d ∷ []) l) at e)

pub get-prefixes :
    (paths : List ConstructorPath) (m : List (ConstructorPath × Family)) (q r : ConstructorPath)
    (c : Constructor)
    → Among paths (q ++ c ∷ r)
    → (g : Family) × (get q (prefixes paths m) ≡ Option.some g)
unfolding prefixes contains
get-prefixes [] m q r c h = cc
get-prefixes (p ∷ paths) m q r c h = elim (Bool-cases (path_eq (q ++ c ∷ r) p)) [
  | inl here ↦
      let (g, e) = get-add_families [] q r c m in
      (g, get-prefixes_keep q paths (add_families [] p m) (rw (path_eq-eq _ p here) at e))
  | inr later ↦ get-prefixes paths (add_families [] p m) q r c (ground arith)
]

-- Every entry's family is that of a constructor which goes on at its prefix.
abbrev pub Justified : List ConstructorPath → List (ConstructorPath × Family) → Type 0
Justified paths m =
    (q : ConstructorPath) (f : Family)
    → get q m ≡ Option.some f
    → (c : Constructor) × (family c ≡ f) × GoesOn (Among paths) q c

or_insert-Justified :
    (paths : List ConstructorPath) (p r : ConstructorPath) (c : Constructor)
    (m : List (ConstructorPath × Family))
    → Among paths (p ++ c ∷ r)
    → Justified paths m
    → Justified paths (or_insert p (family c) m)
or_insert-Justified paths p r c m h j q f e = elim (Option-cases (get q m)) [
  | inr (g, old) ↦ j q f (ground (arith, get-or_insert q p (family c) m))
  | inl new ↦ elim (Bool-cases (path_eq q p)) [
    | inl same ↦
        (c, ground (arith, get-or_insert q p (family c) m), (r, rw (path_eq-eq q p same) h))
    | inr apart ↦ absurd (ground (arith, get-or_insert q p (family c) m))
  ]
]

pub add_families-Justified :
    (paths : List ConstructorPath) (before rest : ConstructorPath)
    (m : List (ConstructorPath × Family))
    → Among paths (before ++ rest)
    → Justified paths m
    → Justified paths (add_families before rest m)
unfolding add_families
add_families-Justified paths before [] m h j = j
add_families-Justified paths before (c ∷ rest) m h j =
    add_families-Justified paths (before ++ c ∷ []) rest (or_insert before (family c) m)
      (rw (append_assoc before (c ∷ []) rest) h) (or_insert-Justified paths before rest c m h j)
