-- ===== src/Patterns/Apart.antt =====
-- crates/krit/src/patterns.rs: no arm that `check_arms` accepts overlaps another.
use krit.Base.{
  ◌≡◌, refl, ◌∙◌, true, false, Option, List, [], ◌∷◌, ◌++◌, All, inl, inr, arith, ||-eq-false,
  Bool-cases, is_empty, any,
}
use mathlib.Core.List.{append_assoc, append-nil}
use krit.Diagnostic.{Family, Result, ◌>>=◌, >>=-eq-ok, ok_unit}
use krit.Patterns.{Pattern, ConstructorPath, is_catch_all, is_prefix, path, contains}
use krit.Patterns.Check.{
  Seen, check_depths, extending, check_narrower, check_arm, check_each, check_arms, missing,
  paths_of,
}
use krit.Patterns.Missing.{path_eq_self, rank_injective}

-- Neither path is a prefix of the other.
abbrev pub AreApart : ConstructorPath → ConstructorPath → Type 0
AreApart p q = (is_prefix p q ≡ false) × (is_prefix q p ≡ false)

is_prefix-append :
    (p q : ConstructorPath) → is_prefix p q ≡ true → (r : ConstructorPath) × (q ≡ p ++ r)
unfolding is_prefix
is_prefix-append [] q h = (q, refl)
is_prefix-append (c ∷ p) [] h = cc
is_prefix-append (c ∷ p) (d ∷ q) h =
    let (r, e) = is_prefix-append p q (ground arith) in (r, ground (arith, rank_injective c d))

-- No prefix of an accepted path is the path of an earlier arm.
check_depths-none :
    (seen : Seen) (before l r : ConstructorPath)
    → check_depths seen before (l ++ r) ≡ Result.ok tt
    → contains (before ++ l) seen.ends ≡ false
unfolding check_depths
check_depths-none seen before [] [] h = rw (append-nil before) (ground arith)
check_depths-none seen before [] (c ∷ r) h = rw (append-nil before) (ground arith)
check_depths-none seen before (c ∷ l) r h =
    rw (← append_assoc before (c ∷ []) l)
      (check_depths-none seen (before ++ c ∷ []) l r (ground arith))

contains_self :
    (p : ConstructorPath) (xs ys : List ConstructorPath) → contains p (xs ++ p ∷ ys) ≡ true
unfolding contains
contains_self p [] ys = ground (arith, path_eq_self p)
contains_self p (x ∷ xs) ys = ground (arith, contains_self p xs ys)

no_prefix :
    (own : ConstructorPath) (ends : List ConstructorPath)
    → ((l r : ConstructorPath) → own ≡ l ++ r → contains l ends ≡ false)
    → All (λ p. is_prefix p own ≡ false) ends
unfolding contains
no_prefix own [] h = tt
no_prefix own (p ∷ ends) h = (
  elim (Bool-cases (is_prefix p own)) [
    | inl inside ↦
        let (r, e) = is_prefix-append p own inside in
        absurd (ground (arith, h p r e, path_eq_self p))
    | inr apart ↦ apart
  ],
  no_prefix own ends (λ l r e. ground (arith, h l r e)),
)

no_extension :
    (own : ConstructorPath) (ends : List ConstructorPath)
    → extending own ends ≡ []
    → All (λ p. is_prefix own p ≡ false) ends
unfolding extending
no_extension own [] h = tt
no_extension own (p ∷ ends) h = (ground arith, no_extension own ends (ground arith))

check_narrower-none :
    (own : ConstructorPath) (narrower : List ConstructorPath)
    → check_narrower own narrower ≡ Result.ok tt
    → narrower ≡ []
unfolding check_narrower
check_narrower-none own [] h = refl
check_narrower-none own (p ∷ narrower) h =
    elim (Bool-cases (is_empty (extending own (missing (p ∷ narrower))))) [
      | inl covered ↦ absurd (ground arith)
      | inr left_over ↦ absurd (ground arith)
    ]

zip_apart :
    (own : ConstructorPath) (ends : List ConstructorPath)
    → All (λ p. is_prefix p own ≡ false) ends
    → All (λ p. is_prefix own p ≡ false) ends
    → All (λ p. AreApart p own) ends
zip_apart own [] h k = tt
zip_apart own (p ∷ ends) (h, hs) (k, ks) = ((h, k), zip_apart own ends hs ks)

-- An accepted arm overlaps no earlier one, and joins them.
check_arm-apart :
    (seen next : Seen) (own : ConstructorPath)
    → check_arm seen own ≡ Result.ok next
    → All (λ p. AreApart p own) seen.ends × (next.ends ≡ seen.ends ++ own ∷ [])
unfolding check_arm
check_arm-apart seen next own h =
    let (_, depths, h1) = >>=-eq-ok (check_depths seen [] own) _ h in
    let (_, narrow, h2) = >>=-eq-ok (check_narrower own (extending own seen.ends)) _ h1 in
    (
      zip_apart own seen.ends
          (no_prefix own seen.ends
            (λ l r e. check_depths-none seen [] l r (rw (← e) (ok_unit _ depths))))
          (no_extension own seen.ends (check_narrower-none own _ (ok_unit _ narrow))),
      ground arith,
    )

abbrev pub Pairwise : List ConstructorPath → Type 0
Pairwise [] = Unit
Pairwise (p ∷ ps) = All (AreApart p) ps × Pairwise ps

last_of_All {ℓ κ} :
    {A : Type ℓ} (P : A → Type κ) (xs : List A) (a : A) → All P (xs ++ a ∷ []) → All P xs × P a
last_of_All P [] a h = (tt, h.0)
last_of_All P (x ∷ xs) a (h, hs) = let (rest, end) = last_of_All P xs a hs in ((h, rest), end)

split_fresh :
    (ends : List ConstructorPath) (own : ConstructorPath) (ps : List ConstructorPath)
    → All (λ p. All (λ q. AreApart q p) (ends ++ own ∷ [])) ps
    → All (AreApart own) ps × All (λ p. All (λ q. AreApart q p) ends) ps
split_fresh ends own [] h = (tt, tt)
split_fresh ends own (p ∷ ps) (h, hs) =
    let (earlier, new) = last_of_All (λ q. AreApart q p) ends own h in
    let (news, earliers) = split_fresh ends own ps hs in ((new, news), (earlier, earliers))

check_each-named :
    (arm : Pattern) (arms : List Pattern) (seen : Seen)
    → is_catch_all arm ≡ false
    → (path arm >>= λ own. check_arm seen own >>= λ next. check_each arms next)
      ≡ check_each (arm ∷ arms) seen
unfolding check_each
check_each-named arm arms seen h = rw h refl

paths_of-cons :
    (arm : Pattern) (arms : List Pattern) (p : ConstructorPath) (ps : List ConstructorPath)
    → path arm ≡ Result.ok p
    → paths_of arms ≡ Result.ok ps
    → paths_of (arm ∷ arms) ≡ Result.ok (p ∷ ps)
unfolding paths_of
paths_of-cons arm arms p ps e f = rw (e, f) refl

-- The accepted arms have paths, apart from one another and from the earlier ones.
check_each-apart :
    (arms : List Pattern) (seen last : Seen)
    → any is_catch_all arms ≡ false
    → check_each arms seen ≡ Result.ok last
    → (ps : List ConstructorPath) × (paths_of arms ≡ Result.ok ps)
      × Pairwise ps
      × All (λ p. All (λ q. AreApart q p) seen.ends) ps
check_each-apart [] seen last c h = unfold paths_of in ([], refl, tt, tt)
check_each-apart (arm ∷ arms) seen last c h =
    let (named, later) = ||-eq-false (is_catch_all arm) (any is_catch_all arms) c in
    let (p, e1, h1) = >>=-eq-ok (path arm) _ (check_each-named arm arms seen named ∙ h) in
    let (next, e2, h2) = >>=-eq-ok (check_arm seen p) _ h1 in
    let (own_apart, ends_eq) = check_arm-apart seen next p e2 in
    let (ps, e3, apart, fresh) = check_each-apart arms next last later h2 in
    let (new, earlier) = split_fresh seen.ends p ps (rw ends_eq at fresh) in
    (p ∷ ps, paths_of-cons arm arms p ps e1 e3, (new, apart), (own_apart, earlier))

-- The arms that `check_arms` accepts have paths of which none is a prefix of another.
pub check_arms-apart :
    (arms : List Pattern) (subject : Option Family)
    → check_arms arms subject ≡ Result.ok tt
    → (ps : List ConstructorPath) × (paths_of arms ≡ Result.ok ps) × Pairwise ps
unfolding check_arms
check_arms-apart arms subject h =
    let (last, checked, open_arms) =
      >>=-eq-ok (check_each arms (record { ends = []; families = [] })) _ h in
    elim (Bool-cases (any is_catch_all arms)) [
      | inl some_open ↦ absurd (ground arith)
      | inr all_named ↦
          let (ps, e, apart, _) = check_each-apart arms _ last all_named checked in (ps, e, apart)
    ]
