-- ===== src/Patterns/Check.antt =====
-- crates/krit/src/patterns.rs: `missing`, `check_arms` and `check_exhaustive`.
use krit.Base.{Option, List, [], ◌∷◌, ◌++◌, map, ◌==◌, if◌then◌else◌, any, is_empty}
use krit.Diagnostic.{
  Constructor, Family, Result, ◌>>=◌, duplicate_arm, unreachable_arm, covered_arm, mixed_families,
  overlapping_arms, catch_all_arm, non_exhaustive,
}
use krit.Patterns.{
  Pattern, ConstructorPath, is_catch_all, constructors_of, family, family_rank, is_prefix, path_lt,
  path, contains, get, or_insert,
}

-- The rounds `for length in 0..path.len()` of `missing`, from the prefix `before`: what a path adds
-- to `continued` and to `prefixes`.
unfoldable pub continue_with : ConstructorPath → ConstructorPath → List ConstructorPath
continue_with before [] = []
continue_with before (c ∷ rest) = (before ++ c ∷ []) ∷ continue_with (before ++ c ∷ []) rest

unfoldable pub continued : List ConstructorPath → List ConstructorPath
unfolding continue_with
continued [] = []
continued (p ∷ paths) = continue_with [] p ++ continued paths

unfoldable pub add_families :
    ConstructorPath
    → ConstructorPath
    → List (ConstructorPath × Family)
    → List (ConstructorPath × Family)
unfolding family or_insert
add_families before [] m = m
add_families before (c ∷ rest) m =
    add_families (before ++ c ∷ []) rest (or_insert before (family c) m)

unfoldable pub prefixes :
    List ConstructorPath → List (ConstructorPath × Family) → List (ConstructorPath × Family)
unfolding add_families
prefixes [] m = m
prefixes (p ∷ paths) m = prefixes paths (add_families [] p m)

-- The constructors of one family that continue no path.
unfoldable pub absent :
    List ConstructorPath → ConstructorPath → List Constructor → List ConstructorPath
unfolding contains
absent seen before [] = []
absent seen before (c ∷ cs) =
    if contains (before ++ c ∷ []) seen
    then absent seen before cs
    else (before ++ c ∷ []) ∷ absent seen before cs

unfoldable pub candidates :
    List ConstructorPath → List (ConstructorPath × Family) → List ConstructorPath
unfolding absent constructors_of
candidates seen [] = []
candidates seen ((before, f) ∷ m) = absent seen before (constructors_of f) ++ candidates seen m

unfoldable pub insert_sorted : ConstructorPath → List ConstructorPath → List ConstructorPath
unfolding path_lt
insert_sorted p [] = p ∷ []
insert_sorted p (q ∷ qs) = if path_lt q p then q ∷ insert_sorted p qs else p ∷ q ∷ qs

unfoldable pub sort : List ConstructorPath → List ConstructorPath
unfolding insert_sorted
sort [] = []
sort (p ∷ ps) = insert_sorted p (sort ps)

unfoldable pub missing : List ConstructorPath → List ConstructorPath
unfolding continued prefixes candidates sort
missing paths = sort (candidates (continued paths) (prefixes paths []))

-- `ends` and `families` of `check_arms`; the entries of `ends` stand in the order of their arms.
pub record Seen : Type 0 where
  pub ends : List ConstructorPath
  pub families : List (ConstructorPath × Family)

unfoldable pub families_agree : Option Family → Constructor → Result (Unit {0})
unfolding family family_rank
families_agree Option.none c = Result.ok tt
families_agree (Option.some f) c =
    if family_rank f == family_rank (family c)
    then Result.ok tt
    else Result.err (mixed_families f (family c))

-- The loop `for depth in 0..=own.len()`, at the prefix `before` and with `rest` still ahead.
unfoldable pub check_depths : Seen → ConstructorPath → ConstructorPath → Result (Unit {0})
unfolding contains get families_agree
check_depths seen before [] =
    if contains before seen.ends then Result.err duplicate_arm else Result.ok tt
check_depths seen before (c ∷ rest) =
    let deeper = families_agree (get before seen.families) c >>= λ _.
    check_depths seen (before ++ c ∷ []) rest in
    if contains before seen.ends then Result.err unreachable_arm else deeper

unfoldable pub extending : ConstructorPath → List ConstructorPath → List ConstructorPath
unfolding is_prefix
extending own [] = []
extending own (p ∷ paths) = if is_prefix own p then p ∷ extending own paths else extending own paths

-- The arms before this one that are more specific.
unfoldable pub check_narrower : ConstructorPath → List ConstructorPath → Result (Unit {0})
unfolding missing extending
check_narrower own [] = Result.ok tt
check_narrower own (p ∷ narrower) =
    let remainder = extending own (missing (p ∷ narrower)) in
    if is_empty remainder then Result.err covered_arm else Result.err (overlapping_arms remainder)

unfoldable pub check_arm : Seen → ConstructorPath → Result Seen
unfolding check_depths check_narrower add_families
check_arm seen own = check_depths seen [] own >>= λ _.
    check_narrower own (extending own seen.ends) >>= λ _.
    Result.ok
      (record { ends = seen.ends ++ own ∷ []; families = add_families [] own seen.families })

-- The loop over the arms' patterns.
unfoldable pub check_each : List Pattern → Seen → Result Seen
unfolding is_catch_all path check_arm
check_each [] seen = Result.ok seen
check_each (pattern_of_arm ∷ arms) seen =
    let skipped = check_each arms seen in
    let checked =
      path pattern_of_arm >>= λ own. check_arm seen own >>= λ next. check_each arms next in
    if is_catch_all pattern_of_arm then skipped else checked

unfoldable pub remainder_of : Option Family → List ConstructorPath → Option (List ConstructorPath)
unfolding constructors_of missing
remainder_of Option.none [] = Option.none
remainder_of (Option.some f) [] = Option.some (map (λ c. c ∷ []) (constructors_of f))
remainder_of subject (p ∷ named) = Option.some (missing (p ∷ named))

unfoldable pub check_arms : List Pattern → Option Family → Result (Unit {0})
unfolding check_each remainder_of is_catch_all
check_arms arms subject = check_each arms (record { ends = []; families = [] }) >>= λ seen.
    if any is_catch_all arms
    then Result.err (catch_all_arm (remainder_of subject seen.ends))
    else Result.ok tt

unfoldable pub paths_of : List Pattern → Result (List ConstructorPath)
unfolding path
paths_of [] = Result.ok []
paths_of (pattern_of_arm ∷ arms) =
    path pattern_of_arm >>= λ p. paths_of arms >>= λ ps. Result.ok (p ∷ ps)

unfoldable pub check_exhaustive : List Pattern → Result (Unit {0})
unfolding paths_of missing
check_exhaustive arms = paths_of arms >>= λ paths.
    let found = missing paths in
    if is_empty found then Result.ok tt else Result.err (non_exhaustive found)
