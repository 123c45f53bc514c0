-- ===== src/Patterns.antt =====
-- crates/krit/src/patterns.rs: which arms of a `match` may stand together. A `BTreeSet` or `BTreeMap`
-- is the list of its entries; the order of an answer comes from the sort that the source makes.
pub mod Check
pub mod Meaning
pub mod Cover
pub mod Missing
pub mod Complete
pub mod Apart
use krit.Base.{
  ℕ, Bool, true, false, not, ◌&&◌, ◌||◌, Option, List, [], ◌∷◌, ltb, ◌==◌, if◌then◌else◌,
}
use Prim.Native.String.{String}
use krit.Diagnostic.{
  Constructor, Family, Result, ◌>>=◌, list_pattern_part, none_with_payload, variant_without_payload,
}

-- crates/krit/src/ast.rs
pub data VariantName : Type 0 where
  some none ok err : VariantName

-- The payload of a variant pattern is an `Option`: one constructor for each case.
pub data Pattern : Type 0 where
  binder : String → Pattern
  wildcard : Pattern
  bare : VariantName → Pattern
  variant : VariantName → Pattern → Pattern
  empty_list : Pattern
  cons : Pattern → Pattern → Pattern

unfoldable pub is_catch_all : Pattern → Bool
is_catch_all (binder name) = true
is_catch_all wildcard = true
is_catch_all _ = false

abbrev pub ConstructorPath : Type 0
ConstructorPath = List Constructor

unfoldable pub constructors_of : Family → List Constructor
constructors_of Family.option = Constructor.some ∷ Constructor.none ∷ []
constructors_of Family.result = Constructor.ok ∷ Constructor.err ∷ []
constructors_of Family.list = Constructor.empty ∷ Constructor.cons ∷ []

unfoldable pub from_variant : VariantName → Constructor
from_variant VariantName.some = Constructor.some
from_variant VariantName.none = Constructor.none
from_variant VariantName.ok = Constructor.ok
from_variant VariantName.err = Constructor.err

unfoldable pub family : Constructor → Family
family Constructor.some = Family.option
family Constructor.none = Family.option
family Constructor.ok = Family.result
family Constructor.err = Family.result
family Constructor.empty = Family.list
family Constructor.cons = Family.list

-- The positions in the declaration, which the derived order and equality compare.
unfoldable pub rank : Constructor → ℕ
rank Constructor.some = 0
rank Constructor.none = 1
rank Constructor.ok = 2
rank Constructor.err = 3
rank Constructor.empty = 4
rank Constructor.cons = 5

unfoldable pub family_rank : Family → ℕ
family_rank Family.option = 0
family_rank Family.result = 1
family_rank Family.list = 2

unfoldable pub path_eq : ConstructorPath → ConstructorPath → Bool
unfolding rank
path_eq [] [] = true
path_eq [] (d ∷ q) = false
path_eq (c ∷ p) [] = false
path_eq (c ∷ p) (d ∷ q) = rank c == rank d && path_eq p q

-- `slice::starts_with`, the prefix first.
unfoldable pub is_prefix : ConstructorPath → ConstructorPath → Bool
unfolding rank
is_prefix [] q = true
is_prefix (c ∷ p) [] = false
is_prefix (c ∷ p) (d ∷ q) = rank c == rank d && is_prefix p q

-- The derived order on paths.
unfoldable pub path_lt : ConstructorPath → ConstructorPath → Bool
unfolding rank
path_lt p [] = false
path_lt [] (d ∷ q) = true
path_lt (c ∷ p) (d ∷ q) = ltb (rank c) (rank d) || (rank c == rank d && path_lt p q)

-- The path of a pattern, or why the parser never builds it.
unfoldable pub path : Pattern → Result ConstructorPath
unfolding is_catch_all from_variant
path (binder name) = Result.ok []
path wildcard = Result.ok []
path empty_list = Result.ok (Constructor.empty ∷ [])
path (cons head tail) =
    if not (is_catch_all head) || not (is_catch_all tail)
    then Result.err list_pattern_part
    else Result.ok (Constructor.cons ∷ [])
path (bare VariantName.none) = Result.ok (Constructor.none ∷ [])
path (bare name) = Result.err variant_without_payload
path (variant VariantName.none payload) = Result.err none_with_payload
path (variant name payload) = path payload >>= λ below. Result.ok (from_variant name ∷ below)

unfoldable pub contains : ConstructorPath → List ConstructorPath → Bool
unfolding path_eq
contains p [] = false
contains p (q ∷ qs) = path_eq p q || contains p qs

unfoldable pub get : ConstructorPath → List (ConstructorPath × Family) → Option Family
unfolding path_eq
get p [] = Option.none
get p ((q, f) ∷ m) = if path_eq p q then Option.some f else get p m

-- `map.entry(p).or_insert(f)`
unfoldable pub or_insert :
    ConstructorPath → Family → List (ConstructorPath × Family) → List (ConstructorPath × Family)
unfolding path_eq
or_insert p f [] = (p, f) ∷ []
or_insert p f ((q, g) ∷ m) = if path_eq p q then (q, g) ∷ m else (q, g) ∷ or_insert p f m
