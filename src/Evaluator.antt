-- ===== src/Evaluator.antt =====
-- crates/krit/src/evaluator.rs: matching a value against patterns and selecting the arm of a `match`.
pub mod Trying
pub mod Arms
pub mod Selection
pub mod Equality
pub mod Operators
pub mod Builtins
pub mod Render
pub mod Json
pub mod JsonTrip
pub mod Machine
pub mod Contracts
pub mod Library
pub mod Calls
pub mod Expressions
pub mod Program
pub mod Good
pub mod Results
pub mod Matching
pub mod LibraryResults
pub mod CallsGood
pub mod Soundness
pub mod Outcome
pub mod MatchValue
pub mod Limited
pub mod MoreCalls
pub mod Stays
pub mod Contained
pub mod ContainedRuns
use krit.Base.{Bool, true, false, not, ◌≡◌, Option, List, [], ◌∷◌, ◌==◌, if◌then◌else◌}
use Prim.Native.String.{String}
use krit.Diagnostic.{Result, ◌>>=◌, wrong_kind, no_match_arm, wrong_payload_shape}
use krit.Patterns.{
  Pattern, binder, wildcard, empty_list, VariantName, from_variant, family, family_rank, rank,
}
use krit.Value.{Environment, extend, Value, Values, nil, new_list}

-- `binder_name`
unfoldable pub binder_name : Pattern → String
binder_name (binder name) = name
binder_name _ = "_"

-- The tests of a variant pattern: the family, then the name, then what the two names agree on.
unfoldable pub same_variant :
    VariantName → VariantName → Result (Option Environment) → Result (Option Environment)
unfolding from_variant family family_rank rank
same_variant expected name agreed =
    if not
      (family_rank (family (from_variant name)) == family_rank (family (from_variant expected)))
    then Result.err wrong_kind
    else if not (rank (from_variant name) == rank (from_variant expected))
    then Result.ok Option.none
    else agreed

-- `match_pattern`; a `break` out of its loop is a result.
unfoldable pub match_pattern : Pattern → Value → Environment → Result (Option Environment)
unfolding binder_name same_variant new_list
match_pattern (binder name) v env = Result.ok (Option.some (extend name v env))
match_pattern wildcard v env = Result.ok (Option.some (extend "_" v env))
match_pattern empty_list (Value.list nil d) env = Result.ok (Option.some env)
match_pattern empty_list (Value.list (Values.cons v vs) d) env = Result.ok Option.none
match_pattern (Pattern.cons head tail) (Value.list nil d) env = Result.ok Option.none
match_pattern (Pattern.cons head tail) (Value.list (Values.cons v vs) d) env =
    new_list vs >>= λ rest.
    Result.ok (Option.some (extend (binder_name tail) rest (extend (binder_name head) v env)))
match_pattern (Pattern.bare expected) (Value.bare name) env =
    same_variant expected name (Result.ok (Option.some env))
match_pattern (Pattern.bare expected) (Value.variant name payload d) env =
    same_variant expected name (Result.err wrong_payload_shape)
match_pattern (Pattern.variant expected below) (Value.variant name payload d) env =
    same_variant expected name (match_pattern below payload env)
match_pattern (Pattern.variant expected below) (Value.bare name) env =
    same_variant expected name (Result.err wrong_payload_shape)
match_pattern _ v env = Result.err wrong_kind

-- `select_match_arm`; an arm is its pattern and its expression.
module _ {E : Type 0} where
  unfoldable pub select_match_arm :
      Value → List (Pattern × E) → Environment → Result (E × Environment)
  unfolding match_pattern
  select_match_arm v [] env = Result.err no_match_arm
  select_match_arm v ((p, e) ∷ arms) env = match_pattern p v env >>= λ found. elim found [
    | Option.some bound ↦ Result.ok (e, bound)
    | Option.none ↦ select_match_arm v arms env
  ]
