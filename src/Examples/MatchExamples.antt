-- ===== src/Examples/MatchExamples.antt =====
-- crates/krit/src/patterns.rs and evaluator.rs at a concrete match.
use krit.Syntax.{StrictOperator, Block, Statements}
use krit.Evaluator.Operators.{apply_binary}
use krit.Evaluator.Operators.Overflow.{Division, apply_binary-Division}
use krit.Evaluator.Builtins.{url_query}
use krit.Evaluator.Builtins.Texts.{AreTexts, is_valid_query-url_query}
use krit.RequestTarget.{is_valid_query}
use krit.Base.{true, ◌^◌, ◌-◌, ℕ, ◌≡◌, refl, Option, List, [], ◌∷◌, ◌+◌, All, arith}
use krit.Base.Int.{negsuc, pos}
use krit.Diagnostic.{integer_overflow, division_by_zero, Family, Result, Constructor}
use krit.Patterns.{Pattern, VariantName, binder, wildcard, path}
use krit.Patterns.Check.{check_arms, check_exhaustive, paths_of}
use krit.Patterns.Meaning.{Ty}
use krit.Patterns.Apart.{Pairwise, check_arms-apart}
use krit.Value.{Fields, end, str, in_i64, empty, Value, Values, integer, nil, new_list, new_variant}
use krit.Value.Depth.{
  IsSound, AreSound, Builds, nesting, new_list-Builds, new_variant-Builds, values_nesting,
}
use krit.Evaluator.Arms.{TypedPattern, patterns}
use krit.Evaluator.Selection.{Selects, select_match_arm-Selects}

-- `Ok(Some(x)) => 0, Ok(None) => 1, Err(_) => 2`
abbrev arms : List (Pattern × ℕ)
arms =
    (Pattern.variant VariantName.ok (Pattern.variant VariantName.some (binder "x")), 0)
    ∷ (Pattern.variant VariantName.ok (Pattern.bare VariantName.none), 1)
    ∷ (Pattern.variant VariantName.err wildcard, 2)
    ∷ []

abbrev subject : Ty
subject = Ty.result (Ty.option Ty.other) Ty.other

abbrev answer : Value
answer = Value.variant VariantName.ok (Value.variant VariantName.some (integer (pos 7)) 1) 2

accepted : check_arms (patterns arms) (Option.some Family.result) ≡ Result.ok tt
unfolding check_arms
accepted = refl

exhaustive : check_exhaustive (patterns arms) ≡ Result.ok tt
unfolding check_exhaustive
exhaustive = refl

typed : All (λ arm. TypedPattern subject arm.0) arms
unfolding path
typed = (λ q e. ground arith, (λ q e. ground arith, (λ q e. ground arith, tt)))

answer-IsSound : IsSound answer
unfolding IsSound nesting in_i64
answer-IsSound = ((refl, omega arith), ((refl, omega arith), refl))

check_arms-apart_example :
    (ps : List (List Constructor)) × (paths_of (patterns arms) ≡ Result.ok ps) × Pairwise ps
check_arms-apart_example = check_arms-apart (patterns arms) (Option.some Family.result) accepted

select_match_arm-Selects_example : Selects answer empty arms
select_match_arm-Selects_example =
    select_match_arm-Selects arms (Option.some Family.result) subject answer empty accepted
      exhaustive (λ e. cc) typed tt answer-IsSound

-- `[Ok(Some(7)), 7]`
abbrev two_values : Values
two_values = Values.cons answer (Values.cons (integer (pos 7)) nil)

two_values_sound : AreSound two_values
unfolding AreSound IsSound in_i64
two_values_sound = (answer-IsSound, (refl, tt))

new_list-Builds_example : Builds (new_list two_values) (1 + values_nesting two_values)
new_list-Builds_example = new_list-Builds two_values two_values_sound

new_variant-Builds_example : Builds (new_variant VariantName.some answer) (1 + nesting answer)
new_variant-Builds_example = new_variant-Builds VariantName.some answer answer-IsSound

-- A list with a function in it, and the least `i64` by -1.
abbrev holder : Value
holder =
    Value.list (Values.cons (Value.function Option.none [] (Block.only Statements.done) empty) nil)
      1

abbrev least_i64 : Value
least_i64 = integer (negsuc (2 ^ 63 - 1))

halved :
    apply_binary StrictOperator.divide least_i64 (integer (pos 2))
    ≡ Result.ok (integer (negsuc (2 ^ 62 - 1)))
unfolding apply_binary
halved = refl

least_overflows :
    apply_binary StrictOperator.remainder least_i64 (integer (negsuc 0))
    ≡ Result.err integer_overflow
unfolding apply_binary
least_overflows = refl

zero_divisor :
    apply_binary StrictOperator.divide least_i64 (integer (pos 0)) ≡ Result.err division_by_zero
unfolding apply_binary
zero_divisor = refl

least_inside : in_i64 (negsuc (2 ^ 63 - 1)) ≡ true
unfolding in_i64
least_inside = refl

apply_binary-Division_example : Division (negsuc (2 ^ 63 - 1)) (pos 7)
apply_binary-Division_example = apply_binary-Division (negsuc (2 ^ 63 - 1)) (pos 7) least_inside

-- `[{name: "q", value: "a&b"}]`
abbrev parameters : Value
parameters =
    Value.list
      (Values.cons
        (Value.record_of
          (Fields.field "name" (str (b'q' ∷ []))
            (Fields.field "value" (str (b'a' ∷ b'&' ∷ b'b' ∷ [])) end))
          1)
        nil)
      2

abbrev built : List ℕ
built = b'q' ∷ b'=' ∷ b'a' ∷ b'%' ∷ b'2' ∷ b'6' ∷ b'b' ∷ []

builds : url_query parameters ≡ Result.ok (str built)
unfolding url_query
builds = refl

is_valid_query-url_query_example : is_valid_query built ≡ true
unfolding AreTexts
is_valid_query-url_query_example =
    is_valid_query-url_query parameters built
      (((omega arith, tt), ((omega arith, (omega arith, (omega arith, tt))), tt)), tt) builds
