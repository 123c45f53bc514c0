-- ===== src/Examples/MatchPrograms.antt =====
-- crates/krit/src/evaluator.rs and patterns.rs at a `match` in a program.
use krit.Base.{◌≡◌, refl, Option, All, arith}
use krit.Base.Int.{pos}
use krit.Diagnostic.{Family, Result}
use krit.Patterns.{Pattern, VariantName, binder, wildcard, path}
use krit.Patterns.Check.{check_arms, check_exhaustive}
use krit.Patterns.Meaning.{Ty}
use krit.Syntax.{Expression, Arms}
use krit.Value.{Value, integer, empty, in_i64}
use krit.Value.Depth.{IsSound, nesting}
use krit.Evaluator.Arms.{TypedPattern, patterns}
use krit.Evaluator.Machine.{Flow, entered}
use krit.Evaluator.Expressions.{contents}
use krit.Evaluator.Program.{body_of}
use krit.Evaluator.Outcome.{start}
use krit.Evaluator.MatchValue.{arms_list, EvaluatesOne, match_on-EvaluatesOne}
use krit.Examples.ProgramExamples.{terminal, number, call_of}

-- `Ok(None) => 0, Ok(Some(x)) => x, Err(_) => 2`
abbrev arms : Arms
arms = Arms.arm (Pattern.variant VariantName.ok (Pattern.bare VariantName.none)) (number 0) (
    Arms.arm (Pattern.variant VariantName.ok (Pattern.variant VariantName.some (binder "x")))
      (Expression.variable "x")
      (Arms.arm (Pattern.variant VariantName.err wildcard) (number 2) Arms.no_arms))

-- `Ok(Some(7))`
abbrev asked : Expression
asked = call_of "Ok" (call_of "Some" (number 7))

abbrev subject : Ty
subject = Ty.result (Ty.option Ty.other) Ty.other

abbrev answer : Value
answer = Value.variant VariantName.ok (Value.variant VariantName.some (integer (pos 7)) 1) 2

accepted : check_arms (patterns (arms_list arms)) (Option.some Family.result) ≡ Result.ok tt
unfolding check_arms
accepted = refl

exhaustive : check_exhaustive (patterns (arms_list arms)) ≡ Result.ok tt
unfolding check_exhaustive
exhaustive = refl

typed : All (λ arm. TypedPattern subject arm.0) (arms_list arms)
unfolding path
typed = (λ q e. ground arith, (λ q e. ground arith, (λ q e. ground arith, tt)))

answer-IsSound : IsSound answer
unfolding IsSound nesting in_i64
answer-IsSound = ((refl, omega arith), ((refl, omega arith), refl))

comes :
    entered (contents terminal (body_of terminal 1) asked empty) start ≡ (Flow.value answer, start)
unfolding contents entered
comes = refl

match_on-EvaluatesOne_example :
    EvaluatesOne terminal (body_of terminal 1) asked arms answer empty start start
match_on-EvaluatesOne_example =
    match_on-EvaluatesOne terminal (body_of terminal 1) asked arms (Option.some Family.result)
      subject answer empty start start accepted exhaustive (λ e. cc) typed comes tt answer-IsSound

answers_seven :
    (contents terminal (body_of terminal 1) (Expression.match_on asked arms) empty start).0
    ≡ Flow.value (integer (pos 7))
unfolding contents
answers_seven = refl
