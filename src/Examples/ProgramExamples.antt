-- ===== src/Examples/ProgramExamples.antt =====
-- crates/krit/src/evaluator.rs at small programs.
use krit.Base.{ℕ, ◌≡◌, refl, ◌⊎◌, arith, true, none, [], ◌∷◌, ◌↔◌, ◌≢◌}
use krit.Base.Int.{pos}
use Prim.Native.String.{String}
use krit.Diagnostic.{Result, call_depth, question_at_top_level}
use krit.Patterns.{VariantName}
use krit.Syntax.{
  Expression, Expressions, Block, Statements, Statement, ValueLiteral, BinaryOperator,
  StrictOperator, Declaration,
}
use krit.Value.{Value, Values, empty}
use krit.Value.Depth.{ScopeIsSound}
use krit.Evaluator.Machine.{Outside, Flow, Exit, pure, exit_with, Run}
use krit.Evaluator.Calls.{call_function}
use krit.Evaluator.Program.{body_of, run_program, execute}
use krit.Evaluator.Good.{Leaves}
use krit.Evaluator.Outcome.{start, run_program-Leaves, call_function-outcomes, Ends, called_with}
use krit.Evaluator.Contained.{StatementsContained}
use krit.Evaluator.ContainedRuns.{run_program-Contained}
use krit.Evaluator.MoreCalls.{run_program-more_calls}

-- A writer that takes every byte, and no JSON.
abbrev pub terminal : Outside
terminal = record {
  quoted = λ s. s;
  json_text = λ j. none;
  json_read = λ s. none;
  writes = λ before bytes. true;
}

abbrev pub number : ℕ → Expression
number n = Expression.literal (ValueLiteral.integer (pos n))

abbrev pub call_of : String → Expression → Expression
call_of f e = Expression.call (Expression.variable f) (Expressions.cons e Expressions.nil)

abbrev compute : StrictOperator → Expression → Expression → Expression
compute operator left right = Expression.binary left (BinaryOperator.strict operator) right

-- `fn down(n) { if n == 0 { 0 } else { down(n - 1) } }`, then `print(down(3))`
abbrev countdown : Statements
countdown =
    Statements.then_next
      (Statement.declare Declaration.function "down" ("n" ∷ []) (
        Block.ending Statements.done (
          Expression.conditional (compute StrictOperator.equal (Expression.variable "n") (number 0))
            (Block.ending Statements.done (number 0))
            (call_of "down"
              (compute StrictOperator.subtract (Expression.variable "n") (number 1))))))
      (Statements.then_next (Statement.expression (call_of "print" (call_of "down" (number 3))))
        Statements.done)

prints :
    execute terminal countdown ≡ (Result.ok Value.unit, record { depth = 0; output = b'0' ∷ [] })
unfolding execute
prints = refl

-- `None?`
abbrev answer : Block
answer = Block.ending Statements.done (Expression.propagate (Expression.variable "None"))

abbrev asking : Statements
asking =
    Statements.then_next (Statement.expression (Expression.propagate (Expression.variable "None")))
      Statements.done

runs_out : (run_program terminal 3 countdown).0 ≡ Flow.error call_depth
unfolding run_program
runs_out = refl

run_program-Leaves_example : Leaves ScopeIsSound start (run_program terminal 4 countdown)
run_program-Leaves_example = run_program-Leaves terminal 4 countdown

run_program-more_calls_example :
    ((run_program terminal 4 countdown).0 ≡ Flow.error call_depth)
    ⊎ (run_program terminal 4 countdown ≡ run_program terminal 10000 countdown)
run_program-more_calls_example = run_program-more_calls terminal 4 10000 countdown (omega arith)

-- `None?` at the top level
asks : execute terminal asking ≡ (Result.err question_at_top_level, start)
unfolding execute
asks = refl

-- A function of one parameter that answers with `None?`, called with `None?`.
gives_up :
    call_function terminal
      (body_of terminal 1)
      none
      ("x" ∷ [])
      answer
      empty
      1
      (exit_with (Value.bare VariantName.none) Exit.question)
      start
    ≡ (Flow.exit (Value.bare VariantName.none) Exit.question, start)
unfolding call_function exit_with
gives_up = refl

-- The same function called with a value.
returns :
    call_function terminal
      (body_of terminal 1)
      none
      ("x" ∷ [])
      answer
      empty
      1
      (pure (Values.cons Value.unit Values.nil))
      start
    ≡ (Flow.value (Value.bare VariantName.none), start)
unfolding call_function body_of
returns = refl

-- A `?` in the body ends the call, with the value that it gives up with.
call_function-outcomes_example :
    ((call_function terminal
          (body_of terminal 1)
          none
          ("x" ∷ [])
          answer
          empty
          1
          (pure (Values.cons Value.unit Values.nil))
          start
        ≡ (Flow.exit (Value.bare VariantName.none) Exit.question, start))
      ↔ ((◌≡◌ {A = ℕ} 1 1)
          × (pure (Values.cons Value.unit Values.nil) start
              ≡ (Flow.exit (Value.bare VariantName.none) Exit.question, start))))
    × ((call_function terminal
            (body_of terminal 1)
            none
            ("x" ∷ [])
            answer
            empty
            1
            (pure (Values.cons Value.unit Values.nil))
            start
          ≡ (Flow.value (Value.bare VariantName.none), start))
        ↔ ((◌≡◌ {A = ℕ} 1 1)
            × (vs : Values) × (mid : Run) × (pure (Values.cons Value.unit Values.nil) start
                ≡ (Flow.value vs, mid))
            × Ends
                (body_of terminal 1 answer (called_with none ("x" ∷ []) answer empty vs) mid)
                (Value.bare VariantName.none)
                start))
call_function-outcomes_example =
    call_function-outcomes terminal (body_of terminal 1) none ("x" ∷ []) answer empty 1
      (pure (Values.cons Value.unit Values.nil)) start start (Value.bare VariantName.none)
      Exit.question

-- `fn f(x) { None? }`, then `f(1)`: the `?` ends the call, and the program goes on.
abbrev asking_inside : Statements
asking_inside =
    Statements.then_next (Statement.declare Declaration.function "f" ("x" ∷ []) answer)
      (Statements.then_next (Statement.expression (call_of "f" (number 1))) Statements.done)

asking_inside-StatementsContained : StatementsContained asking_inside
unfolding StatementsContained
asking_inside-StatementsContained = (tt, ((tt, (tt, tt)), tt))

asks_inside : execute terminal asking_inside ≡ (Result.ok Value.unit, start)
unfolding execute
asks_inside = refl

run_program-Contained_example :
    (run_program terminal 4 asking_inside).0 ≢ Flow.exit (Value.bare VariantName.none) Exit.question
run_program-Contained_example =
    run_program-Contained terminal 4 asking_inside (Value.bare VariantName.none) Exit.question
      asking_inside-StatementsContained
