-- ===== src/Evaluator/Program.antt =====
-- crates/krit/src/evaluator.rs: `execute`. The calls that are left stand for `calls`: none is left when
-- `calls` has reached the limit.
use krit.Base.{ℕ, zero, suc, []}
use krit.Diagnostic.{Result, Diagnostic, call_depth, question_at_top_level, let_else_at_top_level}
use krit.Syntax.{Block, Statements}
use krit.Value.{Value, Environment, empty}
use krit.Evaluator.Machine.{Outside, M, Flow, Exit, Run, fail, entered}
use krit.Evaluator.Expressions.{block_contents, environment_after}

abbrev pub max_call_depth : ℕ
max_call_depth = 10000

abbrev pub top_level : Exit → Diagnostic
top_level Exit.question = question_at_top_level
top_level Exit.let_else = let_else_at_top_level

abbrev pub program_result : {A : Type 0} → Flow A → Result Value
program_result (Flow.value a) = Result.ok Value.unit
program_result (Flow.error e) = Result.err e
program_result (Flow.exit v x) = Result.err (top_level x)

module _ (outside : Outside) where
  -- A function's body, with the calls that are left.
  unfoldable pub body_of : ℕ → Block → Environment → M Value
  unfolding entered block_contents
  body_of zero body env = fail call_depth
  body_of (suc left) body env = entered (block_contents outside (body_of left) body env)

  -- `execute`: the answer, and what has been written.
  unfoldable pub run_program : ℕ → Statements → Flow Environment × Run
  unfolding environment_after body_of
  run_program calls statements =
      environment_after outside (body_of calls) statements empty (record { depth = 0; output = [] })

  unfoldable pub execute : Statements → Result Value × Run
  unfolding run_program
  execute statements =
      let (answer, after) = run_program max_call_depth statements in (program_result answer, after)
