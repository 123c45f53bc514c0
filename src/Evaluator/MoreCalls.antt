-- ===== src/Evaluator/MoreCalls.antt =====
-- crates/krit/src/evaluator.rs: what a larger limit on nested calls changes.
use krit.Base.{ℕ, zero, suc, ◌≡◌, ◌≤◌, ◌⊎◌, inl, refl, arith, []}
use krit.Diagnostic.{call_depth}
use krit.Syntax.{
  Expression, Expressions, Parts, Entries, FieldValues, Arms, Block, Statements, Statement,
  expressions_count, is_conditional, is_binary, integer_literal,
}
use krit.Value.{Value, Environment, empty}
use krit.Evaluator.{match_pattern}
use krit.Evaluator.Operators.{expect_boolean}
use krit.Evaluator.Contracts.{check_construction_fields}
use krit.Evaluator.Machine.{Outside, M, Flow, lift}
use krit.Evaluator.Calls.{variant_parts}
use krit.Evaluator.Expressions.{
  entry_value, hole_text, contents, values_of, text_of, entries_of, fields_of, arm_value,
  block_contents, environment_after, statement,
}
use krit.Evaluator.Program.{body_of, run_program}
use krit.Evaluator.Limited.{
  Within, same-Within, then-Within, entered-Within, choose-Within, unless_chained-Within,
  negated-Within, arm_or-Within, binary-Within, let_else-Within, call_value-Within,
}

module _ (outside : Outside) (body body' : Block → Environment → M Value)
    (body-Within : (b : Block) (env : Environment) → Within (body b env) (body' b env)) where
  mutual
    unfolding contents

    contents-Within :
        (e : Expression) (env : Environment)
        → Within (contents outside body e env) (contents outside body' e env)
    contents-Within (Expression.literal l) env = same-Within _
    contents-Within (Expression.interpolation parts) env =
        then-Within (text_of-Within parts env) (λ s. same-Within _)
    contents-Within Expression.unit env = same-Within _
    contents-Within (Expression.variable name) env = same-Within _
    contents-Within (Expression.list es) env =
        then-Within (values_of-Within es env) (λ vs. same-Within _)
    contents-Within (Expression.entry_list entries) env =
        then-Within (entries_of-Within entries env) (λ vs. same-Within _)
    contents-Within (Expression.record_of fs) env =
        then-Within (fields_of-Within fs env) (λ vs. same-Within _)
    contents-Within (Expression.construct contract fs) env =
        let written = fields_of-Within fs env in
        then-Within (same-Within (lift (check_construction_fields contract fs)))
          (λ _. then-Within written (λ vs. same-Within _))
    contents-Within (Expression.field_access e name) env =
        then-Within (entered-Within (contents-Within e env)) (λ v. same-Within _)
    contents-Within (Expression.block_of b) env = entered-Within (block_contents-Within b env)
    contents-Within (Expression.conditional condition consequent alternative) env =
        let taken = entered-Within (block_contents-Within consequent env) in
        let other =
          unless_chained-Within (is_conditional alternative) (contents-Within alternative env) in
        then-Within (entered-Within (contents-Within condition env)) (λ v.
          then-Within (same-Within (lift (expect_boolean v))) (λ b. choose-Within b taken other))
    contents-Within (Expression.function parameters b) env = same-Within _
    contents-Within (Expression.call callee arguments) env =
        let operands = values_of-Within arguments env in
        then-Within (entered-Within (contents-Within callee env)) (λ v.
          call_value-Within outside body body' body-Within v (expressions_count arguments) operands)
    contents-Within (Expression.propagate operand) env =
        then-Within (entered-Within (contents-Within operand env)) (λ v. same-Within _)
    contents-Within (Expression.match_on subject arms) env =
        let choice = λ (v : Value). arm_value-Within arms v env in
        then-Within (entered-Within (contents-Within subject env)) choice
    contents-Within (Expression.unary operator operand) env =
        negated-Within operator (integer_literal operand)
          (entered-Within (contents-Within operand env))
    contents-Within (Expression.binary left operator right) env =
        let operand = entered-Within (contents-Within right env) in
        then-Within (unless_chained-Within (is_binary left) (contents-Within left env))
          (λ v. binary-Within operator v operand)

    values_of-Within :
        (es : Expressions) (env : Environment)
        → Within (values_of outside body es env) (values_of outside body' es env)
    values_of-Within Expressions.nil env = same-Within _
    values_of-Within (Expressions.cons e es) env =
        let rest = values_of-Within es env in
        then-Within (entered-Within (contents-Within e env))
          (λ v. then-Within rest (λ vs. same-Within _))

    text_of-Within :
        (parts : Parts) (env : Environment)
        → Within (text_of outside body parts env) (text_of outside body' parts env)
    text_of-Within Parts.no_parts env = same-Within _
    text_of-Within (Parts.text s parts) env =
        then-Within (text_of-Within parts env) (λ rest. same-Within _)
    text_of-Within (Parts.hole e parts) env =
        let rest = text_of-Within parts env in
        then-Within (entered-Within (contents-Within e env)) (λ v.
          then-Within (same-Within (lift (hole_text v)))
            (λ s. then-Within rest (λ t. same-Within _)))

    entries_of-Within :
        (entries : Entries) (env : Environment)
        → Within (entries_of outside body entries env) (entries_of outside body' entries env)
    entries_of-Within Entries.no_entries env = same-Within _
    entries_of-Within (Entries.entry k e entries) env =
        let value_is = entered-Within (contents-Within e env) in
        let rest = entries_of-Within entries env in
        then-Within (entered-Within (contents-Within k env)) (λ name. then-Within value_is (λ v.
          then-Within (same-Within (lift (entry_value name v)))
            (λ made. then-Within rest (λ vs. same-Within _))))

    fields_of-Within :
        (fs : FieldValues) (env : Environment)
        → Within (fields_of outside body fs env) (fields_of outside body' fs env)
    fields_of-Within FieldValues.no_fields env = same-Within _
    fields_of-Within (FieldValues.written name e fs) env =
        let rest = fields_of-Within fs env in
        then-Within (entered-Within (contents-Within e env))
          (λ v. then-Within rest (λ vs. same-Within _))

    arm_value-Within :
        (arms : Arms) (v : Value) (env : Environment)
        → Within (arm_value outside body arms v env) (arm_value outside body' arms v env)
    arm_value-Within Arms.no_arms v env = same-Within _
    arm_value-Within (Arms.arm p e arms) v env =
        arm_or-Within (match_pattern p v env) (λ bound. entered-Within (contents-Within e bound))
          (arm_value-Within arms v env)

    block_contents-Within :
        (b : Block) (env : Environment)
        → Within (block_contents outside body b env) (block_contents outside body' b env)
    block_contents-Within (Block.only statements) env =
        then-Within (environment_after-Within statements env) (λ local. same-Within _)
    block_contents-Within (Block.ending statements tail) env =
        then-Within (environment_after-Within statements env)
          (λ local. entered-Within (contents-Within tail local))

    environment_after-Within :
        (statements : Statements) (env : Environment)
        → Within
            (environment_after outside body statements env)
            (environment_after outside body' statements env)
    environment_after-Within Statements.done env = same-Within _
    environment_after-Within (Statements.then_next s statements) env =
        then-Within (statement-Within s env) (λ local. environment_after-Within statements local)

    statement-Within :
        (s : Statement) (env : Environment)
        → Within (statement outside body s env) (statement outside body' s env)
    statement-Within (Statement.let_in name e) env =
        then-Within (entered-Within (contents-Within e env)) (λ v. same-Within _)
    statement-Within (Statement.let_else pattern e arm value) env =
        let arm_is = λ (bound : Environment). entered-Within (contents-Within value bound) in
        then-Within (entered-Within (contents-Within e env))
          (λ v. let_else-Within pattern arm (variant_parts v) env arm_is)
    statement-Within (Statement.declare kind name parameters b) env = same-Within _
    statement-Within (Statement.expression e) env =
        then-Within (entered-Within (contents-Within e env)) (λ v. same-Within _)

module _ (outside : Outside) where
  body_of-Within :
      (fewer more : ℕ)
      → fewer ≤ more
      → (b : Block) (env : Environment)
      → Within (body_of outside fewer b env) (body_of outside more b env)
  unfolding body_of
  body_of-Within zero more h b env s = inl refl
  body_of-Within (suc fewer) zero h b env s = absurd (omega (arith, h))
  body_of-Within (suc fewer) (suc more) h b env s =
      entered-Within
        (block_contents-Within outside (body_of outside fewer) (body_of outside more)
          (body_of-Within fewer more (omega (arith, h))) b env)
        s

  -- Allowing more nested calls changes nothing about a run that does not fail with the call depth
  -- limit: it either fails with that limit, or ends with the same answer, evaluation depth and output
  -- under every larger limit.
  pub run_program-more_calls :
      (fewer more : ℕ) (statements : Statements)
      → fewer ≤ more
      → ((run_program outside fewer statements).0 ≡ Flow.error call_depth)
        ⊎ (run_program outside fewer statements ≡ run_program outside more statements)
  unfolding run_program
  run_program-more_calls fewer more statements h =
      environment_after-Within outside (body_of outside fewer) (body_of outside more)
        (body_of-Within fewer more h) statements empty (record { depth = 0; output = [] })
