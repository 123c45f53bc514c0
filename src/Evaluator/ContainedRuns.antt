-- ===== src/Evaluator/ContainedRuns.antt =====
-- crates/krit/src/evaluator.rs: what `?` and let-else inside functions can do to a program.
use krit.Base.{ℕ, ◌≢◌, []}
use krit.Syntax.{
  Expression, Expressions, Parts, Entries, FieldValues, Arms, Block, Statements, Statement,
  expressions_count, is_conditional, is_binary, integer_literal,
}
use krit.Value.{Value, Environment, empty}
use krit.Evaluator.{match_pattern}
use krit.Evaluator.Operators.{expect_boolean}
use krit.Evaluator.Contracts.{check_construction_fields}
use krit.Evaluator.Machine.{Outside, M, Flow, Exit}
use krit.Evaluator.Expressions.{
  entry_value, hole_text, contents, values_of, text_of, entries_of, fields_of, arm_value,
  block_contents, environment_after, statement,
}
use krit.Evaluator.Program.{body_of, run_program}
use krit.Evaluator.Stays.{
  NoExit, Stays, pure-Stays, fail-Stays, lift-Stays, then-Stays, entered-Stays, choose-Stays,
  unless_chained-Stays, negated-Stays, arm_or-Stays, binary-Stays, call_value-Stays,
}
use krit.Evaluator.Contained.{
  Contained, AllContained, PartsContained, EntriesContained, FieldsContained, ArmsContained,
  BlockContained, StatementsContained, StatementContained,
}

module _ (outside : Outside) (body : Block → Environment → M Value) where
  mutual
    unfolding contents Contained

    contents-Stays :
        (e : Expression) (env : Environment) → Contained e → Stays (contents outside body e env)
    contents-Stays (Expression.literal l) env h = lift-Stays _
    contents-Stays (Expression.interpolation parts) env h =
        then-Stays (text_of-Stays parts env h) (λ s. pure-Stays _)
    contents-Stays Expression.unit env h = pure-Stays _
    contents-Stays (Expression.variable name) env h = lift-Stays _
    contents-Stays (Expression.list es) env h =
        then-Stays (values_of-Stays es env h) (λ vs. lift-Stays _)
    contents-Stays (Expression.entry_list entries) env h =
        then-Stays (entries_of-Stays entries env h) (λ vs. lift-Stays _)
    contents-Stays (Expression.record_of fs) env h =
        then-Stays (fields_of-Stays fs env h) (λ vs. lift-Stays _)
    contents-Stays (Expression.construct contract fs) env h =
        let written = fields_of-Stays fs env h in
        then-Stays (lift-Stays (check_construction_fields contract fs))
          (λ _. then-Stays written (λ vs. lift-Stays _))
    contents-Stays (Expression.field_access e name) env h =
        then-Stays (entered-Stays (contents-Stays e env h)) (λ v. lift-Stays _)
    contents-Stays (Expression.block_of b) env h = entered-Stays (block_contents-Stays b env h)
    contents-Stays (Expression.conditional condition consequent alternative) env (hc, hb, ha) =
        let taken = entered-Stays (block_contents-Stays consequent env hb) in
        let other =
          unless_chained-Stays (is_conditional alternative) (contents-Stays alternative env ha) in
        then-Stays (entered-Stays (contents-Stays condition env hc))
          (λ v. then-Stays (lift-Stays (expect_boolean v)) (λ b. choose-Stays b taken other))
    contents-Stays (Expression.function parameters b) env h = pure-Stays _
    contents-Stays (Expression.call callee arguments) env (hc, ha) =
        let operands = values_of-Stays arguments env ha in
        then-Stays (entered-Stays (contents-Stays callee env hc))
          (λ v. call_value-Stays outside body v (expressions_count arguments) operands)
    contents-Stays (Expression.propagate operand) env h = absurd h
    contents-Stays (Expression.match_on subject arms) env (hs, ha) =
        let choice = λ (v : Value). arm_value-Stays arms v env ha in
        then-Stays (entered-Stays (contents-Stays subject env hs)) choice
    contents-Stays (Expression.unary operator operand) env h =
        negated-Stays operator (integer_literal operand)
          (entered-Stays (contents-Stays operand env h))
    contents-Stays (Expression.binary left operator right) env (hl, hr) =
        let operand = entered-Stays (contents-Stays right env hr) in
        then-Stays (unless_chained-Stays (is_binary left) (contents-Stays left env hl))
          (λ v. binary-Stays operator v operand)

    values_of-Stays :
        (es : Expressions) (env : Environment)
        → AllContained es
        → Stays (values_of outside body es env)
    values_of-Stays Expressions.nil env h = pure-Stays _
    values_of-Stays (Expressions.cons e es) env (he, hs) =
        let rest = values_of-Stays es env hs in
        then-Stays (entered-Stays (contents-Stays e env he))
          (λ v. then-Stays rest (λ vs. pure-Stays _))

    text_of-Stays :
        (parts : Parts) (env : Environment)
        → PartsContained parts
        → Stays (text_of outside body parts env)
    text_of-Stays Parts.no_parts env h = pure-Stays _
    text_of-Stays (Parts.text s parts) env h =
        then-Stays (text_of-Stays parts env h) (λ rest. pure-Stays _)
    text_of-Stays (Parts.hole e parts) env (he, hs) =
        let rest = text_of-Stays parts env hs in
        then-Stays (entered-Stays (contents-Stays e env he))
          (λ v. then-Stays (lift-Stays (hole_text v)) (λ s. then-Stays rest (λ t. pure-Stays _)))

    entries_of-Stays :
        (entries : Entries) (env : Environment)
        → EntriesContained entries
        → Stays (entries_of outside body entries env)
    entries_of-Stays Entries.no_entries env h = pure-Stays _
    entries_of-Stays (Entries.entry k e entries) env (hk, he, hs) =
        let value_is = entered-Stays (contents-Stays e env he) in
        let rest = entries_of-Stays entries env hs in
        then-Stays (entered-Stays (contents-Stays k env hk)) (λ name. then-Stays value_is (λ v.
          then-Stays (lift-Stays (entry_value name v))
            (λ made. then-Stays rest (λ vs. pure-Stays _))))

    fields_of-Stays :
        (fs : FieldValues) (env : Environment)
        → FieldsContained fs
        → Stays (fields_of outside body fs env)
    fields_of-Stays FieldValues.no_fields env h = pure-Stays _
    fields_of-Stays (FieldValues.written name e fs) env (he, hs) =
        let rest = fields_of-Stays fs env hs in
        then-Stays (entered-Stays (contents-Stays e env he))
          (λ v. then-Stays rest (λ vs. pure-Stays _))

    arm_value-Stays :
        (arms : Arms) (v : Value) (env : Environment)
        → ArmsContained arms
        → Stays (arm_value outside body arms v env)
    arm_value-Stays Arms.no_arms v env h = fail-Stays _
    arm_value-Stays (Arms.arm p e arms) v env (he, hs) =
        arm_or-Stays (match_pattern p v env) (λ bound. entered-Stays (contents-Stays e bound he))
          (arm_value-Stays arms v env hs)

    block_contents-Stays :
        (b : Block) (env : Environment)
        → BlockContained b
        → Stays (block_contents outside body b env)
    block_contents-Stays (Block.only statements) env h =
        then-Stays (environment_after-Stays statements env h) (λ local. pure-Stays _)
    block_contents-Stays (Block.ending statements tail) env (hs, ht) =
        then-Stays (environment_after-Stays statements env hs)
          (λ local. entered-Stays (contents-Stays tail local ht))

    environment_after-Stays :
        (statements : Statements) (env : Environment)
        → StatementsContained statements
        → Stays (environment_after outside body statements env)
    environment_after-Stays Statements.done env h = pure-Stays _
    environment_after-Stays (Statements.then_next s statements) env (h, hs) =
        then-Stays (statement-Stays s env h) (λ local. environment_after-Stays statements local hs)

    statement-Stays :
        (s : Statement) (env : Environment)
        → StatementContained s
        → Stays (statement outside body s env)
    statement-Stays (Statement.let_in name e) env h =
        then-Stays (entered-Stays (contents-Stays e env h)) (λ v. pure-Stays _)
    statement-Stays (Statement.let_else pattern e arm value) env h = absurd h
    statement-Stays (Statement.declare kind name parameters b) env h = pure-Stays _
    statement-Stays (Statement.expression e) env h =
        then-Stays (entered-Stays (contents-Stays e env h)) (λ v. pure-Stays _)

NoExit-ne : {A : Type 0} (flow : Flow A) (v : Value) (x : Exit) → NoExit flow → flow ≢ Flow.exit v x
NoExit-ne (Flow.value a) v x h e = cc
NoExit-ne (Flow.error d) v x h e = cc
NoExit-ne (Flow.exit w y) v x h e = absurd h

-- When every `?` and every let-else of a program stands in the body of a function, no run of it, under
-- any limit on nested calls, gives up with a `?` or a let-else at the top level, whatever the functions
-- give up with.
pub run_program-Contained :
    (outside : Outside) (calls : ℕ) (statements : Statements) (v : Value) (x : Exit)
    → StatementsContained statements
    → (run_program outside calls statements).0 ≢ Flow.exit v x
unfolding run_program
run_program-Contained outside calls statements v x h =
    NoExit-ne (run_program outside calls statements).0 v x (
      (environment_after-Stays outside (body_of outside calls) statements empty h).stays
        (record { depth = 0; output = [] }))
