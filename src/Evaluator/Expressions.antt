-- ===== src/Evaluator/Expressions.antt =====
-- crates/krit/src/evaluator.rs: `expression`, `block`, `statement` and what they call. `body_of` runs
-- the body of a called function; Evaluator/Program ties the knot.
use krit.Base.{ℕ, Bool, true, false, Option, none, some, List, [], ◌++◌, if◌then◌else◌}
use krit.Base.Int.{ℤ}
use krit.Diagnostic.{Result, wrong_kind, no_match_arm}
use krit.Syntax.{
  Expression, Expressions, Parts, Entries, FieldValues, Arms, Block, Statements, Statement,
  UnaryOperator, expressions_count, is_conditional, is_binary, integer_literal,
}
use krit.Value.{Value, Values, Fields, Environment, extend, new_list, new_record, str}
use krit.Evaluator.{match_pattern}
use krit.Evaluator.Equality.{field_value}
use krit.Evaluator.Operators.{apply_unary, expect_boolean}
use krit.Evaluator.Builtins.{negate_literal}
use krit.Evaluator.Contracts.{check_construction_fields, constructed}
use krit.Evaluator.Library.{variable_value}
use krit.Evaluator.Machine.{Outside, M, ◌>>=◌, ◌>>◌, lift, pure, fail, entered}
use krit.Evaluator.Calls.{
  closure, literal_value, propagate, variant_parts, let_else, binary, call_value,
}

-- A part that is nested unless it goes on with its parent's chain.
abbrev pub unless_chained : Bool → M Value → M Value
unless_chained true m = m
unless_chained false m = entered m

-- The entry of an entry list.
abbrev pub entry_value : Value → Value → Result Value
entry_value k v = new_record (Fields.field "name" k (Fields.field "value" v Fields.end))

abbrev pub hole_text : Value → Result (List ℕ)
hole_text (str s) = Result.ok s
hole_text v = Result.err wrong_kind

-- The negation of an integer literal is folded.
abbrev pub negated : UnaryOperator → Option ℤ → M Value → M Value
negated UnaryOperator.negate (some n) operand = lift (negate_literal n)
negated operator literal operand = operand >>= λ v. lift (apply_unary operator v)

-- One arm: its value when the pattern matches, and the later arms when it does not.
abbrev pub arm_or : Result (Option Environment) → (Environment → M Value) → M Value → M Value
arm_or (Result.err e) value_in otherwise = fail e
arm_or (Result.ok none) value_in otherwise = otherwise
arm_or (Result.ok (some bound)) value_in otherwise = value_in bound

module _ (outside : Outside) (body_of : Block → Environment → M Value) where
  unfoldable mutual
    unfolding entered new_list new_record negate_literal apply_unary match_pattern field_value
        expect_boolean check_construction_fields constructed variable_value literal_value propagate
        variant_parts let_else binary call_value expressions_count is_conditional is_binary
        integer_literal

    -- `expression_contents`; `expression` is it `entered`. A chain of `else if` or of binary
    -- operators does not nest.
    pub contents : Expression → Environment → M Value
    contents (Expression.literal l) env = lift (literal_value l)
    contents (Expression.interpolation parts) env = text_of parts env >>= λ s. pure (str s)
    contents Expression.unit env = pure Value.unit
    contents (Expression.variable name) env = lift (variable_value name env)
    contents (Expression.list es) env = values_of es env >>= λ vs. lift (new_list vs)
    contents (Expression.entry_list entries) env =
        entries_of entries env >>= λ vs. lift (new_list vs)
    contents (Expression.record_of fs) env = fields_of fs env >>= λ vs. lift (new_record vs)
    contents (Expression.construct contract fs) env =
        lift (check_construction_fields contract fs)
        >> (fields_of fs env >>= λ vs. lift (constructed contract vs))
    contents (Expression.field_access e name) env =
        entered (contents e env) >>= λ v. lift (field_value v name)
    contents (Expression.block_of b) env = entered (block_contents b env)
    contents (Expression.conditional condition consequent alternative) env =
        entered (contents condition env) >>= λ v. lift (expect_boolean v) >>= λ b.
        if b
        then entered (block_contents consequent env)
        else unless_chained (is_conditional alternative) (contents alternative env)
    contents (Expression.function parameters body) env = pure (closure none parameters body env)
    contents (Expression.call callee arguments) env = entered (contents callee env) >>= λ f.
        call_value outside body_of f (expressions_count arguments) (values_of arguments env)
    contents (Expression.propagate operand) env = entered (contents operand env) >>= propagate
    contents (Expression.match_on subject arms) env =
        entered (contents subject env) >>= λ v. arm_value arms v env
    contents (Expression.unary operator operand) env =
        negated operator (integer_literal operand) (entered (contents operand env))
    contents (Expression.binary left operator right) env =
        unless_chained (is_binary left) (contents left env) >>= λ v.
        binary operator v (entered (contents right env))

    -- The operands, from left to right.
    pub values_of : Expressions → Environment → M Values
    values_of Expressions.nil env = pure Values.nil
    values_of (Expressions.cons e es) env =
        entered (contents e env) >>= λ v. values_of es env >>= λ vs. pure (Values.cons v vs)

    pub text_of : Parts → Environment → M (List ℕ)
    text_of Parts.no_parts env = pure []
    text_of (Parts.text s parts) env = text_of parts env >>= λ rest. pure (s ++ rest)
    text_of (Parts.hole e parts) env = entered (contents e env) >>= λ v.
        lift (hole_text v) >>= λ s. text_of parts env >>= λ rest. pure (s ++ rest)

    pub entries_of : Entries → Environment → M Values
    entries_of Entries.no_entries env = pure Values.nil
    entries_of (Entries.entry k e entries) env = entered (contents k env) >>= λ name.
        entered (contents e env) >>= λ v. lift (entry_value name v) >>= λ made.
        entries_of entries env >>= λ vs. pure (Values.cons made vs)

    pub fields_of : FieldValues → Environment → M Fields
    fields_of FieldValues.no_fields env = pure Fields.end
    fields_of (FieldValues.written name e fs) env =
        entered (contents e env) >>= λ v. fields_of fs env >>= λ vs. pure (Fields.field name v vs)

    -- `match_expression`, from the value of its subject on.
    pub arm_value : Arms → Value → Environment → M Value
    arm_value Arms.no_arms v env = fail no_match_arm
    arm_value (Arms.arm p e arms) v env =
        arm_or (match_pattern p v env) (λ bound. entered (contents e bound)) (arm_value arms v env)

    -- `block_contents`; `block` is it `entered`.
    pub block_contents : Block → Environment → M Value
    block_contents (Block.only statements) env =
        environment_after statements env >>= λ local. pure Value.unit
    block_contents (Block.ending statements tail) env =
        environment_after statements env >>= λ local. entered (contents tail local)

    pub environment_after : Statements → Environment → M Environment
    environment_after Statements.done env = pure env
    environment_after (Statements.then_next s statements) env =
        statement s env >>= λ local. environment_after statements local

    pub statement : Statement → Environment → M Environment
    statement (Statement.let_in name e) env =
        entered (contents e env) >>= λ v. pure (extend name v env)
    statement (Statement.let_else pattern e arm value) env = entered (contents e env) >>= λ v.
        let_else pattern arm (variant_parts v) env (λ bound. entered (contents value bound))
    statement (Statement.declare kind name parameters body) env =
        pure (extend name (closure (some name) parameters body env) env)
    statement (Statement.expression e) env = entered (contents e env) >>= λ v. pure env
