-- ===== src/Evaluator/Calls.antt =====
-- crates/krit/src/evaluator.rs: calls, `?`, let-else and the operators, given the evaluation of their
-- operands.
use krit.Base.{ℕ, true, false, not, Option, none, some, List, [], ◌∷◌, ◌==◌, if◌then◌else◌, length}
use Prim.Native.String.{String}
use krit.Diagnostic.{Result, wrong_kind, wrong_arity, not_callable, unavailable_builtin}
use krit.Patterns.{VariantName}
use krit.Syntax.{Block, BinaryOperator, VariantPattern, ValueLiteral}
use krit.Value.{Value, Values, Environment, extend, BuiltinFunction, str, boolean}
use krit.Evaluator.Equality.{same_name}
use krit.Evaluator.Operators.{apply_binary, expect_boolean, checked, or_overflow}
use krit.Evaluator.Render.{render}
use krit.Evaluator.Library.{builtin_arity, is_available, first, pure_builtin}
use krit.Evaluator.Machine.{
  Outside, M, ◌>>=◌, ◌>>◌, lift, pure, fail, write_all, Exit, exit_with, returned,
}

-- `closure`
abbrev pub closure : Option String → List String → Block → Environment → Value
closure name parameters body env = Value.function name parameters body env

unfoldable pub bind_parameters : List String → Values → Environment → Environment
bind_parameters (name ∷ names) (Values.cons v vs) env = bind_parameters names vs (extend name v env)
bind_parameters names vs env = env

-- A named function can call itself.
unfoldable pub bind_self : Value → Option String → Environment → Environment
bind_self f none env = env
bind_self f (some name) env = extend name f env

unfoldable pub literal_value : ValueLiteral → Result Value
unfolding checked
literal_value (ValueLiteral.integer n) = or_overflow (checked n)
literal_value (ValueLiteral.boolean b) = Result.ok (boolean b)
literal_value (ValueLiteral.str s) = Result.ok (str s)

-- `propagate`
unfoldable pub propagate : Value → M Value
unfolding exit_with
propagate (Value.variant VariantName.ok v d) = pure v
propagate (Value.variant VariantName.some v d) = pure v
propagate (Value.variant VariantName.err v d) =
    exit_with (Value.variant VariantName.err v d) Exit.question
propagate (Value.variant VariantName.none v d) =
    exit_with (Value.variant VariantName.none v d) Exit.question
propagate (Value.bare VariantName.err) = exit_with (Value.bare VariantName.err) Exit.question
propagate (Value.bare VariantName.none) = exit_with (Value.bare VariantName.none) Exit.question
propagate v = fail wrong_kind

-- The name and the payload of a let-else's subject.
unfoldable pub variant_parts : Value → Option (VariantName × Option Value)
variant_parts (Value.bare name) = some (name, none)
variant_parts (Value.variant name v d) = some (name, some v)
variant_parts v = none

abbrev pub bind_payload : Option String → Option Value → Environment → Environment
bind_payload (some name) (some v) env = extend name v env
bind_payload _ payload env = env

-- `let_else`, given its subject and the value of its arm.
unfoldable pub let_else :
    VariantPattern
    → VariantPattern
    → Option (VariantName × Option Value)
    → Environment
    → (Environment → M Value)
    → M Environment
unfolding exit_with
let_else pattern arm none env arm_value = fail wrong_kind
let_else pattern arm (some (name, payload)) env arm_value =
    if same_name name pattern.variant
    then pure (bind_payload pattern.binding payload env)
    else if same_name name arm.variant
    then (arm_value (bind_payload arm.binding payload env) >>= λ v. exit_with v Exit.let_else)
    else fail wrong_kind

-- `binary`, given the left value and the evaluation of the right operand.
unfoldable pub binary : BinaryOperator → Value → M Value → M Value
unfolding expect_boolean apply_binary
binary (BinaryOperator.strict operator) v right = right >>= λ w. lift (apply_binary operator v w)
binary BinaryOperator.logical_and v right = lift (expect_boolean v) >>= λ b.
    if b
    then (right >>= λ w. lift (expect_boolean w) >>= λ c. pure (boolean c))
    else pure (boolean false)
binary BinaryOperator.logical_or v right = lift (expect_boolean v) >>= λ b.
    if b
    then pure (boolean true)
    else (right >>= λ w. lift (expect_boolean w) >>= λ c. pure (boolean c))

module _ (outside : Outside) where
  unfoldable pub print_text : List ℕ → M Value
  unfolding write_all
  print_text s = write_all outside s >> pure Value.unit

  -- `apply_builtin`
  unfoldable pub apply_builtin : BuiltinFunction → Values → M Value
  unfolding render print_text pure_builtin
  apply_builtin BuiltinFunction.print vs = print_text (render outside.quoted (first vs))
  apply_builtin BuiltinFunction.println vs =
      write_all outside (render outside.quoted (first vs)) >> print_text (b'\n' ∷ [])
  apply_builtin f vs = lift (pure_builtin outside f vs)

  -- `call_builtin`, given the number of arguments and their evaluation.
  unfoldable pub call_builtin : BuiltinFunction → ℕ → M Values → M Value
  unfolding builtin_arity is_available apply_builtin
  call_builtin f count arguments =
      if not (count == builtin_arity f)
      then fail wrong_arity
      else arguments >>= λ vs.
          if is_available f then apply_builtin f vs else fail unavailable_builtin

  module _ (body_of : Block → Environment → M Value) where
    -- `call_function`
    unfoldable pub call_function :
        Option String → List String → Block → Environment → ℕ → M Values → M Value
    unfolding returned bind_parameters bind_self
    call_function name parameters body env count arguments =
        if not (count == length parameters)
        then fail wrong_arity
        else arguments >>= λ vs. returned (
            body_of body (
              bind_parameters parameters vs
                (bind_self (closure name parameters body env) name env)))

    -- `call`, given the callee's value.
    unfoldable pub call_value : Value → ℕ → M Values → M Value
    unfolding call_function call_builtin
    call_value (Value.function name parameters body env) count arguments =
        call_function name parameters body env count arguments
    call_value (Value.builtin f) count arguments = call_builtin f count arguments
    call_value v count arguments = fail not_callable
