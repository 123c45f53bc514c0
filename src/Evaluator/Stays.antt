-- ===== src/Evaluator/Stays.antt =====
-- crates/krit/src/evaluator.rs: where a `?` or a let-else can reach from.
use krit.Base.{
  ℕ, Bool, true, false, not, leb, Option, none, some, ◌==◌, if◌then◌else◌, length, ◌+◌, Bool-cases,
  inl, inr, List,
}
use krit.Base.Int.{ℤ}
use krit.Diagnostic.{Result, Diagnostic, wrong_arity, unavailable_builtin, not_callable}
use krit.Syntax.{Block, BinaryOperator, UnaryOperator}
use krit.Value.{Value, Values, Environment, BuiltinFunction}
use krit.Evaluator.Operators.{expect_boolean}
use krit.Evaluator.Library.{builtin_arity, is_available, pure_builtin}
use krit.Evaluator.Machine.{
  Outside, M, Flow, Run, ◌>>=◌, continue_with, lift, entered, returned, returned_flow, write_all,
  pure, fail,
}
use krit.Evaluator.Calls.{
  binary, call_builtin, call_function, call_value, apply_builtin, print_text,
}
use krit.Evaluator.Expressions.{unless_chained, negated, arm_or}

-- An answer with which nothing is given up.
abbrev pub NoExit : {A : Type 0} → Flow A → Type 0
NoExit (Flow.exit v x) = ⊥
NoExit flow = Unit

-- An evaluation that never gives up with a `?` or a let-else.
pub record Stays {A : Type 0} (m : M A) : Type 0 where
  pub stays : (s : Run) → NoExit (m s).0

pub pure-Stays : {A : Type 0} (a : A) → Stays (pure a)
pure-Stays a = record { stays = λ s. tt }

pub fail-Stays : {A : Type 0} (e : Diagnostic) → Stays (fail {A = A} e)
fail-Stays e = record { stays = λ s. tt }

pub lift-Stays : {A : Type 0} (r : Result A) → Stays (lift r)
lift-Stays (Result.ok a) = pure-Stays a
lift-Stays (Result.err e) = fail-Stays e

continue_with-NoExit :
    {A B : Type 0} (first : Flow A × Run) (f : A → M B)
    → NoExit first.0
    → ((a : A) → Stays (f a))
    → NoExit (continue_with first f).0
continue_with-NoExit (Flow.value a, after) f h k = (k a).stays after
continue_with-NoExit (Flow.error e, after) f h k = tt
continue_with-NoExit (Flow.exit v x, after) f h k = absurd h

pub then-Stays :
    {A B : Type 0} {m : M A} {f : A → M B} → Stays m → ((a : A) → Stays (f a)) → Stays (m >>= f)
then-Stays {m = m} {f = f} h k = record { stays = λ s. continue_with-NoExit (m s) f (h.stays s) k }

entered-NoExit : {A : Type 0} (m : M A) → Stays m → (s : Run) → NoExit (entered m s).0
unfolding entered
entered-NoExit m h s = elim (Bool-cases (leb 100000 s.depth)) [
  | inl full ↦ rw full tt
  | inr room ↦ rw room (h.stays (record s { depth = s.depth + 1 }))
]

pub entered-Stays : {A : Type 0} {m : M A} → Stays m → Stays (entered m)
entered-Stays {m = m} h = record { stays = entered-NoExit m h }

-- A call's body may give up with anything: the call does not.
returned_flow-NoExit : (first : Flow Value × Run) → NoExit (returned_flow first).0
returned_flow-NoExit (Flow.value v, after) = tt
returned_flow-NoExit (Flow.error e, after) = tt
returned_flow-NoExit (Flow.exit v x, after) = tt

returned-Stays : (m : M Value) → Stays (returned m)
unfolding returned
returned-Stays m = record { stays = λ s. returned_flow-NoExit (m s) }

pub choose-Stays :
    {A : Type 0} (b : Bool) {m n : M A} → Stays m → Stays n → Stays (if b then m else n)
choose-Stays true h k = h
choose-Stays false h k = k

pub unless_chained-Stays : (b : Bool) {m : M Value} → Stays m → Stays (unless_chained b m)
unless_chained-Stays true h = h
unless_chained-Stays false h = entered-Stays h

pub negated-Stays :
    (operator : UnaryOperator) (literal : Option ℤ) {m : M Value}
    → Stays m
    → Stays (negated operator literal m)
negated-Stays UnaryOperator.negate (some n) h = lift-Stays _
negated-Stays UnaryOperator.negate none h = then-Stays h (λ v. lift-Stays _)
negated-Stays UnaryOperator.negation literal h = then-Stays h (λ v. lift-Stays _)

pub arm_or-Stays :
    (found : Result (Option Environment)) {f : Environment → M Value} {m : M Value}
    → ((bound : Environment) → Stays (f bound))
    → Stays m
    → Stays (arm_or found f m)
arm_or-Stays (Result.err e) hf h = fail-Stays e
arm_or-Stays (Result.ok none) hf h = h
arm_or-Stays (Result.ok (some bound)) hf h = hf bound

pub binary-Stays :
    (operator : BinaryOperator) (v : Value) {m : M Value} → Stays m → Stays (binary operator v m)
unfolding binary
binary-Stays (BinaryOperator.strict operator) v h = then-Stays h (λ w. lift-Stays _)
binary-Stays BinaryOperator.logical_and v h = then-Stays (lift-Stays (expect_boolean v)) (λ b.
    choose-Stays b
      (then-Stays h
        (λ w. then-Stays (lift-Stays (expect_boolean w)) (λ c. pure-Stays (Value.boolean c))))
      (pure-Stays (Value.boolean false)))
binary-Stays BinaryOperator.logical_or v h = then-Stays (lift-Stays (expect_boolean v)) (λ b.
    choose-Stays b (pure-Stays (Value.boolean true)) (
      then-Stays h
        (λ w. then-Stays (lift-Stays (expect_boolean w)) (λ c. pure-Stays (Value.boolean c)))))

module _ (outside : Outside) where
  write_all-NoExit : (bytes : List ℕ) (s : Run) → NoExit (write_all outside bytes s).0
  unfolding write_all
  write_all-NoExit bytes s = elim (Bool-cases (outside.writes s.output bytes)) [
    | inl taken ↦ rw taken tt
    | inr refused ↦ rw refused tt
  ]

  write_all-Stays : (bytes : List ℕ) → Stays (write_all outside bytes)
  write_all-Stays bytes = record { stays = write_all-NoExit bytes }

  print_text-Stays : (bytes : List ℕ) → Stays (print_text outside bytes)
  unfolding print_text
  print_text-Stays bytes = then-Stays (write_all-Stays bytes) (λ u. pure-Stays Value.unit)

  apply_builtin-Stays : (f : BuiltinFunction) (vs : Values) → Stays (apply_builtin outside f vs)
  unfolding apply_builtin
  apply_builtin-Stays BuiltinFunction.print vs = print_text-Stays _
  apply_builtin-Stays BuiltinFunction.println vs =
      then-Stays (write_all-Stays _) (λ u. print_text-Stays _)
  apply_builtin-Stays f vs = lift-Stays {A = Value} (pure_builtin outside f vs)

  pub call_value-Stays :
      (body : Block → Environment → M Value) (v : Value) (count : ℕ) {m : M Values}
      → Stays m
      → Stays (call_value outside body v count m)
  unfolding call_value call_function call_builtin
  call_value-Stays body (Value.function name parameters b env) count h =
      choose-Stays (not (count == length parameters)) (fail-Stays wrong_arity)
        (then-Stays h (λ vs. returned-Stays _))
  call_value-Stays body (Value.builtin f) count h =
      choose-Stays (not (count == builtin_arity f)) (fail-Stays wrong_arity) (
        then-Stays h (λ vs.
          choose-Stays (is_available f) (apply_builtin-Stays f vs)
            (fail-Stays unavailable_builtin)))
  call_value-Stays body v count h = fail-Stays not_callable
