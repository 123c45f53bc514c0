-- ===== src/Evaluator/Limited.antt =====
-- crates/krit/src/evaluator.rs: evaluations that differ only where one of them runs out of calls.
use krit.Base.{
  ℕ, ◌≡◌, refl, ap, Bool, true, false, not, leb, Option, none, some, Bool-cases, inl, inr, ◌⊎◌,
  ◌==◌, if◌then◌else◌, length, ◌+◌,
}
use krit.Base.Int.{ℤ}
use krit.Diagnostic.{Result, call_depth}
use krit.Patterns.{VariantName}
use krit.Syntax.{Block, BinaryOperator, UnaryOperator, VariantPattern}
use krit.Value.{Value, Values, Environment}
use krit.Evaluator.Equality.{same_name}
use krit.Evaluator.Operators.{expect_boolean}
use krit.Evaluator.Library.{builtin_arity}
use krit.Evaluator.Machine.{
  Outside, M, Flow, Run, ◌>>=◌, continue_with, lift, entered, returned, returned_flow,
}
use krit.Evaluator.Calls.{bind_payload, let_else, binary, call_builtin, call_function, call_value}
use krit.Evaluator.Expressions.{unless_chained, negated, arm_or}

-- From every state, the first either fails with the call depth limit or comes to the same as the
-- second: answer, depth and output.
abbrev pub Within : {A : Type 0} → M A → M A → Type 0
Within m n = (s : Run) → ((m s).0 ≡ Flow.error call_depth) ⊎ (m s ≡ n s)

pub same-Within : {A : Type 0} (m : M A) → Within m m
same-Within m s = inr refl

continue_with-Within :
    {A B : Type 0} (first : Flow A × Run) (f g : A → M B)
    → ((a : A) → Within (f a) (g a))
    → ((continue_with first f).0 ≡ Flow.error call_depth)
      ⊎ (continue_with first f ≡ continue_with first g)
continue_with-Within (Flow.value a, after) f g h = h a after
continue_with-Within (Flow.error e, after) f g h = inr refl
continue_with-Within (Flow.exit v x, after) f g h = inr refl

continue_with-limited :
    {A B : Type 0} (first : Flow A × Run) (f : A → M B)
    → first.0 ≡ Flow.error call_depth
    → (continue_with first f).0 ≡ Flow.error call_depth
continue_with-limited (Flow.value a, after) f h = cc
continue_with-limited (Flow.error e, after) f h = cc
continue_with-limited (Flow.exit v x, after) f h = cc

pub then-Within :
    {A B : Type 0} {m n : M A} {f g : A → M B}
    → Within m n
    → ((a : A) → Within (f a) (g a))
    → Within (m >>= f) (n >>= g)
then-Within {m = m} {n = n} {f = f} {g = g} h k s = elim (h s) [
  | inl limited ↦ inl (continue_with-limited (m s) f limited)
  | inr agree ↦ rw (← agree) (continue_with-Within (m s) f g k)
]

pub entered-Within : {A : Type 0} {m n : M A} → Within m n → Within (entered m) (entered n)
unfolding entered
entered-Within {m = m} {n = n} h s = elim (Bool-cases (leb 100000 s.depth)) [
  | inl full ↦ inr (rw full refl)
  | inr room ↦ elim (h (record s { depth = s.depth + 1 })) [
    | inl limited ↦ inl (rw room limited)
    | inr agree ↦ inr (rw (room, agree) refl)
  ]
]

returned_flow-limited :
    (first : Flow Value × Run)
    → first.0 ≡ Flow.error call_depth
    → (returned_flow first).0 ≡ Flow.error call_depth
returned_flow-limited (Flow.value v, after) h = cc
returned_flow-limited (Flow.error e, after) h = h
returned_flow-limited (Flow.exit v x, after) h = cc

returned-Within : {m n : M Value} → Within m n → Within (returned m) (returned n)
unfolding returned
returned-Within {m = m} {n = n} h s = elim (h s) [
  | inl limited ↦ inl (returned_flow-limited (m s) limited)
  | inr agree ↦ inr (ap returned_flow agree)
]

pub choose-Within :
    {A : Type 0} (b : Bool) {m n m' n' : M A}
    → Within m n
    → Within m' n'
    → Within (if b then m else m') (if b then n else n')
choose-Within true h h' = h
choose-Within false h h' = h'

pub unless_chained-Within :
    (b : Bool) {m n : M Value} → Within m n → Within (unless_chained b m) (unless_chained b n)
unless_chained-Within true h = h
unless_chained-Within false h = entered-Within h

pub negated-Within :
    (operator : UnaryOperator) (literal : Option ℤ) {m n : M Value}
    → Within m n
    → Within (negated operator literal m) (negated operator literal n)
negated-Within UnaryOperator.negate (some n) h = same-Within _
negated-Within UnaryOperator.negate none h = then-Within h (λ v. same-Within _)
negated-Within UnaryOperator.negation literal h = then-Within h (λ v. same-Within _)

pub arm_or-Within :
    (found : Result (Option Environment)) {f g : Environment → M Value} {m n : M Value}
    → ((bound : Environment) → Within (f bound) (g bound))
    → Within m n
    → Within (arm_or found f m) (arm_or found g n)
arm_or-Within (Result.err e) hf h = same-Within _
arm_or-Within (Result.ok none) hf h = h
arm_or-Within (Result.ok (some bound)) hf h = hf bound

pub binary-Within :
    (operator : BinaryOperator) (v : Value) {m n : M Value}
    → Within m n
    → Within (binary operator v m) (binary operator v n)
unfolding binary
binary-Within (BinaryOperator.strict operator) v h = then-Within h (λ w. same-Within _)
binary-Within BinaryOperator.logical_and v h =
    then-Within (same-Within (lift (expect_boolean v)))
      (λ b. choose-Within b (then-Within h (λ w. same-Within _)) (same-Within _))
binary-Within BinaryOperator.logical_or v h =
    then-Within (same-Within (lift (expect_boolean v)))
      (λ b. choose-Within b (same-Within _) (then-Within h (λ w. same-Within _)))

pub let_else-Within :
    (pattern arm : VariantPattern) (parts : Option (VariantName × Option Value)) (env : Environment)
    {f g : Environment → M Value}
    → ((bound : Environment) → Within (f bound) (g bound))
    → Within (let_else pattern arm parts env f) (let_else pattern arm parts env g)
unfolding let_else
let_else-Within pattern arm none env h = same-Within _
let_else-Within pattern arm (some (name, payload)) env h =
    choose-Within (same_name name pattern.variant) (same-Within _) (
      choose-Within (same_name name arm.variant)
        (then-Within (h (bind_payload arm.binding payload env)) (λ v. same-Within _))
        (same-Within _))

module _ (outside : Outside) (body body' : Block → Environment → M Value)
    (body-Within : (b : Block) (env : Environment) → Within (body b env) (body' b env)) where
  pub call_value-Within :
      (v : Value) (count : ℕ) {m n : M Values}
      → Within m n
      → Within (call_value outside body v count m) (call_value outside body' v count n)
  unfolding call_value call_function call_builtin
  call_value-Within (Value.function name parameters b env) count h =
      choose-Within (not (count == length parameters)) (same-Within _)
        (then-Within h (λ vs. returned-Within (body-Within b _)))
  call_value-Within (Value.builtin f) count h =
      choose-Within (not (count == builtin_arity f)) (same-Within _)
        (then-Within h (λ vs. same-Within _))
  call_value-Within v count h = same-Within _
