-- ===== src/Evaluator/CallsGood.antt =====
-- crates/krit/src/evaluator.rs: calls, `?`, let-else and the operators keep what every evaluation
-- keeps, when the evaluations that they are given do.
use krit.Base.{
  ℕ, Bool, true, false, not, Option, none, some, List, [], ◌∷◌, ◌==◌, if◌then◌else◌, length,
}
use Prim.Native.String.{String}
use krit.Diagnostic.{Diagnostic, Result}
use krit.Patterns.{VariantName}
use krit.Syntax.{Block, BinaryOperator, VariantPattern}
use krit.Value.{Value, Values, nil, Environment, extend, BuiltinFunction, boolean}
use krit.Value.Depth.{IsSound, AreSound, ScopeIsSound}
use krit.Evaluator.Equality.{same_name}
use krit.Evaluator.Operators.{apply_binary, expect_boolean}
use krit.Evaluator.Render.{render}
use krit.Evaluator.Library.{builtin_arity, is_available, first, pure_builtin}
use krit.Evaluator.Machine.{Outside, M, ◌>>=◌, lift, pure, fail, write_all, Exit, exit_with}
use krit.Evaluator.Calls.{
  bind_parameters, bind_self, closure, propagate, variant_parts, let_else, bind_payload, binary,
  print_text, apply_builtin, call_builtin, call_function, call_value,
}
use krit.Evaluator.Good.{
  Good, pure-Good, fail-Good, exit_with-Good, lift-Good, then-Good, write_all-Good, returned-Good,
}
use krit.Evaluator.Results.{Sound, apply_binary-Sound}
use krit.Evaluator.LibraryResults.{pure_builtin-Sound}

pub choose-Good :
    {A : Type 0} (P : A → Type 0) (b : Bool) (m n : M A)
    → Good P m
    → Good P n
    → Good P (if b then m else n)
choose-Good P true m n hm hn = hm
choose-Good P false m n hm hn = hn

pub Sound-Good : (r : Result Value) → Sound r → Good IsSound (lift r)
Sound-Good r h = lift-Good IsSound r h

-- A step whose answer is only looked at.
pub look-Good :
    {A B : Type 0} (Q : B → Type 0) (r : Result A) (f : A → M B)
    → ((a : A) → Good Q (f a))
    → Good Q (lift r >>= f)
look-Good {A} Q r f h =
    then-Good {A = A} (λ _. Unit) Q (lift r) f (lift-Good {A = A} (λ _. Unit) r (λ a is. tt))
      (λ a _. h a)

boolean-Good : (b : Bool) → Good IsSound (pure (boolean b))
unfolding IsSound
boolean-Good b = pure-Good IsSound (boolean b) tt

bind_parameters-IsSound :
    (names : List String) (vs : Values) (env : Environment)
    → AreSound vs
    → ScopeIsSound env
    → ScopeIsSound (bind_parameters names vs env)
unfolding bind_parameters IsSound
bind_parameters-IsSound [] vs env hv he = he
bind_parameters-IsSound (name ∷ names) nil env hv he = he
bind_parameters-IsSound (name ∷ names) (Values.cons v vs) env hv he =
    bind_parameters-IsSound names vs (extend name v env) hv.1 (hv.0, he)

bind_self-IsSound :
    (f : Value) (name : Option String) (env : Environment)
    → IsSound f
    → ScopeIsSound env
    → ScopeIsSound (bind_self f name env)
unfolding bind_self IsSound
bind_self-IsSound f none env hf he = he
bind_self-IsSound f (some name) env hf he = (hf, he)

pub propagate-Good : (v : Value) → IsSound v → Good IsSound (propagate v)
unfolding propagate IsSound
propagate-Good (Value.variant VariantName.ok v d) h = pure-Good IsSound v h.1
propagate-Good (Value.variant VariantName.some v d) h = pure-Good IsSound v h.1
propagate-Good (Value.variant VariantName.err v d) h =
    exit_with-Good IsSound (Value.variant VariantName.err v d) Exit.question h
propagate-Good (Value.variant VariantName.none v d) h =
    exit_with-Good IsSound (Value.variant VariantName.none v d) Exit.question h
propagate-Good (Value.bare VariantName.err) h =
    exit_with-Good IsSound (Value.bare VariantName.err) Exit.question h
propagate-Good (Value.bare VariantName.none) h =
    exit_with-Good IsSound (Value.bare VariantName.none) Exit.question h
propagate-Good (Value.bare VariantName.some) h = fail-Good IsSound Diagnostic.wrong_kind
propagate-Good (Value.bare VariantName.ok) h = fail-Good IsSound Diagnostic.wrong_kind
propagate-Good v h = fail-Good IsSound Diagnostic.wrong_kind

abbrev pub PartsAreSound : Option (VariantName × Option Value) → Type 0
PartsAreSound none = Unit
PartsAreSound (some (name, none)) = Unit
PartsAreSound (some (name, some v)) = IsSound v

pub variant_parts-AreSound : (v : Value) → IsSound v → PartsAreSound (variant_parts v)
unfolding variant_parts IsSound
variant_parts-AreSound (Value.bare name) h = tt
variant_parts-AreSound (Value.variant name v d) h = h.1
variant_parts-AreSound v h = tt

bind_payload-IsSound :
    (binding : Option String) (name : VariantName) (payload : Option Value) (env : Environment)
    → PartsAreSound (some (name, payload))
    → ScopeIsSound env
    → ScopeIsSound (bind_payload binding payload env)
unfolding IsSound
bind_payload-IsSound (some binder) name (some v) env h he = (h, he)
bind_payload-IsSound (some binder) name none env h he = he
bind_payload-IsSound none name (some v) env h he = he
bind_payload-IsSound none name none env h he = he

pub let_else-Good :
    (pattern arm : VariantPattern) (parts : Option (VariantName × Option Value)) (env : Environment)
    (arm_value : Environment → M Value)
    → PartsAreSound parts
    → ScopeIsSound env
    → ((bound : Environment) → ScopeIsSound bound → Good IsSound (arm_value bound))
    → Good ScopeIsSound (let_else pattern arm parts env arm_value)
unfolding let_else
let_else-Good pattern arm none env arm_value hp he ha = fail-Good ScopeIsSound Diagnostic.wrong_kind
let_else-Good pattern arm (some (name, payload)) env arm_value hp he ha =
    let bound_arm = bind_payload arm.binding payload env in
    choose-Good ScopeIsSound (same_name name pattern.variant)
      (pure (bind_payload pattern.binding payload env))
      (if same_name name arm.variant
        then (arm_value bound_arm >>= λ v. exit_with v Exit.let_else)
        else fail Diagnostic.wrong_kind)
      (pure-Good ScopeIsSound (bind_payload pattern.binding payload env)
        (bind_payload-IsSound pattern.binding name payload env hp he))
      (choose-Good ScopeIsSound (same_name name arm.variant)
        (arm_value bound_arm >>= λ v. exit_with v Exit.let_else) (fail Diagnostic.wrong_kind)
        (then-Good IsSound ScopeIsSound (arm_value bound_arm) (λ v. exit_with v Exit.let_else)
          (ha bound_arm (bind_payload-IsSound arm.binding name payload env hp he))
          (λ v h. exit_with-Good ScopeIsSound v Exit.let_else h))
        (fail-Good ScopeIsSound Diagnostic.wrong_kind))

-- The right operand of `&&` or `||`.
right-Good :
    (right : M Value)
    → Good IsSound right
    → Good IsSound (right >>= λ w. lift (expect_boolean w) >>= λ c. pure (boolean c))
right-Good right h =
    then-Good IsSound IsSound right (λ w. lift (expect_boolean w) >>= λ c. pure (boolean c)) h
      (λ w hw. look-Good IsSound (expect_boolean w) (λ c. pure (boolean c)) boolean-Good)

pub binary-Good :
    (operator : BinaryOperator) (v : Value) (right : M Value)
    → IsSound v
    → Good IsSound right
    → Good IsSound (binary operator v right)
unfolding binary
binary-Good (BinaryOperator.strict operator) v right hv h =
    then-Good IsSound IsSound right (λ w. lift (apply_binary operator v w)) h
      (λ w hw. Sound-Good (apply_binary operator v w) (apply_binary-Sound operator v w hv hw))
binary-Good BinaryOperator.logical_and v right hv h =
    look-Good IsSound (expect_boolean v) _
      λ b. choose-Good IsSound b _ (pure (boolean false)) (right-Good right h) (boolean-Good false)
binary-Good BinaryOperator.logical_or v right hv h =
    look-Good IsSound (expect_boolean v) _
      λ b. choose-Good IsSound b (pure (boolean true)) _ (boolean-Good true) (right-Good right h)

module _ (outside : Outside) where
  print_text-Good : (s : List ℕ) → Good IsSound (print_text outside s)
  unfolding print_text IsSound
  print_text-Good s =
      then-Good (λ _. Unit) IsSound (write_all outside s) (λ _. pure Value.unit)
        (write_all-Good outside s) (λ _ h. pure-Good IsSound Value.unit tt)

  apply_builtin-Good :
      (f : BuiltinFunction) (vs : Values) → AreSound vs → Good IsSound (apply_builtin outside f vs)
  unfolding apply_builtin
  apply_builtin-Good BuiltinFunction.print vs h = print_text-Good (render outside.quoted (first vs))
  apply_builtin-Good BuiltinFunction.println vs h =
      then-Good (λ _. Unit) IsSound (write_all outside (render outside.quoted (first vs)))
        (λ _. print_text outside (b'\n' ∷ []))
        (write_all-Good outside (render outside.quoted (first vs)))
        (λ _ h. print_text-Good (b'\n' ∷ []))
  apply_builtin-Good f vs h =
      Sound-Good (pure_builtin outside f vs) (pure_builtin-Sound outside f vs h)

  call_builtin-Good :
      (f : BuiltinFunction) (count : ℕ) (arguments : M Values)
      → Good AreSound arguments
      → Good IsSound (call_builtin outside f count arguments)
  unfolding call_builtin
  call_builtin-Good f count arguments h =
      choose-Good IsSound (not (count == builtin_arity f)) (fail Diagnostic.wrong_arity) _
        (fail-Good IsSound Diagnostic.wrong_arity)
        (then-Good AreSound IsSound arguments _ h (λ vs hv.
          choose-Good IsSound (is_available f) (apply_builtin outside f vs)
            (fail Diagnostic.unavailable_builtin) (apply_builtin-Good f vs hv)
            (fail-Good IsSound Diagnostic.unavailable_builtin)))

  module _ (body_of : Block → Environment → M Value)
      (body_of-Good : (b : Block) (env : Environment)
        → ScopeIsSound env
        → Good IsSound (body_of b env)) where
    call_function-Good :
        (name : Option String) (parameters : List String) (body : Block) (env : Environment)
        (count : ℕ) (arguments : M Values)
        → ScopeIsSound env
        → Good AreSound arguments
        → Good IsSound (call_function outside body_of name parameters body env count arguments)
    unfolding call_function IsSound
    call_function-Good name parameters body env count arguments he h =
        choose-Good IsSound (not (count == length parameters)) (fail Diagnostic.wrong_arity) _
          (fail-Good IsSound Diagnostic.wrong_arity)
          (then-Good AreSound IsSound arguments _ h (λ vs hv.
            let scope =
              bind_parameters parameters vs
                (bind_self (closure name parameters body env) name env) in
            returned-Good (body_of body scope) (
              body_of-Good body scope (
                bind_parameters-IsSound parameters vs
                  (bind_self (closure name parameters body env) name env) hv
                  (bind_self-IsSound (closure name parameters body env) name env he he)))))

    pub call_value-Good :
        (v : Value) (count : ℕ) (arguments : M Values)
        → IsSound v
        → Good AreSound arguments
        → Good IsSound (call_value outside body_of v count arguments)
    unfolding call_value IsSound
    call_value-Good (Value.function name parameters body env) count arguments hv h =
        call_function-Good name parameters body env count arguments hv h
    call_value-Good (Value.builtin f) count arguments hv h = call_builtin-Good f count arguments h
    call_value-Good v count arguments hv h = fail-Good IsSound Diagnostic.not_callable
