-- ===== src/Evaluator/Results.antt =====
-- crates/krit/src/evaluator.rs: from sound values, the functions on values answer with sound values.
use krit.Base.{ℕ, ◌≡◌, refl, sym, subst, Bool, not, Option, none, some, Bool-cases, inl, inr}
use krit.Base.Int.{ℤ, pos, ◌-ℤ◌}
use Prim.Native.String.{String}
use krit.Diagnostic.{Diagnostic, Result, ◌>>=◌, ok_injective}
use krit.Patterns.{VariantName}
use krit.Syntax.{StrictOperator, UnaryOperator, ValueLiteral}
use krit.Value.{
  Value, Values, Fields, Environment, empty, extend, integer, boolean, str, new_list, new_record,
  new_variant, same_text, BuiltinFunction,
}
use krit.Value.Depth.{
  IsSound, AreSound, FieldsAreSound, ScopeIsSound, Builds, new_list-Builds, new_record-Builds,
  new_variant-Builds,
}
use krit.Evaluator.Equality.{find_field, field_value}
use krit.Evaluator.Operators.{
  apply_binary, apply_unary, expect_boolean, expect_integer, checked, or_overflow,
}
use krit.Evaluator.Operators.Range.{
  Fits, Plain, apply_binary-Plain, or_overflow-Plain, checked-in_i64,
}
use krit.Evaluator.Builtins.{negate_literal}
use krit.Evaluator.Library.{
  function_of, bound_or_builtin, environment_lookup, builtin_value, variable_value, find_builtin,
  builtin_table,
}
use krit.Evaluator.Calls.{literal_value}

-- A value that an answer gives is sound.
abbrev pub Sound : Result Value → Type 0
Sound r = (v : Value) → r ≡ Result.ok v → IsSound v

pub some_injective : {v w : Value} → some v ≡ some w → v ≡ w
some_injective h = cc

pub err-Sound : (e : Diagnostic) → Sound (Result.err e)
err-Sound e v h = absurd cc

pub ok-Sound : (v : Value) → IsSound v → Sound (Result.ok v)
ok-Sound v h w same = subst IsSound (ok_injective same) h

Builds-Sound : (r : Result Value) (n : ℕ) → Builds r n → Sound r
Builds-Sound (Result.ok v) n h = ok-Sound v h.0
Builds-Sound (Result.err e) n h = err-Sound e

pub new_list-Sound : (vs : Values) → AreSound vs → Sound (new_list vs)
new_list-Sound vs h = Builds-Sound (new_list vs) _ (new_list-Builds vs h)

pub new_record-Sound : (fs : Fields) → FieldsAreSound fs → Sound (new_record fs)
new_record-Sound fs h = Builds-Sound (new_record fs) _ (new_record-Builds fs h)

pub new_variant-Sound : (name : VariantName) (v : Value) → IsSound v → Sound (new_variant name v)
new_variant-Sound name v h = Builds-Sound (new_variant name v) _ (new_variant-Builds name v h)

pub Plain-IsSound : (v : Value) → Plain v → IsSound v
unfolding IsSound
Plain-IsSound (integer a) h = h
Plain-IsSound (boolean b) h = tt
Plain-IsSound (str s) h = tt
Plain-IsSound v h = absurd h

pub IsSound-Fits : (v : Value) → IsSound v → Fits v
unfolding IsSound
IsSound-Fits (integer a) h = h
IsSound-Fits v h = tt

pub apply_binary-Sound :
    (operator : StrictOperator) (v w : Value)
    → IsSound v
    → IsSound w
    → Sound (apply_binary operator v w)
apply_binary-Sound operator v w hv hw r h =
    Plain-IsSound r (apply_binary-Plain operator v w r (IsSound-Fits v hv) (IsSound-Fits w hw) h)

pub checked-Sound : (a : ℤ) → Sound (or_overflow (checked a))
checked-Sound a r h = Plain-IsSound r (or_overflow-Plain (checked a) r (checked-in_i64 a) h)

pub boolean-Sound : (b : Bool) → Sound (Result.ok (boolean b))
unfolding IsSound
boolean-Sound b = ok-Sound (boolean b) tt

pub then-Sound :
    {A : Type 0} (m : Result A) (f : A → Result Value)
    → ((a : A) → m ≡ Result.ok a → Sound (f a))
    → Sound (m >>= f)
then-Sound (Result.ok a) f h = h a refl
then-Sound (Result.err e) f h = err-Sound e

pub apply_unary-Sound : (operator : UnaryOperator) (v : Value) → Sound (apply_unary operator v)
unfolding apply_unary
apply_unary-Sound UnaryOperator.negation v =
    then-Sound (expect_boolean v) (λ b. Result.ok (boolean (not b))) (λ b h. boolean-Sound (not b))
apply_unary-Sound UnaryOperator.negate v =
    then-Sound (expect_integer v) (λ a. or_overflow (checked (pos 0 -ℤ a)))
      (λ a h. checked-Sound (pos 0 -ℤ a))

pub negate_literal-Sound : (n : ℤ) → Sound (negate_literal n)
unfolding negate_literal
negate_literal-Sound n = checked-Sound (pos 0 -ℤ n)

pub literal_value-Sound : (l : ValueLiteral) → Sound (literal_value l)
unfolding literal_value IsSound
literal_value-Sound (ValueLiteral.integer n) = checked-Sound n
literal_value-Sound (ValueLiteral.boolean b) = boolean-Sound b
literal_value-Sound (ValueLiteral.str s) = ok-Sound (str s) tt

find_field-IsSound :
    (name : String) (fs : Fields) (w : Value)
    → FieldsAreSound fs
    → find_field name fs ≡ some w
    → IsSound w
unfolding find_field IsSound
find_field-IsSound name Fields.end w sound h = absurd cc
find_field-IsSound name (Fields.field other v fs) w sound h =
    let rest = find_field-IsSound name fs w sound.1 in
    elim (Bool-cases (same_text name other)) [
      | inl same ↦ subst IsSound (some_injective (rw same at h)) sound.0
      | inr apart ↦ rest (rw apart at h)
    ]

-- What is found is sound, and what is missing is an error.
found_or_error :
    (found : Option Value) (r : Result Value)
    → ((v : Value) → found ≡ some v → IsSound v × (r ≡ Result.ok v))
    → (found ≡ none → (e : Diagnostic) × (r ≡ Result.err e))
    → Sound r
found_or_error none r hit miss = let (e, same) = miss refl in subst Sound (sym same) (err-Sound e)
found_or_error (some v) r hit miss =
    let (sound, same) = hit v refl in subst Sound (sym same) (ok-Sound v sound)

pub field_value-Sound : (v : Value) (name : String) → IsSound v → Sound (field_value v name)
unfolding field_value IsSound
field_value-Sound (Value.record_of fs d) name sound =
    found_or_error (find_field name fs) (field_value (Value.record_of fs d) name)
      (λ v found. (find_field-IsSound name fs v sound.1 found, rw (field_value, found) refl))
      (λ absent. (Diagnostic.wrong_kind, rw (field_value, absent) refl))
field_value-Sound v name sound = err-Sound Diagnostic.wrong_kind

environment_lookup-IsSound :
    (name : String) (env : Environment) (w : Value)
    → ScopeIsSound env
    → environment_lookup name env ≡ some w
    → IsSound w
unfolding environment_lookup IsSound
environment_lookup-IsSound name empty w sound h = absurd cc
environment_lookup-IsSound name (extend other v env) w sound h =
    let rest = environment_lookup-IsSound name env w sound.1 in
    elim (Bool-cases (same_text other name)) [
      | inl same ↦ subst IsSound (some_injective (rw same at h)) sound.0
      | inr apart ↦ rest (rw apart at h)
    ]

function_of-IsSound :
    (found : Option BuiltinFunction) (w : Value) → function_of found ≡ some w → IsSound w
unfolding IsSound
function_of-IsSound none w h = absurd cc
function_of-IsSound (some f) w h = subst IsSound (some_injective h) tt

builtin_value-IsSound : (name : String) (w : Value) → builtin_value name ≡ some w → IsSound w
unfolding builtin_value IsSound
builtin_value-IsSound name w h = elim (Bool-cases (same_text name "None")) [
  | inl same ↦ subst IsSound (some_injective (rw same at h)) tt
  | inr apart ↦ function_of-IsSound (find_builtin name builtin_table) w (rw apart at h)
]

bound_or_builtin-Sound :
    (bound named : Option Value)
    → ((w : Value) → bound ≡ some w → IsSound w)
    → ((w : Value) → named ≡ some w → IsSound w)
    → Sound (bound_or_builtin bound named)
bound_or_builtin-Sound (some v) named h k = ok-Sound v (h v refl)
bound_or_builtin-Sound none (some v) h k = ok-Sound v (k v refl)
bound_or_builtin-Sound none none h k = err-Sound Diagnostic.undefined_name

pub variable_value-Sound :
    (name : String) (env : Environment) → ScopeIsSound env → Sound (variable_value name env)
unfolding variable_value
variable_value-Sound name env sound =
    bound_or_builtin-Sound (environment_lookup name env) (builtin_value name)
      (λ w. environment_lookup-IsSound name env w sound) (builtin_value-IsSound name)
