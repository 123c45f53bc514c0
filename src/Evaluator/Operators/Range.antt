-- ===== src/Evaluator/Operators/Range.antt =====
-- crates/krit/src/evaluator.rs: the operators stay within `i64`.
use krit.Evaluator.Equality.{value_equal}
use Prim.Native.Nat.{Ordering}
use krit.Base.{
  refl, not, Option, Bool, if◌then◌else◌, ◌==◌, ◌≡◌, subst, true, none, some, arith, Bool-cases,
  inl, inr, Option, Bool,
}
use krit.Base.Int.{◌+ℤ◌, ◌-ℤ◌, ◌*ℤ◌, ℤ}
use krit.Syntax.{StrictOperator}
use krit.Value.{in_i64, Value, integer, boolean, str}
use krit.Diagnostic.{Result, >>=-eq-ok, ok_injective, Diagnostic, division_by_zero}
use krit.Evaluator.Operators.{
  apply_binary, added, compared, divided, checked_integer_operation, integer_pair, or_overflow,
  checked_rem, checked_div, quotient, is_lt, is_gt, compare_values, checked, remainder_of,
  magnitude, checked_rem, checked_integer_operation, integer_pair, added, apply_binary, quotient,
  or_overflow, Result, divided, compared, checked_div, boolean, StrictOperator,
}

-- The integer of a value is an `i64`.
abbrev pub Fits : Value → Type 0
Fits (integer a) = in_i64 a ≡ true
Fits v = Unit

abbrev pub Plain : Value → Type 0
Plain (integer a) = in_i64 a ≡ true
Plain (boolean b) = Unit
Plain (str s) = Unit
Plain v = ⊥

some_injective : (a c : ℤ) → some a ≡ some c → a ≡ c
some_injective a c h = cc

none_some : (c : ℤ) → none ≡ some c → ⊥
none_some c h = cc

pub checked-in_i64 : (a c : ℤ) → checked a ≡ some c → in_i64 c ≡ true
unfolding checked
checked-in_i64 a c h = elim (Bool-cases (in_i64 a)) [
  | inl inside ↦ subst (λ x. in_i64 x ≡ true) (some_injective a c (rw inside at h)) inside
  | inr beyond ↦ absurd (none_some c (rw beyond at h))
]

remainder_of-in_i64 :
    (a b : ℤ) → in_i64 b ≡ true → (magnitude b ≡ 0 → ⊥) → in_i64 (remainder_of a b) ≡ true
unfolding remainder_of in_i64
remainder_of-in_i64 a b hb nonzero = ground arith

checked_rem-in_i64 :
    (a b c : ℤ)
    → in_i64 b ≡ true
    → (magnitude b ≡ 0 → ⊥)
    → checked_rem a b ≡ some c
    → in_i64 c ≡ true
unfolding checked_rem
checked_rem-in_i64 a b c hb nonzero h = elim (Bool-cases (in_i64 (quotient a b))) [
  | inl inside ↦
      subst (λ x. in_i64 x ≡ true) (some_injective (remainder_of a b) c (rw inside at h))
        (remainder_of-in_i64 a b hb nonzero)
  | inr beyond ↦ absurd (none_some c (rw beyond at h))
]

pub or_overflow-Plain :
    (o : Option ℤ) (r : Value)
    → ((c : ℤ) → o ≡ some c → in_i64 c ≡ true)
    → or_overflow o ≡ Result.ok r
    → Plain r
or_overflow-Plain none r inside h = absurd cc
or_overflow-Plain (some c) r inside h = subst Plain (ok_injective h) (inside c refl)

boolean-Plain : (b : Bool) (r : Value) → Result.ok (boolean b) ≡ Result.ok r → Plain r
boolean-Plain b r h = subst Plain (ok_injective h) tt

checked_integer_operation-Plain :
    (v w r : Value) (operation : ℤ → ℤ → Option ℤ)
    → ((a b c : ℤ) → operation a b ≡ some c → in_i64 c ≡ true)
    → checked_integer_operation v w operation ≡ Result.ok r
    → Plain r
unfolding checked_integer_operation
checked_integer_operation-Plain v w r operation inside h =
    let ((a, b), both, done) =
      >>=-eq-ok (integer_pair v w) (λ operands. or_overflow (operation operands.0 operands.1)) h in
    or_overflow-Plain (operation a b) r (inside a b) done

integer_pair-right :
    (v w : Value) (a b : ℤ) → integer_pair v w ≡ Result.ok (a, b) → Fits w → in_i64 b ≡ true
unfolding integer_pair
integer_pair-right (integer a') (integer b') a b h fits =
    subst (λ p. in_i64 p.1 ≡ true) (ok_injective h) fits
integer_pair-right v w a b h fits = absurd cc

err_ok : {r : Value} {e : Diagnostic} → Result.err e ≡ Result.ok r → ⊥
err_ok h = cc

divided-Plain :
    (v w r : Value) (operation : ℤ → ℤ → Option ℤ)
    → Fits w
    → ((a b c : ℤ)
        → in_i64 b ≡ true
        → (magnitude b ≡ 0 → ⊥)
        → operation a b ≡ some c
        → in_i64 c ≡ true)
    → divided v w operation ≡ Result.ok r
    → Plain r
divided-Plain v w r operation fits inside h =
    let ((a, b), both, done) =
      >>=-eq-ok (integer_pair v w)
        (λ operands.
          if magnitude operands.1 == 0
          then Result.err division_by_zero
          else or_overflow (operation operands.0 operands.1))
        h in
    elim (Bool-cases (magnitude b == 0)) [
      | inl zero_divisor ↦ absurd (err_ok (rw zero_divisor at done))
      | inr divides ↦
          or_overflow-Plain (operation a b) r
            (λ c. inside a b c (integer_pair-right v w a b both fits) (λ none_left. ground arith))
            (rw divides at done)
    ]

compared-Plain :
    (v w r : Value) (test : Ordering → Bool) → compared v w test ≡ Result.ok r → Plain r
compared-Plain v w r test h =
    let (order, some_order, done) =
      >>=-eq-ok (compare_values v w) (λ order. Result.ok (boolean (test order))) h in
    boolean-Plain (test order) r done

added-Plain : (v w r : Value) → added v w ≡ Result.ok r → Plain r
unfolding added
added-Plain (integer a) (integer b) r h =
    or_overflow-Plain (checked (a +ℤ b)) r (checked-in_i64 (a +ℤ b)) h
added-Plain (str s) (str t) r h = subst Plain (ok_injective h) tt
added-Plain v w r h = absurd cc

-- An operator answers with an `i64`, a boolean or a string.
pub apply_binary-Plain :
    (operator : StrictOperator) (v w r : Value)
    → Fits v
    → Fits w
    → apply_binary operator v w ≡ Result.ok r
    → Plain r
unfolding apply_binary checked_div
apply_binary-Plain StrictOperator.add v w r hv hw h = added-Plain v w r h
apply_binary-Plain StrictOperator.subtract v w r hv hw h =
    checked_integer_operation-Plain v w r (λ a b. checked (a -ℤ b)) (λ a b. checked-in_i64 (a -ℤ b))
      h
apply_binary-Plain StrictOperator.multiply v w r hv hw h =
    checked_integer_operation-Plain v w r (λ a b. checked (a *ℤ b)) (λ a b. checked-in_i64 (a *ℤ b))
      h
apply_binary-Plain StrictOperator.divide v w r hv hw h =
    divided-Plain v w r checked_div hw (λ a b c hb nonzero. checked-in_i64 (quotient a b) c) h
apply_binary-Plain StrictOperator.remainder v w r hv hw h =
    divided-Plain v w r checked_rem hw checked_rem-in_i64 h
apply_binary-Plain StrictOperator.equal v w r hv hw h =
    let (same, answered, done) = >>=-eq-ok (value_equal v w) (λ b. Result.ok (boolean b)) h in
    boolean-Plain same r done
apply_binary-Plain StrictOperator.not_equal v w r hv hw h =
    let (same, answered, done) = >>=-eq-ok (value_equal v w) (λ b. Result.ok (boolean (not b))) h in
    boolean-Plain (not same) r done
apply_binary-Plain StrictOperator.less v w r hv hw h = compared-Plain v w r is_lt h
apply_binary-Plain StrictOperator.less_equal v w r hv hw h =
    compared-Plain v w r (λ order. not (is_gt order)) h
apply_binary-Plain StrictOperator.greater v w r hv hw h = compared-Plain v w r is_gt h
apply_binary-Plain StrictOperator.greater_equal v w r hv hw h =
    compared-Plain v w r (λ order. not (is_lt order)) h
