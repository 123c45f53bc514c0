-- ===== src/Evaluator/Operators.antt =====
-- crates/krit/src/evaluator.rs: the operators on evaluated operands. An `i64` is a ℤ within its range.
-- `&&` and `||` return in `Evaluator::binary` and never come to `apply_binary`.
pub mod Range
pub mod Division
pub mod Overflow
use krit.Evaluator.Equality.{value_equal}
use krit.Syntax.{UnaryOperator, StrictOperator}
use krit.Base.{
  ℕ, ◌+◌, ◌/◌, ◌%◌, ◌^◌, Bool, true, false, not, Option, none, some, List, [], ◌∷◌, ◌++◌, ltb, ◌==◌,
  if◌then◌else◌,
}
use krit.Base.Int.{ℤ, pos, negsuc, pos_part, neg_part, sub_ℕ, ◌+ℤ◌, ◌-ℤ◌, ◌*ℤ◌, ltb_ℤ}
use Prim.Native.Nat.{Ordering, compare}
use krit.Diagnostic.{Result, ◌>>=◌, wrong_kind, integer_overflow, division_by_zero}
use krit.Value.{in_i64, Value, integer, boolean, str}

unfoldable pub checked : ℤ → Option ℤ
unfolding in_i64
checked a = if in_i64 a then some a else none

abbrev pub magnitude : ℤ → ℕ
magnitude a = pos_part a + neg_part a

abbrev is_negative : ℤ → Bool
is_negative a = ltb_ℤ a (pos 0)

-- Division rounds towards zero, and the remainder has the sign of the dividend.
unfoldable pub quotient : ℤ → ℤ → ℤ
quotient a b =
    let q = magnitude a / magnitude b in
    if is_negative a
    then (if is_negative b then pos q else sub_ℕ 0 q)
    else (if is_negative b then sub_ℕ 0 q else pos q)

unfoldable pub remainder_of : ℤ → ℤ → ℤ
remainder_of a b = let r = magnitude a % magnitude b in if is_negative a then sub_ℕ 0 r else pos r

-- `i64::checked_div` and `i64::checked_rem`, for a divisor that is not zero: both overflow at
-- `i64::MIN` by -1.
unfoldable pub checked_div : ℤ → ℤ → Option ℤ
unfolding checked quotient
checked_div a b = checked (quotient a b)

unfoldable pub checked_rem : ℤ → ℤ → Option ℤ
unfolding in_i64 quotient remainder_of
checked_rem a b = if in_i64 (quotient a b) then some (remainder_of a b) else none

abbrev pub or_overflow : Option ℤ → Result Value
or_overflow none = Result.err integer_overflow
or_overflow (some c) = Result.ok (integer c)

unfoldable pub expect_boolean : Value → Result Bool
expect_boolean (boolean b) = Result.ok b
expect_boolean v = Result.err wrong_kind

unfoldable pub expect_integer : Value → Result ℤ
expect_integer (integer a) = Result.ok a
expect_integer v = Result.err wrong_kind

unfoldable pub expect_string : Value → Result (List ℕ)
expect_string (str s) = Result.ok s
expect_string v = Result.err wrong_kind

unfoldable pub integer_pair : Value → Value → Result (ℤ × ℤ)
integer_pair (integer a) (integer b) = Result.ok (a, b)
integer_pair v w = Result.err wrong_kind

unfoldable pub checked_integer_operation : Value → Value → (ℤ → ℤ → Option ℤ) → Result Value
unfolding integer_pair
checked_integer_operation v w operation =
    integer_pair v w >>= λ operands. or_overflow (operation operands.0 operands.1)

unfoldable pub compare_bytes : List ℕ → List ℕ → Ordering
compare_bytes [] [] = Ordering.eq
compare_bytes [] (b ∷ t) = Ordering.lt
compare_bytes (a ∷ s) [] = Ordering.gt
compare_bytes (a ∷ s) (b ∷ t) = elim (compare a b) [
  | Ordering.lt ↦ Ordering.lt
  | Ordering.eq ↦ compare_bytes s t
  | Ordering.gt ↦ Ordering.gt
]

abbrev pub compare_ℤ : ℤ → ℤ → Ordering
compare_ℤ a b = compare (pos_part a + neg_part b) (pos_part b + neg_part a)

unfoldable pub compare_values : Value → Value → Result Ordering
unfolding compare_bytes
compare_values (integer a) (integer b) = Result.ok (compare_ℤ a b)
compare_values (str s) (str t) = Result.ok (compare_bytes s t)
compare_values v w = Result.err wrong_kind

abbrev pub is_lt : Ordering → Bool
is_lt Ordering.lt = true
is_lt _ = false

abbrev pub is_gt : Ordering → Bool
is_gt Ordering.gt = true
is_gt _ = false

abbrev pub compared : Value → Value → (Ordering → Bool) → Result Value
compared v w test = compare_values v w >>= λ order. Result.ok (boolean (test order))

abbrev pub divided : Value → Value → (ℤ → ℤ → Option ℤ) → Result Value
divided v w operation = integer_pair v w >>= λ operands.
    if magnitude operands.1 == 0
    then Result.err division_by_zero
    else or_overflow (operation operands.0 operands.1)

unfoldable pub added : Value → Value → Result Value
unfolding checked ◌+ℤ◌
added (integer a) (integer b) = or_overflow (checked (a +ℤ b))
added (str s) (str t) = Result.ok (str (s ++ t))
added v w = Result.err wrong_kind

unfoldable pub apply_binary : StrictOperator → Value → Value → Result Value
unfolding added checked_integer_operation ◌-ℤ◌ ◌*ℤ◌ checked integer_pair checked_div checked_rem
    value_equal compare_values
apply_binary StrictOperator.add v w = added v w
apply_binary StrictOperator.subtract v w = checked_integer_operation v w λ a b. checked (a -ℤ b)
apply_binary StrictOperator.multiply v w = checked_integer_operation v w λ a b. checked (a *ℤ b)
apply_binary StrictOperator.divide v w = divided v w checked_div
apply_binary StrictOperator.remainder v w = divided v w checked_rem
apply_binary StrictOperator.equal v w = value_equal v w >>= λ same. Result.ok (boolean same)
apply_binary StrictOperator.not_equal v w =
    value_equal v w >>= λ same. Result.ok (boolean (not same))
apply_binary StrictOperator.less v w = compared v w is_lt
apply_binary StrictOperator.less_equal v w = compared v w λ order. not (is_gt order)
apply_binary StrictOperator.greater v w = compared v w is_gt
apply_binary StrictOperator.greater_equal v w = compared v w λ order. not (is_lt order)

unfoldable pub apply_unary : UnaryOperator → Value → Result Value
unfolding expect_boolean expect_integer checked ◌-ℤ◌
apply_unary UnaryOperator.negation v = expect_boolean v >>= λ b. Result.ok (boolean (not b))
apply_unary UnaryOperator.negate v = expect_integer v >>= λ a. or_overflow (checked (pos 0 -ℤ a))
