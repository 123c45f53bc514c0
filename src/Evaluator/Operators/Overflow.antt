-- ===== src/Evaluator/Operators/Overflow.antt =====
-- crates/krit/src/evaluator.rs: when `/` and `%` on integers overflow, and what they answer when not.
use krit.Base.{
  ℕ, zero, suc, ◌+◌, ◌*◌, ◌/◌, ◌%◌, ◌^◌, ◌-◌, ◌<◌, ◌≤◌, ◌≡◌, ◌≢◌, refl, true, false, ◌⊎◌, inl, inr,
  arith, Bool-cases, ◌==◌, ltb, ap,
}
use krit.Base.Int.{ℤ, pos, negsuc, sub_ℕ}
use krit.Syntax.{StrictOperator}
use krit.Value.{in_i64, integer}
use krit.Diagnostic.{Result, integer_overflow, division_by_zero}
use krit.Evaluator.Operators.{
  apply_binary, quotient, remainder_of, magnitude, checked, checked_div, checked_rem,
}
use krit.Evaluator.Operators.Division.{Divides, quotient-Divides, by_signs}
use native.Mathlib.Nat.{div-add-mod', lt_of_le_of_lt, add-zero, le_trans, le_of_lt}

quotient_bound : (n m : ℕ) → m ≢ 0 → n / m ≤ n
quotient_bound n m h = grind arith

twice : (q k r n : ℕ) → q * suc (suc k) + r ≡ n → q + q ≤ n
twice q k r n h = grind arith

half_bound : (n k : ℕ) → n / suc (suc k) + n / suc (suc k) ≤ n
half_bound n k = twice (n / suc (suc k)) k (n % suc (suc k)) n (div-add-mod' n (suc (suc k)))

abbrev pub least_i64 : ℤ
least_i64 = negsuc (2 ^ 63 - 1)

in_i64-minus : (q : ℕ) → q ≤ 2 ^ 63 → in_i64 (sub_ℕ 0 q) ≡ true
unfolding in_i64
in_i64-minus q h = ground arith

in_i64-pos : (q : ℕ) → q < 2 ^ 63 → in_i64 (pos q) ≡ true
unfolding in_i64
in_i64-pos q h = ground arith

magnitude_pos : (n : ℕ) → in_i64 (pos n) ≡ true → n < 2 ^ 63
unfolding in_i64
magnitude_pos n h = ground arith

magnitude_negsuc : (n : ℕ) → in_i64 (negsuc n) ≡ true → suc n ≤ 2 ^ 63
unfolding in_i64
magnitude_negsuc n h = ground arith

by_one : (n : ℕ) → suc n / 1 ≡ suc n
by_one n = omega arith

zero_of_magnitude : (b : ℤ) → magnitude b == 0 ≡ true → b ≡ pos 0
zero_of_magnitude (pos zero) h = refl
zero_of_magnitude (pos (suc n)) h = absurd (ground arith)
zero_of_magnitude (negsuc n) h = absurd (ground arith)

nonzero_magnitude : (b : ℤ) → magnitude b == 0 ≡ false → magnitude b ≢ 0
nonzero_magnitude b h e = ground arith

abbrev Inside : ℤ → ℤ → Type 0
Inside a b =
    ((a ≡ least_i64) × (b ≡ negsuc 0) × (in_i64 (quotient a b) ≡ false))
    ⊎ (in_i64 (quotient a b) ≡ true)

negative_pair : (n k : ℕ) → n < 2 ^ 63 → Inside (negsuc n) (negsuc k)
unfolding quotient in_i64
negative_pair n zero h =
    simp (by_signs, by_one)
      (elim (Bool-cases (ltb (suc n) (2 ^ 63))) [
        | inl inside ↦ inr inside
        | inr beyond ↦ inl (ap negsuc (ground arith), refl, beyond)
      ])
negative_pair n (suc k) h = inr (
    simp by_signs (in_i64-pos (suc n / suc (suc k)) (let p = half_bound (suc n) k in ground arith)))

quotient-Inside : (a b : ℤ) → in_i64 a ≡ true → magnitude b ≢ 0 → Inside a b
unfolding quotient
quotient-Inside (pos n) (pos m) inside h = inr (
    simp by_signs (
      in_i64-pos (n / m)
        (lt_of_le_of_lt (quotient_bound n m (λ e. h (simp add-zero e))) (magnitude_pos n inside))))
quotient-Inside (pos n) (negsuc k) inside h = inr (
    simp by_signs (
      in_i64-minus (n / suc k) (
        let p = quotient_bound n (suc k) (λ e. cc) in
        le_trans p (le_of_lt (magnitude_pos n inside)))))
quotient-Inside (negsuc n) (pos m) inside h = inr (
    simp by_signs (
      in_i64-minus (suc n / m) (
        le_trans (quotient_bound (suc n) m (λ e. h (simp add-zero e)))
          (magnitude_negsuc n inside))))
quotient-Inside (negsuc n) (negsuc k) inside h = negative_pair n k (magnitude_negsuc n inside)

-- What `/` and `%` answer on two integers.
pub data Division (a b : ℤ) : Type 0 where
  by_zero :
      b ≡ pos 0
      → apply_binary StrictOperator.divide (integer a) (integer b) ≡ Result.err division_by_zero
      → apply_binary StrictOperator.remainder (integer a) (integer b) ≡ Result.err division_by_zero
      → Division a b
  overflows :
      a ≡ least_i64
      → b ≡ negsuc 0
      → apply_binary StrictOperator.divide (integer a) (integer b) ≡ Result.err integer_overflow
      → apply_binary StrictOperator.remainder (integer a) (integer b) ≡ Result.err integer_overflow
      → Division a b
  answers :
      (q r : ℤ)
      → apply_binary StrictOperator.divide (integer a) (integer b) ≡ Result.ok (integer q)
      → apply_binary StrictOperator.remainder (integer a) (integer b) ≡ Result.ok (integer r)
      → in_i64 q ≡ true
      → Divides a b q r
      → Division a b

-- On an `i64` and an integer, `/` and `%` both fail with the division by zero when the divisor is 0, and
-- both overflow when the dividend is the least `i64` and the divisor is -1; otherwise they answer with
-- integers q and r of which q is an `i64`, q * divisor + r is the dividend, r is nearer to zero than the
-- divisor, and r lies between zero and the dividend.
pub apply_binary-Division : (a b : ℤ) → in_i64 a ≡ true → Division a b
unfolding apply_binary checked_div checked_rem checked
apply_binary-Division a b inside = elim (Bool-cases (magnitude b == 0)) [
  | inl none_left ↦ by_zero (zero_of_magnitude b none_left) (rw none_left refl) (rw none_left refl)
  | inr some_left ↦ elim (quotient-Inside a b inside (nonzero_magnitude b some_left)) [
    | inl (least, minus_one, beyond) ↦
        overflows least minus_one (rw (some_left, beyond) refl) (rw (some_left, beyond) refl)
    | inr within ↦
        answers (quotient a b) (remainder_of a b) (rw (some_left, within) refl)
          (rw (some_left, within) refl) within
          (quotient-Divides a b (nonzero_magnitude b some_left))
  ]
]
