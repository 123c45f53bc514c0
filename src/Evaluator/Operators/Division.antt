-- ===== src/Evaluator/Operators/Division.antt =====
-- crates/krit/src/evaluator.rs: `/` and `%` on integers, against an account of division that does not
-- divide.
use krit.Base.{ℕ, ◌+◌, ◌*◌, ◌/◌, ◌%◌, ◌<◌, ◌≤◌, ◌≡◌, ◌≢◌, true, arith, suc, ltb, false}
use krit.Base.Int.{ℤ, pos, negsuc, pos_part, neg_part, sub_ℕ, ◌+ℤ◌, ◌*ℤ◌}
use krit.Evaluator.Operators.{quotient, remainder_of, magnitude}
use native.Mathlib.Nat.{div-add-mod', zero-add, add-zero}

-- `q` and `r` divide `a` by `b` towards zero: `q * b + r` is `a`, and `r` is nearer to zero than `b` and
-- lies between zero and `a`.
pub record Divides (a b q r : ℤ) : Type 0 where
  pub whole : q *ℤ b +ℤ r ≡ a
  pub below : magnitude r < magnitude b
  pub not_above : pos_part r ≤ pos_part a
  pub not_under : neg_part r ≤ neg_part a

-- Minus a number, known by its parts.
abbrev IsMinus : ℕ → ℤ → Type 0
IsMinus q x = (pos_part x ≡ 0) × (neg_part x ≡ q)

minus : (q : ℕ) → IsMinus q (sub_ℕ 0 q)
minus q = (ground arith, ground arith)

sum_of_parts :
    (u v : ℕ) (c a : ℤ)
    → u + pos_part c + neg_part a ≡ v + neg_part c + pos_part a
    → sub_ℕ (pos_part (sub_ℕ u v) + pos_part c) (neg_part (sub_ℕ u v) + neg_part c) ≡ a
sum_of_parts u v (pos c) (pos n) h = ground arith
sum_of_parts u v (pos c) (negsuc n) h = ground arith
sum_of_parts u v (negsuc c) (pos n) h = ground arith
sum_of_parts u v (negsuc c) (negsuc n) h = ground arith

module _ (n m : ℕ) (nonzero : m ≢ 0) where
  below_m : n % m < m
  below_m = ground arith

  not_above_n : n % m ≤ n
  not_above_n = ground arith

  parts : n / m * m + n % m ≡ n
  parts = div-add-mod' n m

module _ (q r : ℕ) where
  forward : (n m : ℕ) → q * m + r ≡ n → r < m → r ≤ n → Divides (pos n) (pos m) (pos q) (pos r)
  unfolding ◌+ℤ◌ ◌*ℤ◌
  forward n m whole below under = record {
    whole = sum_of_parts (q * m + 0 * 0) (q * 0 + 0 * m) (pos r) (pos n) (ground arith);
    below = ground arith;
    not_above = under;
    not_under = ground arith;
  }

  forward_minus :
      (n k : ℕ) (x : ℤ)
      → IsMinus q x
      → q * suc k + r ≡ n
      → r < suc k
      → r ≤ n
      → Divides (pos n) (negsuc k) x (pos r)
  unfolding ◌+ℤ◌ ◌*ℤ◌
  forward_minus n k x (none_above, q_under) whole below under = record {
    whole =
        sum_of_parts (pos_part x * 0 + neg_part x * suc k) (pos_part x * suc k + neg_part x * 0)
          (pos r) (pos n) (rw (none_above, q_under) (ground arith));
    below = ground arith;
    not_above = under;
    not_under = ground arith;
  }

  backward :
      (n m : ℕ) (x z : ℤ)
      → IsMinus q x
      → IsMinus r z
      → q * m + r ≡ suc n
      → r < m
      → r ≤ suc n
      → Divides (negsuc n) (pos m) x z
  unfolding ◌+ℤ◌ ◌*ℤ◌
  backward n m x z (none_above, q_under) (no_rest_above, r_under) whole below under = record {
    whole =
        sum_of_parts (pos_part x * m + neg_part x * 0) (pos_part x * 0 + neg_part x * m) z
          (negsuc n) (rw (none_above, q_under, no_rest_above, r_under) (ground arith));
    below = rw (no_rest_above, r_under) (ground arith);
    not_above = ground arith;
    not_under = ground arith;
  }

  backward_minus :
      (n k : ℕ) (z : ℤ)
      → IsMinus r z
      → q * suc k + r ≡ suc n
      → r < suc k
      → r ≤ suc n
      → Divides (negsuc n) (negsuc k) (pos q) z
  unfolding ◌+ℤ◌ ◌*ℤ◌
  backward_minus n k z (no_rest_above, r_under) whole below under = record {
    whole =
        sum_of_parts (q * 0 + 0 * suc k) (q * suc k + 0 * 0) z (negsuc n)
          (rw (no_rest_above, r_under) (ground arith));
    below = rw (no_rest_above, r_under) (ground arith);
    not_above = ground arith;
    not_under = ground arith;
  }

pub not_negative : (n : ℕ) → ltb n 0 ≡ false
not_negative n = ground arith

pub negative : (n : ℕ) → ltb 0 (suc n) ≡ true
negative n = ground arith

pub ruleset by_signs = (zero-add, add-zero, not_negative, negative)

pub quotient-Divides : (a b : ℤ) → magnitude b ≢ 0 → Divides a b (quotient a b) (remainder_of a b)
unfolding quotient remainder_of
quotient-Divides (pos n) (pos m) h =
    let nonzero : m ≢ 0 = λ e. h (simp add-zero e) in
    simp by_signs (
      forward (n / m) (n % m) n m (parts n m nonzero) (below_m n m nonzero)
        (not_above_n n m nonzero))
quotient-Divides (pos n) (negsuc k) h =
    let m = suc k in
    let nonzero : m ≢ 0 = λ e. cc in
    simp by_signs (
      forward_minus (n / m) (n % m) n k (sub_ℕ 0 (n / m)) (minus (n / m)) (parts n m nonzero)
        (below_m n m nonzero) (not_above_n n m nonzero))
quotient-Divides (negsuc n) (pos m) h =
    let nonzero : m ≢ 0 = λ e. h (simp add-zero e) in
    simp by_signs (
      backward (suc n / m) (suc n % m) n m (sub_ℕ 0 (suc n / m)) (sub_ℕ 0 (suc n % m))
        (minus (suc n / m)) (minus (suc n % m)) (parts (suc n) m nonzero)
        (below_m (suc n) m nonzero) (not_above_n (suc n) m nonzero))
quotient-Divides (negsuc n) (negsuc k) h =
    let m = suc k in
    let nonzero : m ≢ 0 = λ e. cc in
    simp by_signs (
      backward_minus (suc n / m) (suc n % m) n k (sub_ℕ 0 (suc n % m)) (minus (suc n % m))
        (parts (suc n) m nonzero) (below_m (suc n) m nonzero) (not_above_n (suc n) m nonzero))
