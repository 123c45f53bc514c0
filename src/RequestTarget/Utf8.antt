-- ===== src/RequestTarget/Utf8.antt =====
-- The UTF-8 encoding, by the table of its well-formed byte sequences: what a Rust `str` holds. The
-- checks of crates/krit-capability/src/request_target.rs rely on it.
use krit.Base.{ℕ, ◌≤◌, ◌<◌, ◌≡◌, refl, Bool, false, ◌||◌, [], ◌∷◌, ◌==◌, any, any_pair, All, arith}
use krit.RequestTarget.{Bytes, is_overlong, holds_overlong_utf8}
use krit.RequestTarget.Decoding.{IsByte}

abbrev pub IsContinuation : ℕ → Type 0
IsContinuation byte = (128 ≤ byte) × (byte ≤ 191)

-- The second byte of a three-byte and of a four-byte sequence, by its lead.
pub record SecondOfThree (lead second : ℕ) : Type 0 where
  pub lead_low : 0xE0 ≤ lead
  pub lead_high : lead ≤ 0xEF
  pub continues : IsContinuation second
  pub shortest : lead ≡ 0xE0 → 0xA0 ≤ second
  pub no_surrogate : lead ≡ 0xED → second ≤ 0x9F

pub record SecondOfFour (lead second : ℕ) : Type 0 where
  pub lead_low : 0xF0 ≤ lead
  pub lead_high : lead ≤ 0xF4
  pub continues : IsContinuation second
  pub shortest : lead ≡ 0xF0 → 0x90 ≤ second
  pub in_range : lead ≡ 0xF4 → second ≤ 0x8F

pub data IsUtf8 : Bytes → Type 0 where
  nil : IsUtf8 []
  one : {a : ℕ} {text : Bytes} → a < 128 → IsUtf8 text → IsUtf8 (a ∷ text)
  two :
      {a b : ℕ} {text : Bytes}
      → 0xC2 ≤ a
      → a ≤ 0xDF
      → IsContinuation b
      → IsUtf8 text
      → IsUtf8 (a ∷ b ∷ text)
  three :
      {a b c : ℕ} {text : Bytes}
      → SecondOfThree a b
      → IsContinuation c
      → IsUtf8 text
      → IsUtf8 (a ∷ b ∷ c ∷ text)
  four :
      {a b c d : ℕ} {text : Bytes}
      → SecondOfFour a b
      → IsContinuation c
      → IsContinuation d
      → IsUtf8 text
      → IsUtf8 (a ∷ b ∷ c ∷ d ∷ text)

pub IsUtf8-IsByte : {text : Bytes} → IsUtf8 text → All IsByte text
IsUtf8-IsByte nil = tt
IsUtf8-IsByte (one a u) = (omega arith, IsUtf8-IsByte u)
IsUtf8-IsByte (two low high b u) = (omega arith, (omega arith, IsUtf8-IsByte u))
IsUtf8-IsByte (three s c u) =
    (omega (arith, s.lead_high), (omega (arith, s.continues.1), (omega arith, IsUtf8-IsByte u)))
IsUtf8-IsByte (four s c d u) = (
  omega (arith, s.lead_high),
  (omega (arith, s.continues.1), (omega arith, (omega arith, IsUtf8-IsByte u))),
)

abbrev is_overlong_lead : ℕ → Bool
is_overlong_lead byte = byte == 0xC0 || byte == 0xC1

no_lead : {text : Bytes} → IsUtf8 text → any is_overlong_lead text ≡ false
no_lead nil = refl
no_lead (one a u) = ground (arith, no_lead u)
no_lead (two low high b u) = ground (arith, no_lead u)
no_lead (three s c u) = ground (arith, s.lead_low, s.continues, no_lead u)
no_lead (four s c d u) = ground (arith, s.lead_low, s.continues, no_lead u)

-- A byte below the leads of three-byte forms begins no overlong pair.
skip :
    (a : ℕ) (text : Bytes)
    → a < 0xE0
    → any_pair is_overlong text ≡ false
    → any_pair is_overlong (a ∷ text) ≡ false
skip a [] low h = refl
skip a (b ∷ text) low h = unfold is_overlong in ground arith

second_of_three : (a b : ℕ) → SecondOfThree a b → is_overlong a b ≡ false
unfolding is_overlong
second_of_three a b s =
    ground (arith, s.lead_low, s.lead_high, s.continues, s.shortest, s.no_surrogate)

second_of_four : (a b : ℕ) → SecondOfFour a b → is_overlong a b ≡ false
unfolding is_overlong
second_of_four a b s = ground (arith, s.lead_low, s.lead_high, s.continues, s.shortest, s.in_range)

no_pair : {text : Bytes} → IsUtf8 text → any_pair is_overlong text ≡ false
no_pair nil = refl
no_pair (one {a} {text} h u) = skip a text (omega arith) (no_pair u)
no_pair (two {a} {b} {text} low high k u) =
    skip a (b ∷ text) (omega arith) (skip b text (omega arith) (no_pair u))
no_pair (three {a} {b} {c} {text} s k u) =
    rw (second_of_three a b s)
      (skip b (c ∷ text) (omega (arith, s.continues)) (skip c text (omega arith) (no_pair u)))
no_pair (four {a} {b} {c} {d} {text} s k l u) = rw (second_of_four a b s) (
    skip b (c ∷ d ∷ text) (omega (arith, s.continues))
      (skip c (d ∷ text) (omega arith) (skip d text (omega arith) (no_pair u))))

-- Well-formed UTF-8 never spells an overlong sequence.
pub IsUtf8-holds_overlong_utf8 : {text : Bytes} → IsUtf8 text → holds_overlong_utf8 text ≡ false
unfolding holds_overlong_utf8
IsUtf8-holds_overlong_utf8 u = rw (no_lead u) (no_pair u)
