-- ===== src/Cache/Text.antt =====
-- Texts of the cache: a `String` as the list of its code points, with its length in UTF-8 bytes and
-- its order. UTF-8 keeps the order of code points, so the order of bytes is that of the lists.
use krit.Base.{
  ℕ, ◌+◌, ◌≡◌, ◌↔◌, refl, Bool, true, false, ◌&&◌, ◌||◌, List, [], ◌∷◌, ltb, leb, ◌==◌,
  if◌then◌else◌, ==_iff, arith,
}
use krit.Cache.Map.{Key}

abbrev pub Text : Type 0
Text = List ℕ

-- `char::len_utf8`
unfoldable pub utf8_width : ℕ → ℕ
utf8_width c = if ltb c 0x80 then 1 else if ltb c 0x800 then 2 else if ltb c 0x10000 then 3 else 4

-- `str::len`
unfoldable pub byte_length : Text → ℕ
unfolding utf8_width
byte_length [] = 0
byte_length (c ∷ text) = utf8_width c + byte_length text

-- `char::is_control`
unfoldable pub is_control : ℕ → Bool
is_control c = ltb c 0x20 || (leb 0x7F c && leb c 0x9F)

unfoldable pub text_eq : Text → Text → Bool
text_eq [] [] = true
text_eq [] (d ∷ t) = false
text_eq (c ∷ s) [] = false
text_eq (c ∷ s) (d ∷ t) = c == d && text_eq s t

unfoldable pub text_lt : Text → Text → Bool
text_lt s [] = false
text_lt [] (d ∷ t) = true
text_lt (c ∷ s) (d ∷ t) = ltb c d || (c == d && text_lt s t)

text_eq-eq : (s t : Text) → text_eq s t ≡ true → s ≡ t
unfolding text_eq
text_eq-eq [] [] h = refl
text_eq-eq [] (d ∷ t) h = cc
text_eq-eq (c ∷ s) [] h = cc
text_eq-eq (c ∷ s) (d ∷ t) h = ground (arith, text_eq-eq s t)

text_eq_self : (s : Text) → text_eq s s ≡ true
unfolding text_eq
text_eq_self [] = refl
text_eq_self (c ∷ s) = ground (arith, text_eq_self s)

pub text_eq_iff : (s t : Text) → (text_eq s t ≡ true) ↔ (s ≡ t)
text_eq_iff s t = (text_eq-eq s t, λ e. rw e (text_eq_self t))

instance abbrev pub text_key : Key Text
text_key = record { beq = text_eq; beq_iff = text_eq_iff }

instance abbrev pub number_key : Key ℕ
number_key = record { beq = ◌==◌; beq_iff = ==_iff }

-- The keys of `by_expiry`: a deadline and a text.
abbrev pub deadline_eq : ℕ × Text → ℕ × Text → Bool
deadline_eq (a, s) (b, t) = a == b && text_eq s t

pub deadline_eq_iff : (x y : ℕ × Text) → (deadline_eq x y ≡ true) ↔ (x ≡ y)
deadline_eq_iff (a, s) (b, t) = ground (arith, text_eq_iff s t)

instance abbrev pub deadline_key : Key (ℕ × Text)
deadline_key = record { beq = deadline_eq; beq_iff = deadline_eq_iff }

abbrev pub deadline_lt : ℕ × Text → ℕ × Text → Bool
deadline_lt (a, s) (b, t) = ltb a b || (a == b && text_lt s t)
