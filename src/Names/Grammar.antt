-- ===== src/Names/Grammar.antt =====
-- crates/krit-capability/src/lib.rs: the grammar of canonical names, byte after byte.
use krit.Base.{
  ℕ, Bool, true, false, not, ◌&&◌, ◌||◌, List, [], ◌∷◌, all, leb, ◌==◌, length, ◌≡◌, refl, ap, ap₂,
  ◌∙◌, arith,
}
use krit.RequestTarget.{contains, starts_with}
use krit.Names.{is_separator, ends_with_separator, is_name_byte, doubled, is_canonical_name}

-- What may follow a byte: a name ends in no separator, and no separator follows itself.
unfoldable pub may_follow : Bool → ℕ → List ℕ → Bool
may_follow allow_underscore before [] = not (is_separator before)
may_follow allow_underscore before (b ∷ name) =
    is_name_byte allow_underscore b
    && not (is_separator b && b == before)
    && may_follow allow_underscore b name

-- A name: a letter or a digit, and what may follow it.
unfoldable pub is_name : Bool → List ℕ → Bool
unfolding may_follow
is_name allow_underscore [] = false
is_name allow_underscore (b ∷ name) =
    is_name_byte allow_underscore b && not (is_separator b) && may_follow allow_underscore b name

abbrev tail_rules : Bool → ℕ → List ℕ → Bool
tail_rules allow_underscore b name =
    not (ends_with_separator (b ∷ name))
    && not (doubled b'.' (b ∷ name))
    && not (doubled b'-' (b ∷ name))
    && not (doubled b'_' (b ∷ name))
    && all (is_name_byte allow_underscore) name

doubled-cons :
    (c b d : ℕ) (name : List ℕ)
    → doubled c (b ∷ d ∷ name) ≡ ((c == b && c == d) || doubled c (d ∷ name))
unfolding contains starts_with
doubled-cons c b d name = ground arith

doubled-one : (c b : ℕ) → doubled c (b ∷ []) ≡ false
unfolding contains starts_with
doubled-one c b = ground arith

same_separator :
    (b d : ℕ)
    → ((b'.' == b && b'.' == d) || (b'-' == b && b'-' == d) || (b'_' == b && b'_' == d))
      ≡ (is_separator d && d == b)
same_separator b d = ground arith

regroup :
    (x y z e u v w p a : Bool)
    → (not e && not (x || u) && not (y || v) && not (z || w) && (p && a))
      ≡ (p && not (x || y || z) && (not e && not u && not v && not w && a))
regroup x y z true u v w p a = ground arith
regroup x y z false u v w false a = ground arith
regroup x y z false u v w true a = ground arith

may_follow-tail_rules :
    (allow_underscore : Bool) (b : ℕ) (name : List ℕ)
    → tail_rules allow_underscore b name ≡ may_follow allow_underscore b name
unfolding may_follow ends_with_separator
may_follow-tail_rules allow_underscore b [] =
    ground (arith, doubled-one b'.' b, doubled-one b'-' b, doubled-one b'_' b)
may_follow-tail_rules allow_underscore b (d ∷ name) =
    rw (doubled-cons b'.' b d name, doubled-cons b'-' b d name, doubled-cons b'_' b d name)
      (regroup (b'.' == b && b'.' == d) (b'-' == b && b'-' == d) (b'_' == b && b'_' == d)
          (ends_with_separator (d ∷ name)) (doubled b'.' (d ∷ name)) (doubled b'-' (d ∷ name))
          (doubled b'_' (d ∷ name)) (is_name_byte allow_underscore d)
          (all (is_name_byte allow_underscore) name)
        ∙ ap₂ (λ again rest. is_name_byte allow_underscore d && not again && rest)
            (same_separator b d) (may_follow-tail_rules allow_underscore d name))

gather :
    (short s e u v w p a : Bool)
    → (true && short && not s && not e && not u && not v && not w && (p && a))
      ≡ (short && (p && not s && (not e && not u && not v && not w && a)))
gather false s e u v w p a = refl
gather true true e u v w p a = ground arith
gather true false true u v w p a = ground arith
gather true false false u v w p a = ground arith

-- A name is canonical exactly when it has at most 64 bytes and each of them, read from left to right,
-- may stand where it does: the first is a letter or a digit, no separator follows itself, and the last
-- is no separator; an underscore counts as a byte of a name only where it is allowed.
pub is_canonical_name-is_name :
    (name : List ℕ) (allow_underscore : Bool)
    → is_canonical_name name allow_underscore
      ≡ (leb (length name) 64 && is_name allow_underscore name)
unfolding is_canonical_name is_name
is_canonical_name-is_name [] allow_underscore = ground arith
is_canonical_name-is_name (b ∷ name) allow_underscore =
    gather (leb (length (b ∷ name)) 64) (is_separator b) (ends_with_separator (b ∷ name))
      (doubled b'.' (b ∷ name)) (doubled b'-' (b ∷ name)) (doubled b'_' (b ∷ name))
      (is_name_byte allow_underscore b) (all (is_name_byte allow_underscore) name)
    ∙ ap
        (λ rest.
          leb (length (b ∷ name)) 64
          && (is_name_byte allow_underscore b && not (is_separator b) && rest))
        (may_follow-tail_rules allow_underscore b name)
