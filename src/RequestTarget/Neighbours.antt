-- ===== src/RequestTarget/Neighbours.antt =====
-- crates/krit-capability/src/request_target.rs: whether the host accepts a built segment does not
-- depend on the segments around it.
use krit.Base.{
  ◌&&◌, ℕ, ◌≡◌, refl, ◌≢◌, ◌∙◌, Bool, true, false, ◌||◌, List, [], ◌∷◌, ◌++◌, ◌==◌, if◌then◌else◌,
  any, any-append, All, arith, &&-eq-true, not-eq-true, sym, ap, not,
}
use krit.RequestTarget.{
  Bytes, starts_with, contains, scheme_mark, is_ascii_control, breaks_shape, has_origin_form_shape,
  refuses_segment, split_slash, cons_first, has_traversal_form, is_origin_form_path,
}
use krit.RequestTarget.Encoding.{percent_encode}
use krit.RequestTarget.Decoding.{IsByte}
use krit.RequestTarget.Written.{
  IsWritten, percent_encode-IsWritten, written_shape, contains-written, split_slash-written,
  written_plain,
}
use krit.RequestTarget.Contract.{percent_encode-ne-nil, path-written, refuses_nil}

-- `str::ends_with('/')`
abbrev pub ends_with_slash : Bytes → Bool
ends_with_slash [] = false
ends_with_slash (c ∷ []) = c == b'/'
ends_with_slash (c ∷ d ∷ path) = ends_with_slash (d ∷ path)

split_slash-cons : (text : Bytes) → (s : Bytes) × (ss : List Bytes) × (split_slash text ≡ s ∷ ss)
unfolding split_slash
split_slash-cons [] = ([], [], refl)
split_slash-cons (c ∷ text) =
    let (s, ss, e) = split_slash-cons text in
    elim (c == b'/')
      as (λ t.
        (s' : Bytes) × (ss' : List Bytes) × ((if t
            then [] ∷ split_slash text
            else cons_first c (split_slash text))
          ≡ s' ∷ ss')) [ true ↦ ([], split_slash text, refl) | false ↦ (c ∷ s, ss, rw e refl) ]

split_slash-append :
    (path rest : Bytes) → split_slash (path ++ b'/' ∷ rest) ≡ split_slash path ++ split_slash rest
unfolding split_slash
split_slash-append [] rest = refl
split_slash-append (c ∷ path) rest =
    let (s, ss, e) = split_slash-cons path in ground (arith, split_slash-append path rest, e)

-- A slash after a path that does not end in one spells no `://`.
contains-join :
    (path rest : Bytes)
    → contains scheme_mark path ≡ false
    → ends_with_slash path ≡ false
    → contains scheme_mark rest ≡ false
    → starts_with (b'/' ∷ []) rest ≡ false
    → contains scheme_mark (path ++ b'/' ∷ rest) ≡ false
unfolding contains starts_with
contains-join [] rest h e k s = k
contains-join (c ∷ []) [] h e k s = ground arith
contains-join (c ∷ []) (r ∷ rest) h e k s = ground arith
contains-join (c ∷ d ∷ []) rest h e k s = ground (arith, contains-join (d ∷ []) rest)
contains-join (c ∷ d ∷ x ∷ path) rest h e k s = ground (arith, contains-join (d ∷ x ∷ path) rest)

-- A path, the written segment and what follows it.
abbrev pub join : Bytes → Bytes → Bytes → Bytes
join prefix segment suffix = prefix ++ b'/' ∷ (segment ++ b'/' ∷ suffix)

any-join :
    (f : ℕ → Bool) (prefix segment suffix : Bytes)
    → f b'/' ≡ false
    → any f prefix ≡ false
    → any f segment ≡ false
    → any f suffix ≡ false
    → any f (join prefix segment suffix) ≡ false
any-join f prefix segment suffix slash p w s = ground (
  arith,
  any-append f prefix (b'/' ∷ (segment ++ b'/' ∷ suffix)),
  any-append f segment (b'/' ∷ suffix),
)

abbrev breaks : ℕ → Bool
breaks byte = is_ascii_control byte || breaks_shape byte

-- What the shape rule says of a path with two bytes or more.
record HasShape (path : Bytes) : Type 0 where
  pub plain : any breaks path ≡ false
  pub no_scheme : contains scheme_mark path ≡ false

shape_parts : (path : Bytes) → has_origin_form_shape path ≡ true → HasShape path
unfolding has_origin_form_shape
shape_parts path h = record { plain = ground arith; no_scheme = ground arith }

first_of_written :
    (segment rest : Bytes)
    → segment ≢ []
    → All IsWritten segment
    → starts_with (b'/' ∷ []) (segment ++ rest) ≡ false
unfolding starts_with
first_of_written [] rest h w = absurd (h refl)
first_of_written (c ∷ segment) rest h w = ground (arith, written_plain c w.0)

contains_tail :
    (c : ℕ) (path : Bytes)
    → contains scheme_mark (c ∷ path) ≡ false
    → contains scheme_mark path ≡ false
unfolding contains
contains_tail c path h = ground arith

no_scheme-join :
    (prefix segment suffix : Bytes)
    → segment ≢ []
    → All IsWritten segment
    → contains scheme_mark prefix ≡ false
    → ends_with_slash prefix ≡ false
    → contains scheme_mark (b'/' ∷ suffix) ≡ false
    → contains scheme_mark (join prefix segment suffix) ≡ false
no_scheme-join prefix segment suffix h w p e s =
    contains-join prefix (segment ++ b'/' ∷ suffix) p e
      (contains-written segment (b'/' ∷ suffix) w ∙ s)
      (first_of_written segment (b'/' ∷ suffix) h w)

slash_plain : breaks b'/' ≡ false
unfolding is_ascii_control
slash_plain = refl

-- The shape rule, of a path whose first two bytes are known.
shape_of_parts :
    (c d : ℕ) (path rest : Bytes)
    → has_origin_form_shape (c ∷ d ∷ path) ≡ true
    → any breaks (c ∷ d ∷ rest) ≡ false
    → contains scheme_mark (c ∷ d ∷ rest) ≡ false
    → has_origin_form_shape (c ∷ d ∷ rest) ≡ true
unfolding has_origin_form_shape starts_with
shape_of_parts c d path rest h plain no_scheme = rw (plain, no_scheme) (ground arith)

shape-join :
    (prefix segment suffix : Bytes)
    → segment ≢ []
    → All IsWritten segment
    → has_origin_form_shape prefix ≡ true
    → ends_with_slash prefix ≡ false
    → has_origin_form_shape (b'/' ∷ suffix) ≡ true
    → has_origin_form_shape (join prefix segment suffix) ≡ true
shape-join [] segment suffix h w p e s = unfold has_origin_form_shape in cc
shape-join (c ∷ []) segment suffix h w p e s = unfold has_origin_form_shape in ground arith
shape-join (c ∷ d ∷ prefix) segment suffix h w p e s =
    let before = shape_parts (c ∷ d ∷ prefix) p in
    let after = shape_parts (b'/' ∷ suffix) s in
    shape_of_parts c d prefix (join prefix segment suffix) p
      (any-join breaks (c ∷ d ∷ prefix) segment suffix slash_plain before.plain
        (written_shape segment w) (ground (arith, after.plain)))
      (no_scheme-join (c ∷ d ∷ prefix) segment suffix h w before.no_scheme e after.no_scheme)

traversal-join :
    (prefix segment suffix : Bytes)
    → All IsWritten segment
    → has_traversal_form (join prefix segment suffix)
      ≡ (has_traversal_form prefix || (refuses_segment segment || has_traversal_form suffix))
unfolding has_traversal_form
traversal-join prefix segment suffix w =
    rw (split_slash-append prefix (segment ++ b'/' ∷ suffix), split_slash-written segment suffix w)
      (any-append refuses_segment (split_slash prefix) (segment ∷ split_slash suffix))

-- A suffix after a slash is as safe as the suffix.
traversal-slash : (suffix : Bytes) → has_traversal_form (b'/' ∷ suffix) ≡ has_traversal_form suffix
unfolding has_traversal_form split_slash
traversal-slash suffix = ap (λ t. t || any refuses_segment (split_slash suffix)) refuses_nil

accepted : (t p s r : Bool) → p ≡ false → s ≡ false → t ≡ (p || (r || s)) → not t ≡ not r
accepted t p s r hp hs e = ground arith

pub origin_parts :
    (path : Bytes)
    → is_origin_form_path path ≡ true
    → (has_origin_form_shape path ≡ true) × (has_traversal_form path ≡ false)
unfolding is_origin_form_path
origin_parts path h =
    let (shape, safe) = &&-eq-true (has_origin_form_shape path) _ h in (shape, not-eq-true _ safe)

origin_of_shape :
    (path : Bytes)
    → has_origin_form_shape path ≡ true
    → is_origin_form_path path ≡ not (has_traversal_form path)
unfolding is_origin_form_path
origin_of_shape path h = ap (λ b. b && not (has_traversal_form path)) h

-- Between a prefix that the host accepts and that does not end in `/`, and a suffix that the host
-- accepts after a `/`, the host accepts the encoding of a text, a list of bytes that is not empty,
-- exactly when it accepts it as the only segment of a path.
pub is_origin_form_path-join :
    (prefix text suffix : Bytes)
    → text ≢ []
    → All IsByte text
    → is_origin_form_path prefix ≡ true
    → ends_with_slash prefix ≡ false
    → is_origin_form_path (b'/' ∷ suffix) ≡ true
    → is_origin_form_path (join prefix (percent_encode text) suffix)
      ≡ is_origin_form_path (b'/' ∷ percent_encode text)
is_origin_form_path-join prefix text suffix h b p e s =
    let w = percent_encode-IsWritten text b in
    let some_byte = percent_encode-ne-nil text h in
    let (p_shape, p_safe) = origin_parts prefix p in
    let (s_shape, s_safe) = origin_parts (b'/' ∷ suffix) s in
    origin_of_shape _ (shape-join prefix (percent_encode text) suffix some_byte w p_shape e s_shape)
    ∙ accepted _ _ _ _ p_safe (sym (traversal-slash suffix) ∙ s_safe)
        (traversal-join prefix (percent_encode text) suffix w)
    ∙ sym (path-written (percent_encode text) some_byte w)
