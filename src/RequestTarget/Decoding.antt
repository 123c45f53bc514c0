-- ===== src/RequestTarget/Decoding.antt =====
-- crates/krit-capability/src/request_target.rs: what `decode_segment` makes of `percent_encode`.
use krit.Base.{
  ℕ, ◌+◌, ◌*◌, ◌/◌, ◌%◌, ◌<◌, ◌≡◌, refl, ap, ◌≢◌, ◌∙◌, Bool, true, false, ◌||◌, none, some, [], ◌∷◌,
  ◌++◌, if◌then◌else◌, any, All, Bool-cases, inl, inr, arith,
}
use krit.RequestTarget.{Bytes, hex_digit, decode_escape, is_forbidden_escape, push, decode_segment}
use krit.RequestTarget.Encoding.{is_unreserved, hex, encode_byte, percent_encode, is_forbidden}

abbrev pub IsByte : ℕ → Type 0
IsByte byte = byte < 256

hex_digit-hex : (digit : ℕ) → digit < 16 → hex_digit (hex digit) ≡ some digit
unfolding hex_digit hex
hex_digit-hex digit h = ground arith

decode_escape-hex :
    (byte : ℕ)
    → IsByte byte
    → decode_escape (hex (byte / 16)) (hex (byte % 16))
      ≡ (if is_forbidden_escape byte then none else some byte)
unfolding decode_escape
decode_escape-hex byte h =
    let whole : byte / 16 * 16 + byte % 16 ≡ byte = omega arith in
    rw
      (
        hex_digit-hex (byte / 16) (omega arith),
        hex_digit-hex (byte % 16) (omega arith),
        whole,
        decode_escape,
      )
      refl

pub decode_segment-plain :
    (byte : ℕ) (bytes : Bytes)
    → byte ≢ b'%'
    → decode_segment (byte ∷ bytes) ≡ push (some byte) (decode_segment bytes)
unfolding decode_segment
decode_segment-plain byte [] h = ground arith
decode_segment-plain byte (c ∷ []) h = ground arith
decode_segment-plain byte (c ∷ d ∷ bytes) h = ground arith

decode_segment-escape :
    (h l : ℕ) (bytes : Bytes)
    → decode_segment (b'%' ∷ h ∷ l ∷ bytes) ≡ push (decode_escape h l) (decode_segment bytes)
unfolding decode_segment
decode_segment-escape h l bytes = refl

unreserved_plain :
    (byte : ℕ) → is_unreserved byte ≡ true → (byte ≢ b'%') × (is_forbidden byte ≡ false)
unfolding is_unreserved is_forbidden
unreserved_plain byte h = ground arith

reserved_forbidden :
    (byte : ℕ) → is_unreserved byte ≡ false → is_forbidden_escape byte ≡ is_forbidden byte
unfolding is_unreserved is_forbidden is_forbidden_escape
reserved_forbidden byte h = ground arith

push_tested :
    (bad worse : Bool) (byte : ℕ) (text : Bytes)
    → push (if bad then none else some byte) (if worse then none else some text)
      ≡ (if bad || worse then none else some (byte ∷ text))
push_tested true worse byte text = refl
push_tested false true byte text = refl
push_tested false false byte text = refl

decode_segment-encode_byte :
    (byte : ℕ) (bytes : Bytes)
    → IsByte byte
    → decode_segment (encode_byte byte ++ bytes)
      ≡ push (if is_forbidden byte then none else some byte) (decode_segment bytes)
unfolding encode_byte
decode_segment-encode_byte byte bytes h = elim (Bool-cases (is_unreserved byte)) [
  | inl plain ↦
      let (apart, fine) = unreserved_plain byte plain in
      rw (plain, fine) (decode_segment-plain byte bytes apart)
  | inr coded ↦
      rw (coded, ← reserved_forbidden byte coded, ← decode_escape-hex byte h)
        (decode_segment-escape _ _ bytes)
]

-- Decoding the percent-encoding of a text, a list of bytes, gives back the text, unless it holds `/`,
-- `\` or an ASCII control byte, and then the decoder refuses.
pub decode_segment-percent_encode :
    (text : Bytes)
    → All IsByte text
    → decode_segment (percent_encode text) ≡ (if any is_forbidden text then none else some text)
unfolding percent_encode
decode_segment-percent_encode [] h = unfold decode_segment in refl
decode_segment-percent_encode (byte ∷ text) (h, hs) =
    decode_segment-encode_byte byte (percent_encode text) h
    ∙ ap (push (if is_forbidden byte then none else some byte))
        (decode_segment-percent_encode text hs)
    ∙ push_tested (is_forbidden byte) (any is_forbidden text) byte text
