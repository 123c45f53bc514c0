-- ===== src/RequestTarget/Contract.antt =====
-- crates/krit-capability/src/request_target.rs: the contract of `encode_path_segment` with the host
-- rule `is_origin_form_path`.
use krit.Base.{
  ◌≡◌, refl, ap, ◌≢◌, ◌∙◌, ◌↔◌, true, false, not, none, some, [], ◌∷◌, if◌then◌else◌, any, All,
  arith,
}
use krit.RequestTarget.{
  Bytes, has_origin_form_shape, decode_segment, refuses_decoded, refuses_segment, split_slash,
  is_origin_form_path, holds_overlong_utf8, is_some,
}
use krit.RequestTarget.Encoding.{
  encode_byte, percent_encode, is_forbidden, check, encode_path_segment, ok,
}
use krit.RequestTarget.Decoding.{decode_segment-percent_encode}
use krit.RequestTarget.Utf8.{IsUtf8, IsUtf8-IsByte, IsUtf8-holds_overlong_utf8}
use krit.RequestTarget.Written.{
  IsWritten, percent_encode-IsWritten, written_shape, split_slash-written_end, contains-written_end,
  written_plain,
}

refuses_decoded-check :
    (text : Bytes)
    → text ≢ []
    → holds_overlong_utf8 text ≡ false
    → refuses_decoded (if any is_forbidden text then none else some text) ≡ is_some (check text)
unfolding refuses_decoded check
refuses_decoded-check [] h clean = absurd (h refl)
refuses_decoded-check (b ∷ text) h clean = ground (arith, clean)

check-none : (text : Bytes) → check text ≡ none → any is_forbidden text ≡ false
unfolding check
check-none [] h = cc
check-none (b ∷ text) h = ground arith

pub refuses_nil : refuses_segment [] ≡ false
unfolding refuses_segment
refuses_nil = refl

refuses_segment-check :
    (text : Bytes)
    → text ≢ []
    → IsUtf8 text
    → refuses_segment (percent_encode text) ≡ is_some (check text)
unfolding refuses_segment
refuses_segment-check text h u =
    rw (decode_segment-percent_encode text (IsUtf8-IsByte u))
      (refuses_decoded-check text h (IsUtf8-holds_overlong_utf8 u))

pub percent_encode-ne-nil : (text : Bytes) → text ≢ [] → percent_encode text ≢ []
unfolding percent_encode encode_byte
percent_encode-ne-nil [] h = absurd (h refl)
percent_encode-ne-nil (byte ∷ text) h = ground arith

-- A written segment after one slash has the shape of a path.
shape-written :
    (segment : Bytes)
    → segment ≢ []
    → All IsWritten segment
    → has_origin_form_shape (b'/' ∷ segment) ≡ true
unfolding has_origin_form_shape
shape-written [] h w = absurd (h refl)
shape-written (c ∷ segment) h w = ground (
  arith,
  written_plain c w.0,
  written_shape (c ∷ segment) w,
  contains-written_end (c ∷ segment) w,
)

-- A single written segment is refused exactly as `refuses_segment` says.
pub path-written :
    (segment : Bytes)
    → segment ≢ []
    → All IsWritten segment
    → is_origin_form_path (b'/' ∷ segment) ≡ not (refuses_segment segment)
unfolding is_origin_form_path split_slash
path-written segment h w =
    rw (shape-written segment h w, split_slash-written_end segment w) (ground (arith, refuses_nil))

path-check :
    (text : Bytes)
    → text ≢ []
    → IsUtf8 text
    → is_origin_form_path (b'/' ∷ percent_encode text) ≡ not (is_some (check text))
path-check text h u =
    path-written (percent_encode text) (percent_encode-ne-nil text h)
      (percent_encode-IsWritten text (IsUtf8-IsByte u))
    ∙ ap not (refuses_segment-check text h u)

-- For UTF-8 text, `encode_path_segment` returns a segment exactly when the text is not empty and the
-- host accepts its percent-encoding as the one segment of a path, and then it returns that encoding.
pub encode_path_segment_iff :
    (text segment : Bytes)
    → IsUtf8 text
    → (encode_path_segment text ≡ ok segment) ↔ (
        (text ≢ [])
        × (is_origin_form_path (b'/' ∷ segment) ≡ true)
        × (percent_encode text ≡ segment))
unfolding encode_path_segment
encode_path_segment_iff [] segment u = unfold check in (λ e. cc, λ h. absurd (h.0 refl))
encode_path_segment_iff (b ∷ text) segment u =
    let same = path-check (b ∷ text) (λ e. cc) u in
    (λ e. (λ f. cc, ground (arith, same), ground arith), λ h. ground (arith, same, h.1, h.2))

-- The host decodes a segment that `encode_path_segment` answers for UTF-8 text back to that text.
pub decode_segment-encode_path_segment :
    (text segment : Bytes)
    → IsUtf8 text
    → encode_path_segment text ≡ ok segment
    → decode_segment segment ≡ some text
unfolding encode_path_segment
decode_segment-encode_path_segment text segment u e =
    ground (arith, decode_segment-percent_encode text (IsUtf8-IsByte u), check-none text)
