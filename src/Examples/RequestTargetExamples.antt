-- ===== src/Examples/RequestTargetExamples.antt =====
-- crates/krit-capability/src/request_target.rs at concrete texts.
use krit.Base.{◌≡◌, ◌≢◌, ◌↔◌, refl, true, some, [], ◌∷◌, arith, any, none, if◌then◌else◌}
use krit.RequestTarget.{Bytes, decode_segment, is_origin_form_path, is_valid_query}
use krit.RequestTarget.Encoding.{
  percent_encode, encode_path_segment, ok, encode_query, is_forbidden,
}
use krit.RequestTarget.Decoding.{decode_segment-percent_encode}
use krit.RequestTarget.Utf8.{IsUtf8, one, two, nil}
use krit.RequestTarget.Contract.{encode_path_segment_iff, decode_segment-encode_path_segment}
use krit.RequestTarget.Neighbours.{join, is_origin_form_path-join}
use krit.RequestTarget.Query.{is_valid_query-encode_query}

-- "a é"
abbrev spaced : Bytes
spaced = b'a' ∷ b' ' ∷ 0xC3 ∷ 0xA9 ∷ []

spaced-IsUtf8 : IsUtf8 spaced
spaced-IsUtf8 =
    one (omega arith)
      (one (omega arith) (two (omega arith) (omega arith) (omega arith, omega arith) nil))

-- The same, percent-encoded.
abbrev spaced_segment : Bytes
spaced_segment = b'a' ∷ b'%' ∷ b'2' ∷ b'0' ∷ b'%' ∷ b'C' ∷ b'3' ∷ b'%' ∷ b'A' ∷ b'9' ∷ []

spaced_encodes : encode_path_segment spaced ≡ ok spaced_segment
unfolding encode_path_segment
spaced_encodes = refl

decode_segment-percent_encode_example :
    decode_segment (percent_encode spaced) ≡ (if any is_forbidden spaced then none else some spaced)
decode_segment-percent_encode_example = decode_segment-percent_encode spaced (omega arith)

encode_path_segment_iff_example : (encode_path_segment spaced ≡ ok spaced_segment) ↔ (
    (spaced ≢ [])
    × (is_origin_form_path (b'/' ∷ spaced_segment) ≡ true)
    × (percent_encode spaced ≡ spaced_segment))
encode_path_segment_iff_example = encode_path_segment_iff spaced spaced_segment spaced-IsUtf8

decode_segment-encode_path_segment_example : decode_segment spaced_segment ≡ some spaced
decode_segment-encode_path_segment_example =
    decode_segment-encode_path_segment spaced spaced_segment spaced-IsUtf8 spaced_encodes

-- "/repos", then the segment, then "issues"
abbrev repos : Bytes
repos = b'/' ∷ b'r' ∷ b'e' ∷ b'p' ∷ b'o' ∷ b's' ∷ []

abbrev issues : Bytes
issues = b'i' ∷ b's' ∷ b's' ∷ b'u' ∷ b'e' ∷ b's' ∷ []

repos_safe : is_origin_form_path repos ≡ true
unfolding is_origin_form_path
repos_safe = refl

issues_safe : is_origin_form_path (b'/' ∷ issues) ≡ true
unfolding is_origin_form_path
issues_safe = refl

is_origin_form_path-join_example :
    is_origin_form_path (join repos (percent_encode spaced) issues)
    ≡ is_origin_form_path (b'/' ∷ percent_encode spaced)
is_origin_form_path-join_example =
    is_origin_form_path-join repos spaced issues (λ e. cc) (omega arith) repos_safe refl issues_safe

is_valid_query-encode_query_example :
    is_valid_query (encode_query ((spaced, repos) ∷ (issues, []) ∷ [])) ≡ true
is_valid_query-encode_query_example =
    is_valid_query-encode_query ((spaced, repos) ∷ (issues, []) ∷ []) (omega arith)
