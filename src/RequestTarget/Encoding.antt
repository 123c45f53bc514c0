-- ===== src/RequestTarget/Encoding.antt =====
-- crates/krit-capability/src/request_target.rs: `percent_encode`, `PathSegmentError::check`,
-- `encode_path_segment` and `encode_query`.
use krit.Base.{
  ℕ, ◌+◌, ◌/◌, ◌%◌, Bool, ◌||◌, ◌&&◌, Option, none, some, List, [], ◌∷◌, ◌++◌, ltb, leb, ◌==◌,
  if◌then◌else◌, any,
}
use krit.RequestTarget.{Bytes, is_ascii_control, holds_escape, is_dot_segment}

unfoldable pub is_unreserved : ℕ → Bool
is_unreserved byte =
    (leb b'0' byte && leb byte b'9')
    || (leb b'A' byte && leb byte b'Z')
    || (leb b'a' byte && leb byte b'z')
    || (byte == b'-' || byte == b'.' || byte == b'_' || byte == b'~')

-- The digit at a position of `HEX`.
unfoldable pub hex : ℕ → ℕ
hex digit = if ltb digit 10 then b'0' + digit else 55 + digit

unfoldable pub encode_byte : ℕ → Bytes
unfolding is_unreserved hex
encode_byte byte =
    if is_unreserved byte then byte ∷ [] else b'%' ∷ hex (byte / 16) ∷ hex (byte % 16) ∷ []

-- What `percent_encode` appends to its output.
unfoldable pub percent_encode : Bytes → Bytes
unfolding encode_byte
percent_encode [] = []
percent_encode (byte ∷ text) = encode_byte byte ++ percent_encode text

pub data PathSegmentError : Type 0 where
  empty forbidden_byte escape_like dot_segment : PathSegmentError

pub data Encoded : Type 0 where
  ok : Bytes → Encoded
  err : PathSegmentError → Encoded

unfoldable pub is_forbidden : ℕ → Bool
unfolding is_ascii_control
is_forbidden byte = (byte == b'/' || byte == b'\\') || is_ascii_control byte

-- `PathSegmentError::check`
unfoldable pub check : Bytes → Option PathSegmentError
unfolding is_forbidden holds_escape is_dot_segment
check [] = some empty
check (b ∷ text) =
    if any is_forbidden (b ∷ text)
    then some forbidden_byte
    else if holds_escape (b ∷ text)
    then some escape_like
    else if is_dot_segment (b ∷ text)
    then some dot_segment
    else none

unfoldable pub encode_path_segment : Bytes → Encoded
unfolding check percent_encode
encode_path_segment text = elim (check text) [
  | some error ↦ err error
  | none ↦ ok (percent_encode text)
]

unfoldable pub encode_pair : Bytes × Bytes → Bytes
unfolding percent_encode
encode_pair (name, value) = percent_encode name ++ b'=' ∷ percent_encode value

-- The rounds of the loop after the first, which begin with `&`.
unfoldable pub encode_rest : List (Bytes × Bytes) → Bytes
unfolding encode_pair
encode_rest [] = []
encode_rest (pair ∷ pairs) = b'&' ∷ (encode_pair pair ++ encode_rest pairs)

unfoldable pub encode_query : List (Bytes × Bytes) → Bytes
unfolding encode_pair encode_rest
encode_query [] = []
encode_query (pair ∷ pairs) = encode_pair pair ++ encode_rest pairs
