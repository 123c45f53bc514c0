-- ===== src/RequestTarget.antt =====
-- crates/krit-capability/src/request_target.rs: the host's rule for request paths and queries, and
-- the percent-encoding builders. A text is the list of its UTF-8 bytes.
pub mod Encoding
pub mod Decoding
pub mod Utf8
pub mod Written
pub mod Contract
pub mod Neighbours
pub mod Query
use krit.Base.{
  ℕ, ◌+◌, ◌-◌, ◌*◌, ◌%◌, Bool, true, false, not, ◌&&◌, ◌||◌, Option, none, some, List, [], ◌∷◌, ltb,
  leb, ◌==◌, if◌then◌else◌, any, any_pair,
}
use mathlib.Core.Option

abbrev pub Bytes : Type 0
Bytes = List ℕ

-- `u8::is_ascii_control`
unfoldable pub is_ascii_control : ℕ → Bool
is_ascii_control byte = ltb byte 32 || byte == 127

-- `str::starts_with` on bytes
unfoldable pub starts_with : Bytes → Bytes → Bool
starts_with [] text = true
starts_with (p ∷ pattern_rest) [] = false
starts_with (p ∷ pattern_rest) (c ∷ text) = p == c && starts_with pattern_rest text

-- `str::contains` for a pattern that is not empty
unfoldable pub contains : Bytes → Bytes → Bool
contains needle [] = false
contains needle (c ∷ text) = starts_with needle (c ∷ text) || contains needle text

abbrev pub breaks_shape : ℕ → Bool
breaks_shape byte = byte == b' ' || byte == b'\\' || byte == b'?' || byte == b'#'

abbrev pub scheme_mark : Bytes
scheme_mark = b':' ∷ b'/' ∷ b'/' ∷ []

unfoldable pub has_origin_form_shape : Bytes → Bool
unfolding is_ascii_control starts_with contains
has_origin_form_shape path =
    starts_with (b'/' ∷ []) path
    && not (starts_with (b'/' ∷ b'/' ∷ []) path)
    && not (contains scheme_mark path)
    && not (any (λ byte. is_ascii_control byte || breaks_shape byte) path)

unfoldable pub hex_digit : ℕ → Option ℕ
hex_digit byte =
    if leb b'0' byte && leb byte b'9'
    then some (byte - b'0')
    else if leb b'a' byte && leb byte b'f'
    then some (byte - b'a' + 10)
    else if leb b'A' byte && leb byte b'F'
    then some (byte - b'A' + 10)
    else none

-- The escapes that `decode_segment` refuses.
unfoldable pub is_forbidden_escape : ℕ → Bool
unfolding is_ascii_control
is_forbidden_escape byte = byte == b'.' || byte == b'/' || byte == b'\\' || is_ascii_control byte

-- One `%HH` escape: the byte it spells, unless a digit is missing or the byte is forbidden.
unfoldable pub decode_escape : ℕ → ℕ → Option ℕ
unfolding hex_digit is_forbidden_escape
decode_escape first second = elim (hex_digit first) [
  | none ↦ none
  | some high ↦ elim (hex_digit second) [
    | none ↦ none
    | some low ↦ if is_forbidden_escape (high * 16 + low) then none else some (high * 16 + low)
  ]
]

abbrev pub push : Option ℕ → Option Bytes → Option Bytes
push none decoded = none
push (some byte) decoded = Option.map (◌∷◌ byte) decoded

-- `none` is the result `false`, after which the buffer is not read.
unfoldable pub decode_segment : Bytes → Option Bytes
unfolding decode_escape
decode_segment [] = some []
decode_segment (b ∷ []) = if b == b'%' then none else some (b ∷ [])
decode_segment (b ∷ h ∷ []) =
    let plain = push (some b) (decode_segment (h ∷ [])) in if b == b'%' then none else plain
decode_segment (b ∷ h ∷ l ∷ bytes) =
    let plain = push (some b) (decode_segment (h ∷ l ∷ bytes)) in
    let escape = push (decode_escape h l) (decode_segment bytes) in
    if b == b'%' then escape else plain

-- What an arm of `matches!(byte, b';' | b'?' | b'#')` cuts a segment at.
abbrev pub cuts_segment : ℕ → Bool
cuts_segment byte = byte == b';' || byte == b'?' || byte == b'#'

-- The first part of `slice.split(cuts_segment)`.
unfoldable pub before_cut : Bytes → Bytes
before_cut [] = []
before_cut (b ∷ bytes) = if cuts_segment b then [] else b ∷ before_cut bytes

-- `u8::is_ascii_whitespace`
abbrev pub is_ascii_whitespace : ℕ → Bool
is_ascii_whitespace byte = byte == 32 || byte == 9 || byte == 10 || byte == 12 || byte == 13

unfoldable pub trim_start : Bytes → Bytes
trim_start [] = []
trim_start (b ∷ bytes) =
    let rest = trim_start bytes in if is_ascii_whitespace b then rest else b ∷ bytes

abbrev pub keep_unless_trailing : ℕ → Bytes → Bytes
keep_unless_trailing b [] = if is_ascii_whitespace b then [] else b ∷ []
keep_unless_trailing b (c ∷ rest) = b ∷ c ∷ rest

unfoldable pub trim_end : Bytes → Bytes
trim_end [] = []
trim_end (b ∷ bytes) = keep_unless_trailing b (trim_end bytes)

abbrev pub is_dots : Bytes → Bool
is_dots [] = false
is_dots (a ∷ []) = a == b'.'
is_dots (a ∷ b ∷ []) = a == b'.' && b == b'.'
is_dots (a ∷ b ∷ c ∷ bytes) = false

unfoldable pub is_dot_segment : Bytes → Bool
unfolding before_cut trim_start trim_end
is_dot_segment decoded = is_dots (trim_end (trim_start (before_cut decoded)))

abbrev pub is_some {ℓ} : {A : Type ℓ} → Option A → Bool
is_some none = false
is_some (some n) = true

unfoldable pub begins_escape : ℕ → Bool
unfolding hex_digit
begins_escape byte = is_some (hex_digit byte) || (byte == b'u' || byte == b'U')

unfoldable pub holds_escape : Bytes → Bool
unfolding begins_escape
holds_escape decoded = any_pair (λ first second. first == b'%' && begins_escape second) decoded

-- The lead bytes of three- to six-byte forms, and the least six bits that a second byte may hold.
unfoldable pub is_overlong : ℕ → ℕ → Bool
is_overlong lead second =
    if lead == 0xE0
    then ltb (second % 64) 0x20
    else if lead == 0xF0
    then ltb (second % 64) 0x10
    else if lead == 0xF8
    then ltb (second % 64) 0x08
    else if lead == 0xFC
    then ltb (second % 64) 0x04
    else false

unfoldable pub holds_overlong_utf8 : Bytes → Bool
unfolding is_overlong
holds_overlong_utf8 decoded =
    any (λ byte. byte == 0xC0 || byte == 0xC1) decoded || any_pair is_overlong decoded

abbrev pub cons_first : ℕ → List Bytes → List Bytes
cons_first c [] = (c ∷ []) ∷ []
cons_first c (segment ∷ segments) = (c ∷ segment) ∷ segments

-- `str::split('/')`
unfoldable pub split_slash : Bytes → List Bytes
split_slash [] = [] ∷ []
split_slash (c ∷ text) =
    if c == b'/' then [] ∷ split_slash text else cons_first c (split_slash text)

unfoldable pub refuses_decoded : Option Bytes → Bool
unfolding is_dot_segment holds_escape holds_overlong_utf8
refuses_decoded none = true
refuses_decoded (some decoded) =
    is_dot_segment decoded || (holds_escape decoded || holds_overlong_utf8 decoded)

unfoldable pub refuses_segment : Bytes → Bool
unfolding decode_segment refuses_decoded
refuses_segment segment = refuses_decoded (decode_segment segment)

unfoldable pub has_traversal_form : Bytes → Bool
unfolding split_slash refuses_segment
has_traversal_form path = any refuses_segment (split_slash path)

unfoldable pub is_origin_form_path : Bytes → Bool
unfolding has_origin_form_shape has_traversal_form
is_origin_form_path path = has_origin_form_shape path && not (has_traversal_form path)

abbrev pub breaks_query : ℕ → Bool
breaks_query byte = byte == b' ' || byte == b'#' || byte == b'\\'

unfoldable pub is_valid_query : Bytes → Bool
unfolding starts_with is_ascii_control
is_valid_query query =
    not (starts_with (b'?' ∷ []) query)
    && not (any (λ byte. is_ascii_control byte || breaks_query byte) query)
