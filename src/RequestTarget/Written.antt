-- ===== src/RequestTarget/Written.antt =====
-- crates/krit-capability/src/request_target.rs: the bytes that the builders write, and what the host
-- rule's scans make of a text of such bytes.
use krit.Base.{
  ℕ, ◌<◌, ◌/◌, ◌%◌, ◌≡◌, refl, ◌≢◌, true, false, ◌||◌, [], ◌∷◌, ◌++◌, ◌==◌, any, All, All-append,
  Bool-cases, inl, inr, arith,
}
use krit.RequestTarget.{
  Bytes, starts_with, contains, scheme_mark, is_ascii_control, breaks_shape, split_slash,
}
use krit.RequestTarget.Encoding.{is_unreserved, hex, encode_byte, percent_encode}
use krit.RequestTarget.Decoding.{IsByte}

-- The bytes that the builders write: unreserved ones and `%`.
abbrev pub IsWritten : ℕ → Type 0
IsWritten byte = (is_unreserved byte || byte == b'%') ≡ true

hex-IsWritten : (digit : ℕ) → digit < 16 → IsWritten (hex digit)
unfolding hex is_unreserved
hex-IsWritten digit h = ground arith

encode_byte-IsWritten : (byte : ℕ) → IsByte byte → All IsWritten (encode_byte byte)
unfolding encode_byte
encode_byte-IsWritten byte h = elim (Bool-cases (is_unreserved byte)) [
  | inl plain ↦ rw plain (rw plain refl, tt)
  | inr coded ↦ rw coded (
    unfold is_unreserved in refl,
    (hex-IsWritten (byte / 16) (omega arith), (hex-IsWritten (byte % 16) (omega arith), tt)),
  )
]

-- The output of the encoding holds only unreserved bytes and `%`.
pub percent_encode-IsWritten :
    (text : Bytes) → All IsByte text → All IsWritten (percent_encode text)
unfolding percent_encode
percent_encode-IsWritten [] h = tt
percent_encode-IsWritten (byte ∷ text) (h, hs) =
    All-append IsWritten (encode_byte byte) (percent_encode text) (encode_byte-IsWritten byte h)
      (percent_encode-IsWritten text hs)

-- What the host rule asks of one byte.
pub written_plain :
    (byte : ℕ)
    → IsWritten byte
    → ((is_ascii_control byte || breaks_shape byte) ≡ false) × (byte ≢ b'/') × (byte ≢ b':')
unfolding is_unreserved is_ascii_control
written_plain byte h = ground arith

pub written_shape :
    (text : Bytes)
    → All IsWritten text
    → any (λ byte. is_ascii_control byte || breaks_shape byte) text ≡ false
written_shape [] h = refl
written_shape (byte ∷ text) (h, hs) = rw (written_plain byte h).0 (written_shape text hs)

-- A segment that the builders wrote hides no scheme.
pub contains-written :
    (text rest : Bytes)
    → All IsWritten text
    → contains scheme_mark (text ++ rest) ≡ contains scheme_mark rest
unfolding contains starts_with
contains-written [] rest h = refl
contains-written (byte ∷ text) rest (h, hs) =
    ground (arith, written_plain byte h, contains-written text rest hs)

pub split_slash-written :
    (text rest : Bytes)
    → All IsWritten text
    → split_slash (text ++ b'/' ∷ rest) ≡ text ∷ split_slash rest
unfolding split_slash
split_slash-written [] rest h = refl
split_slash-written (byte ∷ text) rest (h, hs) =
    let apart = (written_plain byte h).1 in ground (arith, split_slash-written text rest hs)

pub split_slash-written_end : (text : Bytes) → All IsWritten text → split_slash text ≡ text ∷ []
unfolding split_slash
split_slash-written_end [] h = refl
split_slash-written_end (byte ∷ text) (h, hs) =
    let apart = (written_plain byte h).1 in ground (arith, split_slash-written_end text hs)

pub contains-written_end : (text : Bytes) → All IsWritten text → contains scheme_mark text ≡ false
unfolding contains starts_with
contains-written_end [] h = refl
contains-written_end (byte ∷ text) (h, hs) =
    ground (arith, written_plain byte h, contains-written_end text hs)
