-- ===== src/RequestTarget/Query.antt =====
-- crates/krit-capability/src/request_target.rs: every query that `encode_query` builds passes the
-- query rule.
use krit.Base.{
  ℕ, ◌≡◌, refl, true, false, ◌||◌, List, [], ◌∷◌, ◌++◌, ◌==◌, any, All, All-append, arith,
}
use krit.RequestTarget.{Bytes, is_ascii_control, breaks_query, is_valid_query}
use krit.RequestTarget.Encoding.{
  is_unreserved, percent_encode, encode_pair, encode_rest, encode_query,
}
use krit.RequestTarget.Decoding.{IsByte}
use krit.RequestTarget.Written.{IsWritten, percent_encode-IsWritten}

abbrev pub AreBytes : Bytes × Bytes → Type 0
AreBytes (name, value) = All IsByte name × All IsByte value

abbrev IsSendable : ℕ → Type 0
IsSendable byte = ((is_ascii_control byte || breaks_query byte) ≡ false) × ((b'?' == byte) ≡ false)

written-IsSendable : (byte : ℕ) → IsWritten byte → IsSendable byte
unfolding is_unreserved is_ascii_control
written-IsSendable byte h = ground arith

All-map {ℓ κ} :
    {A : Type 0} {P : A → Type ℓ} {Q : A → Type κ} (xs : List A)
    → ((a : A) → P a → Q a)
    → All P xs
    → All Q xs
All-map [] f h = tt
All-map (x ∷ xs) f (h, hs) = (f x h, All-map xs f hs)

encoded-IsSendable : (text : Bytes) → All IsByte text → All IsSendable (percent_encode text)
encoded-IsSendable text h =
    All-map (percent_encode text) written-IsSendable (percent_encode-IsWritten text h)

mark-IsSendable : IsSendable b'='
unfolding is_ascii_control
mark-IsSendable = (refl, refl)

and_IsSendable : IsSendable b'&'
unfolding is_ascii_control
and_IsSendable = (refl, refl)

no_break :
    (query : Bytes)
    → All IsSendable query
    → any (λ byte. is_ascii_control byte || breaks_query byte) query ≡ false
no_break [] h = refl
no_break (c ∷ query) (h, hs) = rw h.0 (no_break query hs)

pair-IsSendable : (pair : Bytes × Bytes) → AreBytes pair → All IsSendable (encode_pair pair)
unfolding encode_pair
pair-IsSendable (name, value) (n, v) =
    All-append IsSendable (percent_encode name) _ (encoded-IsSendable name n)
      (mark-IsSendable, encoded-IsSendable value v)

rest-IsSendable :
    (pairs : List (Bytes × Bytes)) → All AreBytes pairs → All IsSendable (encode_rest pairs)
unfolding encode_rest
rest-IsSendable [] h = tt
rest-IsSendable (pair ∷ pairs) (h, hs) = (
  and_IsSendable,
  All-append IsSendable (encode_pair pair) _ (pair-IsSendable pair h) (rest-IsSendable pairs hs),
)

valid_of_sendable : (query : Bytes) → All IsSendable query → is_valid_query query ≡ true
unfolding is_valid_query
valid_of_sendable [] h = refl
valid_of_sendable (c ∷ query) h = ground (arith, no_break (c ∷ query) h, h.0)

-- Whatever the names and values, which are lists of bytes, the query that `encode_query` builds is one that the host sends.
pub is_valid_query-encode_query :
    (pairs : List (Bytes × Bytes)) → All AreBytes pairs → is_valid_query (encode_query pairs) ≡ true
unfolding encode_query
is_valid_query-encode_query [] h = valid_of_sendable [] tt
is_valid_query-encode_query (pair ∷ pairs) (h, hs) =
    valid_of_sendable (encode_pair pair ++ encode_rest pairs) (
      All-append IsSendable (encode_pair pair) _ (pair-IsSendable pair h)
        (rest-IsSendable pairs hs))
