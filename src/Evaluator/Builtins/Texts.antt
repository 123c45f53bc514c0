-- ===== src/Evaluator/Builtins/Texts.antt =====
-- crates/krit/src/evaluator.rs: what `url_query` builds, the host sends.
use krit.Base.{◌∙◌, ℕ, ◌≡◌, subst, true, some, List, All, Bool-cases, Option-cases, inl, inr}
use krit.Diagnostic.{Diagnostic, Result, >>=-eq-ok, ok_injective}
use krit.Value.{Value, Values, nil, Fields, end, str, same_text}
use krit.RequestTarget.{is_valid_query}
use krit.RequestTarget.Encoding.{encode_query}
use krit.RequestTarget.Query.{is_valid_query-encode_query, AreBytes}
use krit.RequestTarget.Decoding.{IsByte}
use krit.Evaluator.Equality.{find_field, field_value}
use krit.Evaluator.Operators.{expect_string}
use krit.Evaluator.Builtins.{url_pairs, url_query}
use Prim.Native.String.{String}

-- Every string of a value is a list of bytes.
unfoldable mutual
  pub AreTexts : Value → Type 0
  AreTexts (str s) = All IsByte s
  AreTexts (Value.list vs d) = ValuesAreTexts vs
  AreTexts (Value.record_of fs d) = FieldsAreTexts fs
  AreTexts (Value.variant name v d) = AreTexts v
  AreTexts _ = Unit

  pub ValuesAreTexts : Values → Type 0
  ValuesAreTexts nil = Unit
  ValuesAreTexts (Values.cons v vs) = AreTexts v × ValuesAreTexts vs

  pub FieldsAreTexts : Fields → Type 0
  FieldsAreTexts end = Unit
  FieldsAreTexts (Fields.field name v fs) = AreTexts v × FieldsAreTexts fs

some_injective : {v w : Value} → some v ≡ some w → v ≡ w
some_injective h = cc

err_ok : {w : Value} {e : Diagnostic} → Result.err e ≡ Result.ok w → ⊥
err_ok h = cc

some_of : {v w : Value} → Result.ok v ≡ Result.ok w → some v ≡ some w
some_of h = cc

str_injective : {s t : List ℕ} → str s ≡ str t → s ≡ t
str_injective h = cc

find_field-AreTexts :
    (name : String) (fs : Fields) (w : Value)
    → FieldsAreTexts fs
    → find_field name fs ≡ some w
    → AreTexts w
unfolding find_field AreTexts
find_field-AreTexts name end w texts h = absurd cc
find_field-AreTexts name (Fields.field other v fs) w texts h =
    let rest = find_field-AreTexts name fs w texts.1 in
    elim (Bool-cases (same_text name other)) [
      | inl same ↦ subst AreTexts (some_injective (rw same at h)) texts.0
      | inr apart ↦ rest (rw apart at h)
    ]

field_value-AreTexts :
    (v : Value) (name : String) (w : Value)
    → AreTexts v
    → field_value v name ≡ Result.ok w
    → AreTexts w
unfolding field_value AreTexts
field_value-AreTexts (Value.record_of fs d) name w texts h =
    elim (Option-cases (find_field name fs)) [
      | inl absent ↦ absurd (err_ok (rw (field_value, absent) at h))
      | inr (v, found) ↦
          find_field-AreTexts name fs w texts (found ∙ some_of (rw (field_value, found) at h))
    ]
field_value-AreTexts v name w texts h = absurd cc

expect_string-AreTexts :
    (v : Value) (s : List ℕ) → AreTexts v → expect_string v ≡ Result.ok s → All IsByte s
unfolding expect_string AreTexts
expect_string-AreTexts (str t) s texts h = subst (All IsByte) (ok_injective h) texts
expect_string-AreTexts v s texts h = absurd cc

-- A named string of a record.
named_string :
    (v : Value) (name : String) (w : Value) (s : List ℕ)
    → AreTexts v
    → field_value v name ≡ Result.ok w
    → expect_string w ≡ Result.ok s
    → All IsByte s
named_string v name w s texts found is =
    expect_string-AreTexts w s (field_value-AreTexts v name w texts found) is

url_pairs-AreBytes :
    (entries : Values) (pairs : List (List ℕ × List ℕ))
    → ValuesAreTexts entries
    → url_pairs entries ≡ Result.ok pairs
    → All AreBytes pairs
unfolding url_pairs AreTexts
url_pairs-AreBytes nil pairs texts h = subst (All AreBytes) (ok_injective h) tt
url_pairs-AreBytes (Values.cons entry entries) pairs texts h =
    let (named, found_name, h1) = >>=-eq-ok (field_value entry "name") _ h in
    let (name, is_name, h2) = >>=-eq-ok (expect_string named) _ h1 in
    let (valued, found_value, h3) = >>=-eq-ok (field_value entry "value") _ h2 in
    let (value, is_value, h4) = >>=-eq-ok (expect_string valued) _ h3 in
    let (rest, is_rest, h5) = >>=-eq-ok (url_pairs entries) _ h4 in
    let below = url_pairs-AreBytes entries rest texts.1 is_rest in
    subst (All AreBytes) (ok_injective h5) (
      (
        named_string entry "name" named name texts.0 found_name is_name,
        named_string entry "value" valued value texts.0 found_value is_value,
      ),
      below,
    )

-- A query that the built-in `url_query` answers, for a value whose strings are lists of bytes, is one
-- that the host's rule for queries accepts.
pub is_valid_query-url_query :
    (v : Value) (query : List ℕ)
    → AreTexts v
    → url_query v ≡ Result.ok (str query)
    → is_valid_query query ≡ true
unfolding url_query AreTexts
is_valid_query-url_query (Value.list entries d) query texts h =
    let (pairs, is_pairs, done) = >>=-eq-ok (url_pairs entries) _ h in
    let same : encode_query pairs ≡ query = str_injective (ok_injective done) in
    subst (λ q. is_valid_query q ≡ true) same
      (is_valid_query-encode_query pairs (url_pairs-AreBytes entries pairs texts is_pairs))
is_valid_query-url_query v query texts h = absurd cc
