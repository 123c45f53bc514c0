-- ===== src/Evaluator/LibraryResults.antt =====
-- crates/krit/src/evaluator.rs: the built-in functions and named construction answer with sound values.
use krit.Base.{
  ℕ, ◌≡◌, refl, subst, Bool, Option, none, some, List, [], ◌∷◌, if◌then◌else◌, Bool-cases, inl, inr,
  length, is_empty,
}
use krit.Base.Int.{ℤ, pos}
use Prim.Native.String.{String}
use krit.Diagnostic.{Diagnostic, Result, >>=-eq-ok, ok_injective}
use krit.Patterns.{VariantName}
use krit.Syntax.{ContractRecord}
use krit.Value.{
  Value, Values, nil, Fields, end, BuiltinFunction, str, integer, new_list, new_record, new_variant,
  in_i64, same_text,
}
use krit.Value.Depth.{IsSound, AreSound, FieldsAreSound}
use krit.RequestTarget.Encoding.{Encoded, encode_path_segment}
use krit.Evaluator.Operators.{expect_string, expect_integer}
use krit.Evaluator.Builtins.{url_query, url_pairs}
use krit.Evaluator.Json.{
  Json, Items, Members, no_items, no_members, json_to_value, items_to_values, members_to_fields,
  value_to_json, single, variant_of_key,
}
use krit.Evaluator.Contracts.{
  value_or_default, ContractField, FieldDefault, written_value, field_or_default, contract_values,
  constructed, contract_fields,
}
use krit.Evaluator.Library.{
  first, pure_builtin, json_encode, json_decode, decoded_json, text_or, segment_value,
  url_path_segment, text_test,
}
use krit.Evaluator.Machine.{Outside}
use krit.Evaluator.Results.{
  Sound, ok-Sound, err-Sound, then-Sound, new_list-Sound, new_record-Sound, new_variant-Sound,
  boolean-Sound, checked-Sound, some_injective,
}

text-Sound : (s : List ℕ) → Sound (Result.ok (str s))
unfolding IsSound
text-Sound s = ok-Sound (str s) tt

single-Sound :
    (variant : Option VariantName) (name : String) (j : Json) (decoded : Result Value)
    → Sound decoded
    → Sound (single variant name j decoded)
unfolding IsSound
single-Sound none name j decoded sound =
    then-Sound decoded (λ v. new_record (Fields.field name v end))
      (λ v is. new_record-Sound (Fields.field name v end) (sound v is, tt))
single-Sound (some VariantName.none) name Json.null decoded sound =
    ok-Sound (Value.bare VariantName.none) tt
single-Sound (some VariantName.none) name j decoded sound = err-Sound Diagnostic.json_decoding
single-Sound (some variant) name j decoded sound =
    then-Sound decoded (new_variant variant) (λ v is. new_variant-Sound variant v (sound v is))

integer-Sound :
    (n : ℤ)
    → Sound (if in_i64 n then Result.ok (integer n) else Result.err Diagnostic.json_decoding)
unfolding IsSound
integer-Sound n = elim (Bool-cases (in_i64 n)) [
  | inl inside ↦ rw inside (ok-Sound (integer n) inside)
  | inr beyond ↦ rw beyond (err-Sound Diagnostic.json_decoding)
]

mutual
  unfolding json_to_value IsSound

  json_to_value-Sound : (j : Json) → Sound (json_to_value j)
  json_to_value-Sound Json.null = ok-Sound Value.unit tt
  json_to_value-Sound (Json.bool b) = boolean-Sound b
  json_to_value-Sound (Json.integer n) = integer-Sound n
  json_to_value-Sound Json.float = err-Sound Diagnostic.json_decoding
  json_to_value-Sound (Json.text s) = text-Sound s
  json_to_value-Sound (Json.array items) =
      then-Sound (items_to_values items) new_list
        (λ vs is. new_list-Sound vs (items_to_values-AreSound items vs is))
  json_to_value-Sound (Json.object no_members) =
      then-Sound (members_to_fields no_members) new_record
        (λ fs is. new_record-Sound fs (members_to_fields-AreSound no_members fs is))
  json_to_value-Sound (Json.object (Members.member name j no_members)) =
      single-Sound (variant_of_key name) name j (json_to_value j) (json_to_value-Sound j)
  json_to_value-Sound (Json.object (Members.member name j (Members.member other k members))) =
      then-Sound (members_to_fields (Members.member name j (Members.member other k members)))
        new_record
        (λ fs is. new_record-Sound fs (
          members_to_fields-AreSound (Members.member name j (Members.member other k members)) fs
            is))

  items_to_values-AreSound :
      (items : Items) (vs : Values) → items_to_values items ≡ Result.ok vs → AreSound vs
  items_to_values-AreSound no_items vs h = subst AreSound (ok_injective h) tt
  items_to_values-AreSound (Items.item j items) vs h =
      let (v, is_v, h1) = >>=-eq-ok (json_to_value j) _ h in
      let (rest, is_rest, h2) = >>=-eq-ok (items_to_values items) _ h1 in
      subst AreSound (ok_injective h2)
        (json_to_value-Sound j v is_v, items_to_values-AreSound items rest is_rest)

  members_to_fields-AreSound :
      (members : Members) (fs : Fields)
      → members_to_fields members ≡ Result.ok fs
      → FieldsAreSound fs
  members_to_fields-AreSound no_members fs h = subst FieldsAreSound (ok_injective h) tt
  members_to_fields-AreSound (Members.member name j members) fs h =
      let (v, is_v, h1) = >>=-eq-ok (json_to_value j) _ h in
      let (rest, is_rest, h2) = >>=-eq-ok (members_to_fields members) _ h1 in
      subst FieldsAreSound (ok_injective h2)
        (json_to_value-Sound j v is_v, members_to_fields-AreSound members rest is_rest)

text_or-Sound : (e : Diagnostic) (found : Option (List ℕ)) → Sound (text_or e found)
text_or-Sound e none = err-Sound e
text_or-Sound e (some s) = text-Sound s

decoded_json-Sound : (found : Option Json) → Sound (decoded_json found)
unfolding decoded_json
decoded_json-Sound none = err-Sound Diagnostic.json_decoding
decoded_json-Sound (some j) = json_to_value-Sound j

segment_value-Sound : (encoded : Encoded) → Sound (segment_value encoded)
unfolding segment_value IsSound
segment_value-Sound (Encoded.ok segment) = new_variant-Sound VariantName.ok (str segment) tt
segment_value-Sound (Encoded.err e) = new_variant-Sound VariantName.err (str _) tt

url_query-Sound : (v : Value) → Sound (url_query v)
unfolding url_query
url_query-Sound (Value.list entries d) = then-Sound (url_pairs entries) _ (λ pairs is. text-Sound _)
url_query-Sound v = err-Sound Diagnostic.wrong_kind

text_test-Sound : (test : List ℕ → List ℕ → Bool) (vs : Values) → Sound (text_test test vs)
text_test-Sound test vs =
    then-Sound (expect_string (first vs)) _
      (λ s is. then-Sound (expect_string _) _ (λ part is'. boolean-Sound (test s part)))

first-IsSound : (vs : Values) → AreSound vs → IsSound (first vs)
unfolding IsSound
first-IsSound nil h = tt
first-IsSound (Values.cons v vs) h = h.0

pub pure_builtin-Sound :
    (outside : Outside) (f : BuiltinFunction) (vs : Values)
    → AreSound vs
    → Sound (pure_builtin outside f vs)
unfolding pure_builtin json_encode json_decode url_path_segment
pure_builtin-Sound outside BuiltinFunction.some vs h =
    new_variant-Sound VariantName.some (first vs) (first-IsSound vs h)
pure_builtin-Sound outside BuiltinFunction.ok vs h =
    new_variant-Sound VariantName.ok (first vs) (first-IsSound vs h)
pure_builtin-Sound outside BuiltinFunction.err vs h =
    new_variant-Sound VariantName.err (first vs) (first-IsSound vs h)
pure_builtin-Sound outside BuiltinFunction.json_encode vs h =
    then-Sound (value_to_json (first vs)) _ (λ j is. text_or-Sound _ (outside.json_text j))
pure_builtin-Sound outside BuiltinFunction.json_decode vs h =
    then-Sound (expect_string (first vs)) _ (λ s is. decoded_json-Sound (outside.json_read s))
pure_builtin-Sound outside BuiltinFunction.int_to_string vs h =
    then-Sound (expect_integer (first vs)) _ (λ n is. text-Sound _)
pure_builtin-Sound outside BuiltinFunction.url_path_segment vs h =
    then-Sound (expect_string (first vs)) _ (λ s is. segment_value-Sound (encode_path_segment s))
pure_builtin-Sound outside BuiltinFunction.url_query vs h = url_query-Sound (first vs)
pure_builtin-Sound outside BuiltinFunction.string_byte_len vs h =
    then-Sound (expect_string (first vs)) _ (λ s is. checked-Sound (pos (length s)))
pure_builtin-Sound outside BuiltinFunction.string_is_empty vs h =
    then-Sound (expect_string (first vs)) _ (λ s is. boolean-Sound (is_empty s))
pure_builtin-Sound outside BuiltinFunction.string_contains vs h = text_test-Sound _ vs
pure_builtin-Sound outside BuiltinFunction.string_starts_with vs h = text_test-Sound _ vs
pure_builtin-Sound outside BuiltinFunction.string_ends_with vs h = text_test-Sound _ vs
pure_builtin-Sound outside f vs h = err-Sound Diagnostic.unavailable_builtin

written_value-IsSound :
    (name : String) (fs : Fields) (w : Value)
    → FieldsAreSound fs
    → written_value name fs ≡ some w
    → IsSound w
unfolding written_value IsSound
written_value-IsSound name end w sound h = absurd cc
written_value-IsSound name (Fields.field other v fs) w sound h =
    let rest = written_value-IsSound name fs w sound.1 in
    elim (Bool-cases (same_text other name)) [
      | inl same ↦ subst IsSound (some_injective (rw same at h)) sound.0
      | inr apart ↦ rest (rw apart at h)
    ]

value_or_default-Sound :
    (found : Option Value) (default : Option FieldDefault)
    → ((w : Value) → found ≡ some w → IsSound w)
    → Sound (value_or_default found default)
unfolding IsSound
value_or_default-Sound (some v) default h = ok-Sound v (h v refl)
value_or_default-Sound none (some FieldDefault.empty_string) h = text-Sound []
value_or_default-Sound none (some FieldDefault.empty_list) h = new_list-Sound nil tt
value_or_default-Sound none none h = err-Sound Diagnostic.missing_contract_field

contract_values-AreSound :
    (fields : List ContractField) (fs made : Fields)
    → FieldsAreSound fs
    → contract_values fields fs ≡ Result.ok made
    → FieldsAreSound made
unfolding contract_values field_or_default IsSound
contract_values-AreSound [] fs made sound h = subst FieldsAreSound (ok_injective h) tt
contract_values-AreSound (field ∷ fields) fs made sound h =
    let (v, is_v, h1) = >>=-eq-ok (field_or_default field fs) _ h in
    let (rest, is_rest, h2) = >>=-eq-ok (contract_values fields fs) _ h1 in
    subst FieldsAreSound (ok_injective h2) (
      value_or_default-Sound (written_value field.name fs) field.default
          (λ w. written_value-IsSound field.name fs w sound) v is_v,
      contract_values-AreSound fields fs rest sound is_rest,
    )

pub constructed-Sound :
    (contract : ContractRecord) (fs : Fields) → FieldsAreSound fs → Sound (constructed contract fs)
unfolding constructed
constructed-Sound contract fs sound =
    then-Sound (contract_values (contract_fields contract) fs) new_record (λ made is.
      new_record-Sound made (contract_values-AreSound (contract_fields contract) fs made sound is))
