-- ===== src/Evaluator/Equality.antt =====
-- crates/krit/src/evaluator.rs: field access and the equality of values.
pub mod Comparable
use krit.Base.{
  ℕ, suc, ◌+◌, ◌/◌, ◌%◌, ◌^◌, Bool, true, false, not, ◌&&◌, ◌||◌, Option, none, some, List, [], ◌∷◌,
  ◌++◌, ltb, ◌==◌, if◌then◌else◌,
}
use krit.Base.Int.{ℤ, pos, negsuc, pos_part, neg_part, sub_ℕ, ◌+ℤ◌, ◌-ℤ◌, ◌*ℤ◌, ltb_ℤ}
use Prim.Native.Nat.{Ordering, compare}
use Prim.Native.String.{String}
use krit.Diagnostic.{Result, ◌>>=◌, wrong_kind, integer_overflow, division_by_zero, not_comparable}
use krit.Patterns.{VariantName, rank, from_variant}
use krit.Value.{
  same_text, Value, Values, nil, Fields, end, integer, boolean, str, contains_function,
}

-- `fields.iter().find(…)`
unfoldable pub find_field : String → Fields → Option Value
find_field name end = none
find_field name (Fields.field other v fs) =
    let rest = find_field name fs in if same_text name other then some v else rest

unfoldable pub field_value : Value → String → Result Value
unfolding find_field
field_value (Value.record_of fs d) name = elim (find_field name fs) [
  | none ↦ Result.err wrong_kind
  | some v ↦ Result.ok v
]
field_value v name = Result.err wrong_kind

unfoldable pub values_count : Values → ℕ
values_count nil = 0
values_count (Values.cons v vs) = suc (values_count vs)

unfoldable pub fields_count : Fields → ℕ
fields_count end = 0
fields_count (Fields.field name v fs) = suc (fields_count fs)

unfoldable pub bytes_eq : List ℕ → List ℕ → Bool
bytes_eq [] [] = true
bytes_eq [] (b ∷ t) = false
bytes_eq (a ∷ s) [] = false
bytes_eq (a ∷ s) (b ∷ t) = a == b && bytes_eq s t

abbrev pub int_eq : ℤ → ℤ → Bool
int_eq a b = pos_part a == pos_part b && neg_part a == neg_part b

abbrev pub bool_eq : Bool → Bool → Bool
bool_eq true b = b
bool_eq false b = not b

abbrev pub same_name : VariantName → VariantName → Bool
same_name a b = rank (from_variant a) == rank (from_variant b)

-- The test that `value_equal` begins with, at every level.
abbrev pub comparable : Value → Value → Result Bool → Result Bool
comparable v w answer =
    if contains_function v || contains_function w then Result.err not_comparable else answer

abbrev pub only_if : Bool → Result Bool → Result Bool
only_if true answer = answer
only_if false answer = Result.ok false

-- A field that is missing on the right makes the records differ.
abbrev pub if_found : Option Value → (Value → Result Bool) → Result Bool
if_found none continue = Result.ok false
if_found (some w) continue = continue w

unfoldable mutual
  unfolding contains_function from_variant rank values_count fields_count bytes_eq find_field

  pub value_equal : Value → Value → Result Bool
  value_equal (integer a) (integer b) = Result.ok (int_eq a b)
  value_equal (boolean a) (boolean b) = Result.ok (bool_eq a b)
  value_equal (str s) (str t) = Result.ok (bytes_eq s t)
  value_equal Value.unit Value.unit = Result.ok true
  value_equal (Value.list vs d) (Value.list ws e) =
      comparable (Value.list vs d) (Value.list ws e)
        (only_if (values_count vs == values_count ws) (values_equal vs ws))
  value_equal (Value.record_of fs d) (Value.record_of gs e) =
      comparable (Value.record_of fs d) (Value.record_of gs e)
        (only_if (fields_count fs == fields_count gs) (fields_equal fs gs))
  value_equal (Value.variant a v d) (Value.variant b w e) =
      comparable (Value.variant a v d) (Value.variant b w e)
        (only_if (same_name a b) (value_equal v w))
  value_equal (Value.bare a) (Value.bare b) = Result.ok (same_name a b)
  value_equal v w = comparable v w (Result.ok false)

  -- The loop over two lists of one length; `zip` ends with the shorter.
  pub values_equal : Values → Values → Result Bool
  values_equal (Values.cons v vs) (Values.cons w ws) =
      value_equal v w >>= λ same. only_if same (values_equal vs ws)
  values_equal vs ws = Result.ok true

  -- The loop over the left record's fields.
  pub fields_equal : Fields → Fields → Result Bool
  fields_equal end gs = Result.ok true
  fields_equal (Fields.field name v fs) gs =
      if_found (find_field name gs)
        λ w. value_equal v w >>= λ same. only_if same (fields_equal fs gs)
