-- ===== src/Evaluator/Equality/Comparable.antt =====
-- crates/krit/src/evaluator.rs: which values `value_equal` compares.
use krit.Base.{
  ◌≡◌, refl, subst, ◌==◌, Bool, true, false, Option, none, some, arith, Bool-cases, inl, inr,
  ||-eq-false,
}
use krit.Diagnostic.{Result, ◌>>=◌}
use krit.Value.{
  Value, Values, nil, Fields, end, integer, boolean, str, same_text, contains_function,
  values_contain_function, fields_contain_function,
}
use krit.Evaluator.Equality.{
  value_equal, values_equal, fields_equal, find_field, comparable, only_if, if_found, values_count,
  fields_count, same_name, int_eq, bool_eq, bytes_eq,
}
use Prim.Native.String.{String}

-- An answer that is not an error.
abbrev pub Answered : Result Bool → Type 0
Answered r = (b : Bool) × (r ≡ Result.ok b)

only_if-Answered : (b : Bool) (r : Result Bool) → Answered r → Answered (only_if b r)
only_if-Answered true r answered = answered
only_if-Answered false r answered = (false, refl)

then-Answered :
    (m : Result Bool) (r : Result Bool)
    → Answered m
    → Answered r
    → Answered (m >>= λ same. only_if same r)
then-Answered (Result.ok b) r m answered = only_if-Answered b r answered
then-Answered (Result.err e) r (b, h) answered = absurd cc

if_found-Answered :
    (found : Option Value) (continue : Value → Result Bool)
    → ((w : Value) → found ≡ some w → Answered (continue w))
    → Answered (if_found found continue)
if_found-Answered none continue h = (false, refl)
if_found-Answered (some w) continue h = h w refl

comparable-Answered :
    (v w : Value) (r : Result Bool)
    → contains_function v ≡ false
    → contains_function w ≡ false
    → Answered r
    → Answered (comparable v w r)
comparable-Answered v w r hv hw (b, h) = (b, ground arith)

some_injective : (v w : Value) → some v ≡ some w → v ≡ w
some_injective v w h = cc

find_field-clean :
    (name : String) (fs : Fields) (w : Value)
    → fields_contain_function fs ≡ false
    → find_field name fs ≡ some w
    → contains_function w ≡ false
unfolding find_field fields_contain_function
find_field-clean name end w clean h = absurd cc
find_field-clean name (Fields.field other v fs) w clean h =
    let (clean_v, clean_fs) =
      ||-eq-false (contains_function v) (fields_contain_function fs) clean in
    let rest = find_field-clean name fs w clean_fs in
    elim (Bool-cases (same_text name other)) [
      | inl same ↦
          let is : some v ≡ some w = rw same at h in
          subst (λ o. contains_function o ≡ false) (some_injective v w is) clean_v
      | inr apart ↦ rest (rw apart at h)
    ]

mutual
  unfolding value_equal contains_function

  value_equal-Answered :
      (v w : Value)
      → contains_function v ≡ false
      → contains_function w ≡ false
      → Answered (value_equal v w)
  value_equal-Answered (integer a) (integer b) hv hw = (int_eq a b, refl)
  value_equal-Answered (boolean a) (boolean b) hv hw = (bool_eq a b, refl)
  value_equal-Answered (str s) (str t) hv hw = (bytes_eq s t, refl)
  value_equal-Answered Value.unit Value.unit hv hw = (true, refl)
  value_equal-Answered (Value.bare a) (Value.bare b) hv hw = (same_name a b, refl)
  value_equal-Answered (Value.list vs d) (Value.list ws e) hv hw =
      comparable-Answered (Value.list vs d) (Value.list ws e)
        (only_if (values_count vs == values_count ws) (values_equal vs ws)) hv hw
        (only_if-Answered (values_count vs == values_count ws) (values_equal vs ws)
          (values_equal-Answered vs ws hv hw))
  value_equal-Answered (Value.record_of fs d) (Value.record_of gs e) hv hw =
      comparable-Answered (Value.record_of fs d) (Value.record_of gs e)
        (only_if (fields_count fs == fields_count gs) (fields_equal fs gs)) hv hw
        (only_if-Answered (fields_count fs == fields_count gs) (fields_equal fs gs)
          (fields_equal-Answered fs gs hv hw))
  value_equal-Answered (Value.variant a v d) (Value.variant b w e) hv hw =
      comparable-Answered (Value.variant a v d) (Value.variant b w e)
        (only_if (same_name a b) (value_equal v w)) hv hw
        (only_if-Answered (same_name a b) (value_equal v w) (value_equal-Answered v w hv hw))
  value_equal-Answered v w hv hw = comparable-Answered v w (Result.ok false) hv hw (false, refl)

  values_equal-Answered :
      (vs ws : Values)
      → values_contain_function vs ≡ false
      → values_contain_function ws ≡ false
      → Answered (values_equal vs ws)
  values_equal-Answered nil ws hv hw = (true, refl)
  values_equal-Answered (Values.cons v vs) nil hv hw = (true, refl)
  values_equal-Answered (Values.cons v vs) (Values.cons w ws) hv hw =
      let (hv0, hv1) = ||-eq-false (contains_function v) (values_contain_function vs) hv in
      let (hw0, hw1) = ||-eq-false (contains_function w) (values_contain_function ws) hw in
      then-Answered (value_equal v w) (values_equal vs ws) (value_equal-Answered v w hv0 hw0)
        (values_equal-Answered vs ws hv1 hw1)

  fields_equal-Answered :
      (fs gs : Fields)
      → fields_contain_function fs ≡ false
      → fields_contain_function gs ≡ false
      → Answered (fields_equal fs gs)
  fields_equal-Answered end gs hf hg = (true, refl)
  fields_equal-Answered (Fields.field name v fs) gs hf hg =
      let (hv, hf1) = ||-eq-false (contains_function v) (fields_contain_function fs) hf in
      let rest = fields_equal-Answered fs gs hf1 hg in
      if_found-Answered (find_field name gs)
        (λ w. value_equal v w >>= λ same. only_if same (fields_equal fs gs))
        λ w found.
          then-Answered (value_equal v w) (fields_equal fs gs)
            (value_equal-Answered v w hv (find_field-clean name gs w hg found)) rest
