-- ===== src/Value/Depth.antt =====
-- crates/krit/src/evaluator.rs: the recorded depth of a value is how deeply it nests.
use krit.Base.{ℕ, ◌+◌, ◌≤◌, ◌<◌, ◌≡◌, refl, arith, Bool-cases, ltb, inl, true, false, tests, inr}
use Prim.Native.Nat.{max}
use krit.Value.{
  Environment, empty, extend, in_i64, Value, Values, Fields, list, record_of, bare, variant, nil,
  cons, end, field, depth, values_depth, fields_depth, max_value_depth, function, builtin, unit,
  integer, boolean, str, Result, new_list, value_depth, new_record, new_variant, VariantName,
}

-- How deeply containers nest in a value, counted on the value itself.
unfoldable mutual
  pub nesting : Value → ℕ
  nesting (list vs d) = 1 + values_nesting vs
  nesting (record_of fs d) = 1 + fields_nesting fs
  nesting (bare name) = 1
  nesting (variant name payload d) = 1 + nesting payload
  nesting (integer n) = 0
  nesting (boolean b) = 0
  nesting (str s) = 0
  nesting unit = 0
  nesting (function name parameters body env) = 0
  nesting (builtin f) = 0

  pub values_nesting : Values → ℕ
  values_nesting nil = 0
  values_nesting (cons v vs) = max (nesting v) (values_nesting vs)

  pub fields_nesting : Fields → ℕ
  fields_nesting end = 0
  fields_nesting (field name v fs) = max (nesting v) (fields_nesting fs)

-- Every container in the value, and in the scopes of its functions, records its own nesting, none
-- nests beyond the limit, and every integer is an `i64`.
abbrev Recorded : ℕ → ℕ → Type 0
Recorded recorded nests = (recorded ≡ 1 + nests) × (recorded ≤ max_value_depth)

unfoldable mutual
  pub IsSound : Value → Type 0
  IsSound (list vs d) = Recorded d (values_nesting vs) × AreSound vs
  IsSound (record_of fs d) = Recorded d (fields_nesting fs) × FieldsAreSound fs
  IsSound (variant name payload d) = Recorded d (nesting payload) × IsSound payload
  IsSound (bare name) = Unit
  IsSound (integer n) = in_i64 n ≡ true
  IsSound (boolean b) = Unit
  IsSound (str s) = Unit
  IsSound unit = Unit
  IsSound (function name parameters body env) = ScopeIsSound env
  IsSound (builtin f) = Unit

  pub AreSound : Values → Type 0
  AreSound nil = Unit
  AreSound (cons v vs) = IsSound v × AreSound vs

  pub FieldsAreSound : Fields → Type 0
  FieldsAreSound end = Unit
  FieldsAreSound (field name v fs) = IsSound v × FieldsAreSound fs

  pub ScopeIsSound : Environment → Type 0
  ScopeIsSound empty = Unit
  ScopeIsSound (extend name v env) = IsSound v × ScopeIsSound env

depth-nesting : (v : Value) → IsSound v → depth v ≡ nesting v
unfolding depth nesting IsSound
depth-nesting (list vs d) s = s.0.0
depth-nesting (record_of fs d) s = s.0.0
depth-nesting (variant name payload d) s = s.0.0
depth-nesting _ s = refl

values_depth-nesting : (vs : Values) → AreSound vs → values_depth vs ≡ values_nesting vs
unfolding values_depth values_nesting AreSound
values_depth-nesting nil s = refl
values_depth-nesting (cons v vs) s = omega (arith, depth-nesting v s.0, values_depth-nesting vs s.1)

fields_depth-nesting : (fs : Fields) → FieldsAreSound fs → fields_depth fs ≡ fields_nesting fs
unfolding fields_depth fields_nesting FieldsAreSound
fields_depth-nesting end s = refl
fields_depth-nesting (field name v fs) s =
    omega (arith, depth-nesting v s.0, fields_depth-nesting fs s.1)

-- What building a container answers: a sound value of the given nesting, or the depth fault when
-- the nesting is beyond the limit.
abbrev pub Builds : Result Value → ℕ → Type 0
Builds (Result.ok v) n = IsSound v × (nesting v ≡ n) × (n ≤ max_value_depth)
Builds (Result.err e) n = (e ≡ value_depth) × (max_value_depth < n)

depth_of_test :
    (recorded nests : ℕ)
    → recorded ≡ nests
    → ltb max_value_depth (1 + recorded) ≡ false
    → Recorded (1 + recorded) nests × (1 + nests ≤ max_value_depth)
depth_of_test recorded nests same h = ground arith

-- Building a list of sound values gives a sound value that nests one level deeper than they do, and
-- is refused with the depth fault exactly when that is beyond the limit.
pub new_list-Builds : (vs : Values) → AreSound vs → Builds (new_list vs) (1 + values_nesting vs)
unfolding new_list IsSound nesting
new_list-Builds vs s =
    let same = values_depth-nesting vs s in
    elim (Bool-cases (ltb max_value_depth (1 + values_depth vs))) [
      | inl deep ↦ rw deep (refl, omega (tests, same, deep))
      | inr fine ↦
          let (recorded, within) = depth_of_test (values_depth vs) (values_nesting vs) same fine in
          rw fine ((recorded, s), refl, within)
    ]

-- So does building a record of sound fields.
pub new_record-Builds :
    (fs : Fields) → FieldsAreSound fs → Builds (new_record fs) (1 + fields_nesting fs)
unfolding new_record IsSound nesting
new_record-Builds fs s =
    let same = fields_depth-nesting fs s in
    elim (Bool-cases (ltb max_value_depth (1 + fields_depth fs))) [
      | inl deep ↦ rw deep (refl, omega (tests, same, deep))
      | inr fine ↦
          let (recorded, within) = depth_of_test (fields_depth fs) (fields_nesting fs) same fine in
          rw fine ((recorded, s), refl, within)
    ]

-- Building a variant over a sound payload gives a sound value that nests one level deeper, and is
-- refused with the depth fault exactly when that is beyond the limit.
pub new_variant-Builds :
    (name : VariantName) (payload : Value)
    → IsSound payload
    → Builds (new_variant name payload) (1 + nesting payload)
unfolding new_variant IsSound nesting
new_variant-Builds name payload s =
    let same = depth-nesting payload s in
    elim (Bool-cases (ltb max_value_depth (1 + depth payload))) [
      | inl deep ↦ rw deep (refl, omega (tests, same, deep))
      | inr fine ↦
          let (recorded, within) = depth_of_test (depth payload) (nesting payload) same fine in
          rw fine ((recorded, s), refl, within)
    ]

-- The tail nests no deeper than the list that it came from, so it can be built.
pub new_list-tail :
    (v : Value) (vs : Values) (d : ℕ)
    → IsSound (list (cons v vs) d)
    → (rest : Value) × (new_list vs ≡ Result.ok rest) × IsSound rest
unfolding new_list IsSound values_nesting
new_list-tail v vs d s =
    let same = values_depth-nesting vs s.1.1 in
    elim (Bool-cases (ltb max_value_depth (1 + values_depth vs))) [
      | inl deep ↦ absurd (omega (tests, same, deep, s.0.0, s.0.1))
      | inr fine ↦
          let (recorded, within) = depth_of_test (values_depth vs) (values_nesting vs) same fine in
          (list vs (1 + values_depth vs), rw fine, (recorded, s.1.1))
    ]
