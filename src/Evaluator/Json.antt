-- ===== src/Evaluator/Json.antt =====
-- crates/krit/src/evaluator.rs: `value_to_json` and `json_to_value`. `Json` is `serde_json::Value`; its
-- map is sorted by name, and a number is an integer or a float.
use krit.Base.{ℕ, Bool, true, false, Option, none, some, List, if◌then◌else◌}
use krit.Base.Int.{ℤ}
use Prim.Native.Nat.{Ordering}
use Prim.Native.String.{String, compare}
use krit.Diagnostic.{Result, ◌>>=◌, json_encoding, json_decoding}
use krit.Patterns.{VariantName}
use krit.Value.{
  Value, Values, nil, Fields, end, in_i64, new_list, new_record, new_variant, same_text,
}

mutual
  pub data Json : Type 0 where
    null : Json
    bool : Bool → Json
    integer : ℤ → Json
    float : Json
    text : List ℕ → Json
    array : Items → Json
    object : Members → Json

  pub data Items : Type 0 where
    no_items : Items
    item : Json → Items → Items

  pub data Members : Type 0 where
    no_members : Members
    member : String → Json → Members → Members

-- `Map::insert`
unfoldable pub insert_member : String → Json → Members → Members
insert_member name j no_members = Members.member name j no_members
insert_member name j (Members.member other k rest) = elim (compare name other) [
  | Ordering.lt ↦ Members.member name j (Members.member other k rest)
  | Ordering.eq ↦ Members.member name j rest
  | Ordering.gt ↦ Members.member other k (insert_member name j rest)
]

abbrev pub variant_key : VariantName → String
variant_key VariantName.some = "Some"
variant_key VariantName.none = "None"
variant_key VariantName.ok = "Ok"
variant_key VariantName.err = "Err"

abbrev pub tagged : VariantName → Json → Json
tagged name j = Json.object (Members.member (variant_key name) j no_members)

unfoldable mutual
  unfolding insert_member

  pub value_to_json : Value → Result Json
  value_to_json (Value.integer n) = Result.ok (Json.integer n)
  value_to_json (Value.boolean b) = Result.ok (Json.bool b)
  value_to_json (Value.str s) = Result.ok (Json.text s)
  value_to_json Value.unit = Result.ok Json.null
  value_to_json (Value.list vs d) = values_to_json vs >>= λ items. Result.ok (Json.array items)
  value_to_json (Value.record_of fs d) =
      fields_to_json fs no_members >>= λ members. Result.ok (Json.object members)
  value_to_json (Value.bare name) = Result.ok (tagged name Json.null)
  value_to_json (Value.variant name v d) = value_to_json v >>= λ j. Result.ok (tagged name j)
  value_to_json (Value.function name parameters body env) = Result.err json_encoding
  value_to_json (Value.builtin f) = Result.err json_encoding

  pub values_to_json : Values → Result Items
  values_to_json nil = Result.ok no_items
  values_to_json (Values.cons v vs) =
      value_to_json v >>= λ j. values_to_json vs >>= λ items. Result.ok (Items.item j items)

  -- The loop that inserts each field; sorting before it changes nothing but which error comes first,
  -- and every error is the same.
  pub fields_to_json : Fields → Members → Result Members
  fields_to_json end members = Result.ok members
  fields_to_json (Fields.field name v fs) members =
      value_to_json v >>= λ j. fields_to_json fs (insert_member name j members)

-- The variant that an object with one member stands for.
abbrev pub variant_of_key : String → Option VariantName
variant_of_key name =
    if same_text name "Some"
    then some VariantName.some
    else if same_text name "None"
    then some VariantName.none
    else if same_text name "Ok"
    then some VariantName.ok
    else if same_text name "Err"
    then some VariantName.err
    else none

abbrev pub is_null : Json → Bool
is_null Json.null = true
is_null j = false

-- An object with one member, given what its value decodes to.
abbrev pub single : Option VariantName → String → Json → Result Value → Result Value
single none name j decoded = decoded >>= λ v. new_record (Fields.field name v end)
single (some VariantName.none) name j decoded =
    if is_null j then Result.ok (Value.bare VariantName.none) else Result.err json_decoding
single (some variant) name j decoded = decoded >>= λ v. new_variant variant v

unfoldable mutual
  unfolding in_i64 new_list new_record new_variant

  pub json_to_value : Json → Result Value
  json_to_value Json.null = Result.ok Value.unit
  json_to_value (Json.bool b) = Result.ok (Value.boolean b)
  json_to_value (Json.integer n) =
      if in_i64 n then Result.ok (Value.integer n) else Result.err json_decoding
  json_to_value Json.float = Result.err json_decoding
  json_to_value (Json.text s) = Result.ok (Value.str s)
  json_to_value (Json.array items) = items_to_values items >>= new_list
  json_to_value (Json.object (Members.member name j no_members)) =
      single (variant_of_key name) name j (json_to_value j)
  json_to_value (Json.object members) = members_to_fields members >>= new_record

  pub items_to_values : Items → Result Values
  items_to_values no_items = Result.ok nil
  items_to_values (Items.item j items) =
      json_to_value j >>= λ v. items_to_values items >>= λ vs. Result.ok (Values.cons v vs)

  -- The map is sorted already, so the sort after the loop changes nothing.
  pub members_to_fields : Members → Result Fields
  members_to_fields no_members = Result.ok end
  members_to_fields (Members.member name j members) = json_to_value j >>= λ v.
      members_to_fields members >>= λ fs. Result.ok (Fields.field name v fs)
