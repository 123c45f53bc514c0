-- ===== src/Evaluator/JsonTrip.antt =====
-- crates/krit/src/evaluator.rs: `value_to_json` on what `json_to_value` answers.
use krit.Base.{
  ℕ, ◌≡◌, refl, ap, ◌∙◌, sym, true, Option, none, some, Bool-cases, inl, inr, if◌then◌else◌, subst,
}
use Prim.Native.Nat.{Ordering}
use Prim.Native.String.{String, compare}
use text.Mathlib.TextEquality.{eq_iff}
use krit.Diagnostic.{Result, ◌>>=◌, json_decoding}
use krit.Patterns.{VariantName}
use krit.Value.{
  Value, Values, Fields, end, in_i64, new_list, new_record, new_variant, at_depth, same_text,
}
use krit.Evaluator.Json.{
  Json, Items, no_items, Members, no_members, insert_member, variant_key, tagged, value_to_json,
  values_to_json, fields_to_json, variant_of_key, is_null, single, json_to_value, items_to_values,
  members_to_fields,
}

-- The name comes after every name of the members.
abbrev pub Past : String → Members → Type 0
Past name no_members = Unit
Past name (Members.member other j rest) = (compare name other ≡ Ordering.gt) × Past name rest

abbrev pub AllPast : Members → Members → Type 0
AllPast before no_members = Unit
AllPast before (Members.member name j rest) = Past name before × AllPast before rest

-- Each name comes after every name before it, as in a map that is sorted by name.
abbrev pub Ascending : Members → Type 0
Ascending no_members = Unit
Ascending (Members.member name j rest) =
    AllPast (Members.member name j no_members) rest × Ascending rest

unfoldable mutual
  -- Every object has its names in order.
  pub IsOrdered : Json → Type 0
  IsOrdered (Json.array items) = AreOrdered items
  IsOrdered (Json.object ms) = Ascending ms × MembersAreOrdered ms
  IsOrdered j = Unit

  pub AreOrdered : Items → Type 0
  AreOrdered no_items = Unit
  AreOrdered (Items.item j items) = IsOrdered j × AreOrdered items

  pub MembersAreOrdered : Members → Type 0
  MembersAreOrdered no_members = Unit
  MembersAreOrdered (Members.member name j rest) = IsOrdered j × MembersAreOrdered rest

abbrev append : Members → Members → Members
append no_members after = after
append (Members.member name j rest) after = Members.member name j (append rest after)

append_assoc : (a b c : Members) → append (append a b) c ≡ append a (append b c)
append_assoc no_members b c = refl
append_assoc (Members.member name j rest) b c = ap (Members.member name j) (append_assoc rest b c)

append_none : (a : Members) → a ≡ append a no_members
append_none no_members = refl
append_none (Members.member name j rest) = ap (Members.member name j) (append_none rest)

insert_member-last :
    (name : String) (j : Json) (before : Members)
    → Past name before
    → insert_member name j before ≡ append before (Members.member name j no_members)
unfolding insert_member
insert_member-last name j no_members h = refl
insert_member-last name j (Members.member other k rest) (after, h) =
    rw (insert_member, after) (ap (Members.member other k) (insert_member-last name j rest h))

Past-append : (name : String) (a b : Members) → Past name a → Past name b → Past name (append a b)
Past-append name no_members b ha hb = hb
Past-append name (Members.member other j rest) b (after, ha) hb =
    (after, Past-append name rest b ha hb)

AllPast-append : (a b rest : Members) → AllPast a rest → AllPast b rest → AllPast (append a b) rest
AllPast-append a b no_members ha hb = tt
AllPast-append a b (Members.member name j rest) (here, ha) (there, hb) =
    (Past-append name a b here there, AllPast-append a b rest ha hb)

-- What an answer is written as.
abbrev WrittenAs : Json → Result Value → Type 0
WrittenAs j (Result.ok v) = value_to_json v ≡ Result.ok j
WrittenAs j (Result.err e) = Unit

abbrev ItemsWrittenAs : Items → Result Values → Type 0
ItemsWrittenAs items (Result.ok vs) = values_to_json vs ≡ Result.ok items
ItemsWrittenAs items (Result.err e) = Unit

abbrev MembersWrittenAs : Members → Result Fields → Type 0
MembersWrittenAs ms (Result.ok fs) =
    (before : Members) → AllPast before ms → fields_to_json fs before ≡ Result.ok (append before ms)
MembersWrittenAs ms (Result.err e) = Unit

at_depth-WrittenAs :
    (j : Json) (r : Result ℕ) (build : ℕ → Value)
    → ((d : ℕ) → value_to_json (build d) ≡ Result.ok j)
    → WrittenAs j (at_depth r build)
at_depth-WrittenAs j (Result.ok d) build h = h d
at_depth-WrittenAs j (Result.err e) build h = tt

new_list-WrittenAs :
    (items : Items) (r : Result Values)
    → ItemsWrittenAs items r
    → WrittenAs (Json.array items) (r >>= new_list)
unfolding new_list value_to_json
new_list-WrittenAs items (Result.ok vs) h =
    at_depth-WrittenAs (Json.array items) _ _ (λ d. rw h refl)
new_list-WrittenAs items (Result.err e) h = tt

new_record-WrittenAs :
    (ms : Members) (r : Result Fields)
    → MembersWrittenAs ms r
    → AllPast no_members ms
    → WrittenAs (Json.object ms) (r >>= new_record)
unfolding new_record value_to_json
new_record-WrittenAs ms (Result.ok fs) h past =
    at_depth-WrittenAs (Json.object ms) _ _ (λ d. rw (h no_members past) refl)
new_record-WrittenAs ms (Result.err e) h past = tt

AllPast-none : (ms : Members) → AllPast no_members ms
AllPast-none no_members = tt
AllPast-none (Members.member name j rest) = (tt, AllPast-none rest)

new_variant-WrittenAs :
    (variant : VariantName) (j : Json) (r : Result Value)
    → WrittenAs j r
    → WrittenAs (tagged variant j) (r >>= new_variant variant)
unfolding new_variant value_to_json
new_variant-WrittenAs variant j (Result.ok v) h =
    at_depth-WrittenAs (tagged variant j) _ _ (λ d. rw h refl)
new_variant-WrittenAs variant j (Result.err e) h = tt

null_only-WrittenAs :
    (j : Json)
    → WrittenAs
        (tagged VariantName.none j)
        (if is_null j then Result.ok (Value.bare VariantName.none) else Result.err json_decoding)
unfolding value_to_json
null_only-WrittenAs Json.null = refl
null_only-WrittenAs (Json.bool b) = tt
null_only-WrittenAs (Json.integer n) = tt
null_only-WrittenAs Json.float = tt
null_only-WrittenAs (Json.text s) = tt
null_only-WrittenAs (Json.array items) = tt
null_only-WrittenAs (Json.object ms) = tt

tagged-WrittenAs :
    (variant : VariantName) (j : Json) (r : Result Value)
    → WrittenAs j r
    → WrittenAs (tagged variant j) (single (some variant) (variant_key variant) j r)
tagged-WrittenAs VariantName.none j r h = null_only-WrittenAs j
tagged-WrittenAs VariantName.some j r h = new_variant-WrittenAs VariantName.some j r h
tagged-WrittenAs VariantName.ok j r h = new_variant-WrittenAs VariantName.ok j r h
tagged-WrittenAs VariantName.err j r h = new_variant-WrittenAs VariantName.err j r h

same_text-≡ : (s t : String) → same_text s t ≡ true → s ≡ t
same_text-≡ s t h = (eq_iff s t).0 h

some_injective : {A : Type 0} {a b : A} → some a ≡ some b → a ≡ b
some_injective h = cc

keyed :
    (found variant : VariantName) (name : String)
    → same_text name (variant_key found) ≡ true
    → some found ≡ some variant
    → name ≡ variant_key variant
keyed found variant name same h =
    same_text-≡ name (variant_key found) same ∙ ap variant_key (some_injective h)

variant_key-variant_of_key :
    (name : String) (variant : VariantName)
    → variant_of_key name ≡ some variant
    → name ≡ variant_key variant
variant_key-variant_of_key name variant h = elim (Bool-cases (same_text name "Some")) [
  | inl is_some ↦ keyed VariantName.some variant name is_some (rw is_some at h)
  | inr no_some ↦ elim (Bool-cases (same_text name "None")) [
    | inl is_none ↦ keyed VariantName.none variant name is_none (rw (no_some, is_none) at h)
    | inr no_none ↦ elim (Bool-cases (same_text name "Ok")) [
      | inl is_ok ↦ keyed VariantName.ok variant name is_ok (rw (no_some, no_none, is_ok) at h)
      | inr no_ok ↦ elim (Bool-cases (same_text name "Err")) [
        | inl is_err ↦
            keyed VariantName.err variant name is_err (rw (no_some, no_none, no_ok, is_err) at h)
        | inr no_err ↦ cc (rw (no_some, no_none, no_ok, no_err) at h)
      ]
    ]
  ]
]

-- An object with one member.
single-WrittenAs :
    (found : Option VariantName) (name : String) (j : Json) (r : Result Value)
    → variant_of_key name ≡ found
    → WrittenAs j r
    → WrittenAs (Json.object (Members.member name j no_members)) (single found name j r)
unfolding new_record value_to_json
single-WrittenAs none name j (Result.ok v) is h =
    at_depth-WrittenAs (Json.object (Members.member name j no_members)) _ _ (λ d. rw h refl)
single-WrittenAs none name j (Result.err e) is h = tt
single-WrittenAs (some variant) name j r is h =
    subst
      (λ key.
        WrittenAs (Json.object (Members.member key j no_members)) (single (some variant) key j r))
      (sym (variant_key-variant_of_key name variant is)) (tagged-WrittenAs variant j r h)

cons-WrittenAs :
    (j : Json) (items : Items) (head : Result Value) (tail : Result Values)
    → WrittenAs j head
    → ItemsWrittenAs items tail
    → ItemsWrittenAs
        (Items.item j items)
        (head >>= λ v. tail >>= λ vs. Result.ok (Values.cons v vs))
unfolding value_to_json
cons-WrittenAs j items (Result.ok v) (Result.ok vs) h hs = rw (h, hs) refl
cons-WrittenAs j items (Result.ok v) (Result.err e) h hs = tt
cons-WrittenAs j items (Result.err e) tail h hs = tt

member-WrittenAs :
    (name : String) (j : Json) (ms : Members) (head : Result Value) (tail : Result Fields)
    → AllPast (Members.member name j no_members) ms
    → WrittenAs j head
    → MembersWrittenAs ms tail
    → MembersWrittenAs
        (Members.member name j ms)
        (head >>= λ v. tail >>= λ fs. Result.ok (Fields.field name v fs))
unfolding value_to_json
member-WrittenAs name j ms (Result.ok v) (Result.ok fs) later h hs = λ before pasts.
    let first = Members.member name j no_members in
    rw (h, insert_member-last name j before pasts.0)
      (hs (append before first) (AllPast-append before first ms pasts.1 later)
        ∙ ap Result.ok (append_assoc before first ms))
member-WrittenAs name j ms (Result.ok v) (Result.err e) later h hs = tt
member-WrittenAs name j ms (Result.err e) tail later h hs = tt

mutual
  unfolding json_to_value value_to_json IsOrdered

  json_to_value-WrittenAs : (j : Json) → IsOrdered j → WrittenAs j (json_to_value j)
  json_to_value-WrittenAs Json.null h = refl
  json_to_value-WrittenAs (Json.bool b) h = refl
  json_to_value-WrittenAs (Json.integer n) h = elim (Bool-cases (in_i64 n)) [
    | inl fits ↦ rw fits refl
    | inr out ↦ rw out tt
  ]
  json_to_value-WrittenAs Json.float h = tt
  json_to_value-WrittenAs (Json.text s) h = refl
  json_to_value-WrittenAs (Json.array items) h =
      new_list-WrittenAs items (items_to_values items) (items_to_values-WrittenAs items h)
  json_to_value-WrittenAs (Json.object no_members) h =
      new_record-WrittenAs no_members (Result.ok end)
        (λ before past. ap Result.ok (append_none before)) tt
  json_to_value-WrittenAs (Json.object (Members.member name j no_members)) h =
      single-WrittenAs (variant_of_key name) name j (json_to_value j) refl
        (json_to_value-WrittenAs j h.1.0)
  json_to_value-WrittenAs (Json.object (Members.member name j (Members.member other k rest))) h =
      let ((here, (there, later)), (hj, (hk, hs))) = h in
      let tail =
        member-WrittenAs other k rest (json_to_value k) (members_to_fields rest) there
          (json_to_value-WrittenAs k hk) (members_to_fields-WrittenAs rest later hs) in
      let all =
        member-WrittenAs name j (Members.member other k rest) (json_to_value j)
          (members_to_fields (Members.member other k rest)) here (json_to_value-WrittenAs j hj)
          tail in
      new_record-WrittenAs (Members.member name j (Members.member other k rest)) _ all
        (AllPast-none (Members.member name j (Members.member other k rest)))

  items_to_values-WrittenAs :
      (items : Items) → AreOrdered items → ItemsWrittenAs items (items_to_values items)
  items_to_values-WrittenAs no_items h = refl
  items_to_values-WrittenAs (Items.item j items) (hj, hs) =
      cons-WrittenAs j items (json_to_value j) (items_to_values items)
        (json_to_value-WrittenAs j hj) (items_to_values-WrittenAs items hs)

  members_to_fields-WrittenAs :
      (ms : Members)
      → Ascending ms
      → MembersAreOrdered ms
      → MembersWrittenAs ms (members_to_fields ms)
  members_to_fields-WrittenAs no_members later h = λ before past. ap Result.ok (append_none before)
  members_to_fields-WrittenAs (Members.member name j rest) (here, later) (hj, hs) =
      member-WrittenAs name j rest (json_to_value j) (members_to_fields rest) here
        (json_to_value-WrittenAs j hj) (members_to_fields-WrittenAs rest later hs)

-- If a JSON value whose objects have their names in order decodes to a value, that value is encoded as
-- the same JSON value.
pub value_to_json-json_to_value :
    (j : Json) (v : Value)
    → IsOrdered j
    → json_to_value j ≡ Result.ok v
    → value_to_json v ≡ Result.ok j
value_to_json-json_to_value j v ordered h = rw h at (json_to_value-WrittenAs j ordered)
