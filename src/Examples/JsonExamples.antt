-- ===== src/Examples/JsonExamples.antt =====
-- crates/krit/src/evaluator.rs: JSON at a concrete object.
use krit.Base.{◌≡◌, refl}
use krit.Base.Int.{pos}
use krit.Diagnostic.{Result}
use krit.Patterns.{VariantName}
use krit.Value.{Value, Values, Fields, end, integer}
use krit.Evaluator.Json.{Json, Items, Members, no_members, no_items, json_to_value, value_to_json}
use krit.Evaluator.JsonTrip.{IsOrdered, value_to_json-json_to_value}

-- `{"a": {"Ok": [1]}, "b": {"None": null}}`
abbrev object : Json
object = Json.object (
    Members.member "a"
      (Json.object
        (Members.member "Ok" (Json.array (Items.item (Json.integer (pos 1)) no_items)) no_members))
      (Members.member "b" (Json.object (Members.member "None" Json.null no_members)) no_members))

abbrev decoded : Value
decoded =
    Value.record_of
      (Fields.field "a"
        (Value.variant VariantName.ok (Value.list (Values.cons (integer (pos 1)) Values.nil) 1) 2)
        (Fields.field "b" (Value.bare VariantName.none) end))
      3

decodes : json_to_value object ≡ Result.ok decoded
unfolding json_to_value
decodes = refl

object-IsOrdered : IsOrdered object
unfolding IsOrdered
object-IsOrdered =
    ((((refl, tt), tt), (tt, tt)), (((tt, tt), ((tt, tt), tt)), (((tt, tt), (tt, tt)), tt)))

value_to_json-json_to_value_example : value_to_json decoded ≡ Result.ok object
value_to_json-json_to_value_example =
    value_to_json-json_to_value object decoded object-IsOrdered decodes
